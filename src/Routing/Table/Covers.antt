-- ===== src/Routing/Table/Covers.antt =====
-- The buckets of a table cut a range of keys into adjoining parts.
use inu.Base.{
  ℕ, ◌+◌, ◌≤◌, ◌≡◌, refl, ap, true, false, List, [], ◌∷◌, ◌++◌, some, length, set, get_elem?, All,
  arith, Bool-cases, inl, inr, ok,
}
use inu.Key.{Key, set_bytes}
use inu.Routing.Bucket.{Bucket, in_range}
use inu.Routing.Bucket.Invariant.{IsValid}
use inu.Routing.Table.{bucket, put_halves}

abbrev pub low_of : Bucket → ℕ
low_of b = set_bytes b.low

abbrev pub high_of : Bucket → ℕ
high_of b = set_bytes b.high

-- The buckets are valid, have the capacity `k`, and their ranges follow one another from `lo` to
-- `hi`.
abbrev pub Covers : ℕ → ℕ → ℕ → List Bucket → Type 0
Covers k lo hi [] = lo ≡ hi + 1
Covers k lo hi (b ∷ bs) =
    (low_of b ≡ lo) × (lo ≤ high_of b) × IsValid b × (b.k ≡ k) × Covers k (high_of b + 1) hi bs

pub Covers-le : (k lo hi : ℕ) (bs : List Bucket) → Covers k lo hi bs → lo ≤ hi + 1
Covers-le k lo hi [] c = omega arith
Covers-le k lo hi (b ∷ bs) c = omega (arith, Covers-le k (high_of b + 1) hi bs c.4)

-- A bucket in the middle may give way to buckets that cover its range.
pub Covers-replace :
    (k lo hi : ℕ) (pre : List Bucket) (b : Bucket) (post mid : List Bucket)
    → Covers k lo hi (pre ++ b ∷ post)
    → ((rest : List Bucket)
        → Covers k (high_of b + 1) hi rest
        → Covers k (low_of b) hi (mid ++ rest))
    → Covers k lo hi (pre ++ (mid ++ post))
Covers-replace k lo hi [] b post mid c h = rw c.0 at (h post c.4)
Covers-replace k lo hi (p ∷ pre) b post mid c h =
    (c.0, c.1, c.2, c.3, Covers-replace k (high_of p + 1) hi pre b post mid c.4 h)

-- What a covering says of one of its buckets.
pub Covers-at :
    (k lo hi : ℕ) (pre : List Bucket) (b : Bucket) (post : List Bucket)
    → Covers k lo hi (pre ++ b ∷ post)
    → IsValid b
      × (b.k ≡ k)
      × (low_of b ≤ high_of b)
      × Covers k (high_of b + 1) hi post
      × (high_of b ≤ hi)
Covers-at k lo hi [] b post c =
    (c.2, c.3, omega arith, c.4, omega (arith, Covers-le k (high_of b + 1) hi post c.4))
Covers-at k lo hi (p ∷ pre) b post c = Covers-at k (high_of p + 1) hi pre b post c.4

-- The bucket of a key: the buckets before it do not have the key in range.
pub record Located (k : Key) (bs : List Bucket) : Type 0 where
  pub pre : List Bucket
  pub here : Bucket
  pub post : List Bucket
  pub whole : bs ≡ pre ++ here ∷ post
  pub before : All (λ b. in_range b k ≡ false) pre
  pub inside : in_range here k ≡ true

-- A covered key is in the range of a bucket.
pub locate :
    (k lo hi : ℕ) (id : Key) (bs : List Bucket)
    → Covers k lo hi bs
    → lo ≤ set_bytes id
    → set_bytes id ≤ hi
    → Located id bs
unfolding in_range
locate k lo hi id [] c l h = absurd (omega arith)
locate k lo hi id (b ∷ bs) c l h = elim (Bool-cases (in_range b id)) [
  | inl e ↦ record { pre = []; here = b; post = bs; whole = refl; before = tt; inside = e }
  | inr e ↦
      let r = locate k (high_of b + 1) hi id bs c.4 (ground arith) h in
      record {
        pre = b ∷ r.pre;
        here = r.here;
        post = r.post;
        whole = ap (◌∷◌ b) r.whole;
        before = (e, r.before);
        inside = r.inside;
      }
]

-- The scan of `bucket` returns the place of that bucket.
pub bucket_lem :
    (id : Key) (pre : List Bucket) (b : Bucket) (post : List Bucket)
    → All (λ p. in_range p id ≡ false) pre
    → in_range b id ≡ true
    → bucket (pre ++ b ∷ post) id ≡ ok (length pre)
unfolding bucket
bucket_lem id [] b post out e = rw e
bucket_lem id (p ∷ pre) b post out e = rw (out.0, bucket_lem id pre b post out.1 e)

pub get_elem?-middle :
    (pre : List Bucket) (b : Bucket) (post : List Bucket)
    → get_elem? (pre ++ b ∷ post) (length pre) ≡ some b
get_elem?-middle [] b post = refl
get_elem?-middle (p ∷ pre) b post = get_elem?-middle pre b post

pub set-middle :
    (pre : List Bucket) (b b' : Bucket) (post : List Bucket)
    → set (pre ++ b ∷ post) (length pre) b' ≡ pre ++ b' ∷ post
set-middle [] b b' post = refl
set-middle (p ∷ pre) b b' post = ap (◌∷◌ p) (set-middle pre b b' post)

pub put_halves-middle :
    (pre : List Bucket) (b x y : Bucket) (post : List Bucket)
    → put_halves (length pre) x y (pre ++ b ∷ post) ≡ pre ++ x ∷ y ∷ post
unfolding put_halves
put_halves-middle [] b x y post = refl
put_halves-middle (p ∷ pre) b x y post = ap (◌∷◌ p) (put_halves-middle pre b x y post)
