-- ===== src/Routing/Table/View.antt =====
-- The contacts of a table, as one map from ids.
use inu.Base.{
  ℕ, ◌+◌, ◌≤◌, ◌<◌, ◌≡◌, refl, sym, ◌∙◌, Bool, List, [], ◌∷◌, ◌++◌, none, some, arith, Bool-cases,
  inl, inr, leb,
}
use inu.Key.{Key, set_bytes}
use inu.Contact.{Contact}
use inu.Routing.Bucket.{Bucket, midpoint}
use inu.Routing.Bucket.Split.{Halves}
use inu.Routing.Bucket.View.{View, Learns, stores, replaces, drops, view, view-none}
use inu.Routing.Table.Covers.{low_of, high_of, Covers}

-- The contact that the table knows under an id.
unfoldable pub contact_at : List Bucket → View
contact_at [] j = none
contact_at (b ∷ bs) j = elim (view b j) [ some c ↦ some c | none ↦ contact_at bs j ]

-- The part before some buckets does not matter to how they compare.
pub contact_at_congr :
    (pre l m : List Bucket) (j : Key)
    → contact_at l j ≡ contact_at m j
    → contact_at (pre ++ l) j ≡ contact_at (pre ++ m) j
unfolding contact_at
contact_at_congr [] l m j h = h
contact_at_congr (p ∷ pre) l m j h = ground (arith, contact_at_congr pre l m j h)

-- A key below the covered range is not known.
pub contact_at-low :
    (k lo hi : ℕ) (bs : List Bucket) (j : Key)
    → Covers k lo hi bs
    → set_bytes j < lo
    → contact_at bs j ≡ none
unfolding contact_at
contact_at-low k lo hi [] j c h = refl
contact_at-low k lo hi (b ∷ bs) j c h = ground (
  arith,
  view-none b j c.2 (inl (omega arith)),
  contact_at-low k (high_of b + 1) hi bs j c.4 (omega arith),
)

Covers-beyond :
    (k lo hi : ℕ) (pre : List Bucket) (b : Bucket) (post : List Bucket) (j : Key)
    → Covers k lo hi (pre ++ b ∷ post)
    → low_of b ≤ set_bytes j
    → lo ≤ set_bytes j
Covers-beyond k lo hi [] b post j c l = omega arith
Covers-beyond k lo hi (p ∷ pre) b post j c l =
    omega (arith, Covers-beyond k (high_of p + 1) hi pre b post j c.4 l)

-- A key in the range of a bucket is known to the table as it is known to that bucket.
pub contact_at-view :
    (k lo hi : ℕ) (pre : List Bucket) (b : Bucket) (post : List Bucket) (j : Key)
    → Covers k lo hi (pre ++ b ∷ post)
    → low_of b ≤ set_bytes j
    → set_bytes j ≤ high_of b
    → contact_at (pre ++ b ∷ post) j ≡ view b j
unfolding contact_at
contact_at-view k lo hi [] b post j c l h =
    ground (arith, contact_at-low k (high_of b + 1) hi post j c.4 (omega arith))
contact_at-view k lo hi (p ∷ pre) b post j c l h =
    let rest = contact_at-view k (high_of p + 1) hi pre b post j c.4 l h in
    ground (
      arith,
      rest,
      view-none p j c.2
          (inr (omega (arith, Covers-beyond k (high_of p + 1) hi pre b post j c.4 l))),
    )

pub Learns-congr :
    (v v' : View) (c : Contact) (answers : Contact → Bool) (w : View)
    → ((j : Key) → v j ≡ v' j)
    → Learns v c answers w
    → Learns v' c answers w
Learns-congr v v' c answers w same (stores h) = stores λ j. ground (arith, h j, same j)
Learns-congr v v' c answers w same (replaces dst a b e h) =
    replaces dst (sym (same c.id) ∙ a) (sym (same dst.id) ∙ b) e λ j. ground (arith, h j, same j)
Learns-congr v v' c answers w same (drops dst a b e h) =
    drops dst (sym (same c.id) ∙ a) (sym (same dst.id) ∙ b) e λ j. h j ∙ same j

-- Two halves of a bucket know what the bucket knew.
pub contact_at-Halves :
    (b x y : Bucket) (post : List Bucket) (j : Key)
    → Halves b (x, y)
    → contact_at (x ∷ y ∷ post) j ≡ contact_at (b ∷ post) j
unfolding contact_at
contact_at-Halves b x y post j t = elim (Bool-cases (leb (set_bytes j) (midpoint b))) [
  | inl low ↦
      let h : set_bytes j ≤ midpoint b = ground arith in
      ground (arith, t.holds_x j h, view-none y j t.valid_y (inl (omega (arith, t.low_y))))
  | inr high ↦
      let h : midpoint b < set_bytes j = ground arith in
      ground (arith, t.holds_y j h, view-none x j t.valid_x (inr (omega (arith, t.high_x))))
]
