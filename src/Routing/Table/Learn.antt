-- ===== src/Routing/Table/Learn.antt =====
-- The recursion of `updateContact`: fuel, and what the table has learnt when it ends.
use inu.Base.{
  ℕ, suc, ◌-◌, ◌*◌, ◌<◌, ◌≡◌, refl, ap, sym, ◌∙◌, Bool, true, false, List, [], ◌∷◌, ◌++◌, none,
  some, length, set, get_elem?, All, All-append, arith, Bool-cases, inl, inr, ok, leb,
}
use native.Mathlib.Decide.{dec_lt}
use inu.Key.{Key, set_bytes}
use inu.Key.Number.{key_eq_iff, set_bytes-injective}
use mathlib.Core.List.{append_assoc}
use inu.KeyMap.{lookup}
use inu.Contact.{Contact}
use inu.Routing.Bucket
use inu.Routing.Bucket.{Bucket, in_range, midpoint, split}
use inu.Routing.Bucket.Invariant.{InRange, IsValid}
use inu.Routing.Bucket.Update.{Updated}
use inu.Routing.Bucket.Split.{Halves}
use inu.Routing.Bucket.View.{Learns, view}
use inu.Routing.Table.{RoutingTable, bucket, put_halves, update_contact}
use inu.Routing.Table.Covers.{
  low_of, high_of, Covers, Covers-at, Covers-replace, Located, bucket_lem, get_elem?-middle,
  set-middle, put_halves-middle,
}
use inu.Routing.Table.View.{contact_at, contact_at_congr, Learns-congr, contact_at-Halves}
use inu.Routing.Bucket.Listed.{as_map}
use inu.Routing.Table.Update.{Learns-table}

-- What a call leaves: the buckets still cover the keys up to `top`, and the table learnt of `c`.
pub record Learned (rt : RoutingTable) (top : ℕ) (c : Contact) (answers : Contact → Bool)
    (rt' : RoutingTable) : Type 0 where
  pub covers : Covers rt.k 0 top rt'.buckets
  pub same_k : rt'.k ≡ rt.k
  pub same_self : rt'.self ≡ rt.self
  pub learns : Learns (contact_at rt.buckets) c answers (contact_at rt'.buckets)

-- A bucket may give way to one with its range, or to its halves.
Covers-one :
    (k top : ℕ) (pre : List Bucket) (b b' : Bucket) (post : List Bucket)
    → Covers k 0 top (pre ++ b ∷ post)
    → IsValid b'
    → b'.k ≡ b.k
    → b'.low ≡ b.low
    → b'.high ≡ b.high
    → Covers k 0 top (pre ++ b' ∷ post)
Covers-one k top pre b b' post c v same_k same_low same_high =
    let (valid, k_b, wide, rest, below) = Covers-at k 0 top pre b post c in
    let at_low = ap set_bytes same_low in
    let at_high = ap set_bytes same_high in
    Covers-replace k 0 top pre b post (b' ∷ []) c
      λ l h. (at_low, omega arith, v, same_k ∙ k_b, rw (← at_high) at h)

Covers-two :
    (k top : ℕ) (pre : List Bucket) (b x y : Bucket) (post : List Bucket)
    → Covers k 0 top (pre ++ b ∷ post)
    → low_of b < high_of b
    → Halves b (x, y)
    → Covers k 0 top (pre ++ x ∷ y ∷ post)
unfolding midpoint
Covers-two k top pre b x y post c wide t =
    let (valid, k_b, _, rest, below) = Covers-at k 0 top pre b post c in
    let at_low = ap set_bytes t.low_x in
    let at_high = ap set_bytes t.high_y in
    Covers-replace k 0 top pre b post (x ∷ y ∷ []) c λ l h. (
      at_low,
      omega (arith, t.high_x),
      t.valid_x,
      t.k_x ∙ k_b,
      (
        omega (arith, t.high_x, t.low_y),
        omega (arith, t.high_x, at_high),
        t.valid_y,
        t.k_y ∙ k_b,
        rw (← at_high) at h,
      ),
    )

-- A bucket that is full of other contacts has a range of two keys at least.
pub wide_of_full :
    (low high : Key) (c : Contact) (l : List Contact)
    → 0 < length l
    → All (InRange low high) l
    → lookup c.id (as_map l) ≡ none
    → InRange low high c
    → set_bytes low < set_bytes high
unfolding lookup
wide_of_full low high c [] h inside out r = absurd (omega arith)
wide_of_full low high c (d ∷ l) h inside out r = elim (dec_lt (set_bytes low) (set_bytes high)) [
  | yes w ↦ w
  | no w ↦
      let same : set_bytes d.id ≡ set_bytes c.id =
        omega (arith, inside.0.above, inside.0.below, r.above, r.below) in
      absurd (
        ground
          (arith, out, key_eq_iff d.id c.id, set_bytes-injective d.id c.id inside.0.key r.key same))
]

-- One round of the recursion, at the bucket that has the contact's id in range.
module _ (rt : RoutingTable) (top : ℕ) (c : Contact) (answers : Contact → Bool) (now : ℕ)
    (pre : List Bucket) (b : Bucket) (post : List Bucket) (whole : rt.buckets ≡ pre ++ b ∷ post)
    (before : All (λ p. in_range p c.id ≡ false) pre) (here : in_range b c.id ≡ true)
    (r : Bucket × Bool) (run : Bucket.update_contact b c rt.self.id (some answers) now ≡ ok r) where
  found : bucket rt.buckets c.id ≡ ok (length pre)
  found = ap (λ (z : List Bucket). bucket z c.id) whole ∙ bucket_lem c.id pre b post before here

  got : get_elem? rt.buckets (length pre) ≡ some b
  got = ap (λ (z : List Bucket). get_elem? z (length pre)) whole ∙ get_elem?-middle pre b post

  put : set rt.buckets (length pre) r.0 ≡ pre ++ r.0 ∷ post
  put = ap (λ (z : List Bucket). set z (length pre) r.0) whole ∙ set-middle pre b r.0 post

  pub round_done :
      (f : ℕ)
      → r.1 ≡ false
      → update_contact (suc f) rt c (some answers) now
        ≡ ok (record rt { buckets = pre ++ r.0 ∷ post })
  unfolding update_contact
  round_done f e = ground (arith, found, got, put, run)

  pub round_split :
      (f : ℕ) (x y : Bucket)
      → r.1 ≡ true
      → split r.0 rt.self.id now ≡ ok (x, y)
      → update_contact (suc f) rt c (some answers) now
        ≡ update_contact f (record rt { buckets = pre ++ x ∷ y ∷ post }) c (some answers) now
  unfolding update_contact
  round_split f x y e s =
      let halves : put_halves (length pre) x y (set rt.buckets (length pre) r.0)
          ≡ pre ++ x ∷ y ∷ post =
        ap (put_halves (length pre) x y) put ∙ put_halves-middle pre r.0 x y post in
      ground (arith, found, got, run, halves)

  module _ (valid : IsValid b) (covers : Covers rt.k 0 top (pre ++ b ∷ post))
      (inside : InRange b.low b.high c) (u : Updated b c rt.self.id answers now r) where
    Covers-new : Covers rt.k 0 top (pre ++ r.0 ∷ post)
    Covers-new = Covers-one rt.k top pre b r.0 post covers u.valid u.same_k u.same_low u.same_high

    -- Without a split the table learns what the bucket learnt.
    pub Learned-done :
        Learns (view b) c answers (view r.0)
        → Learned rt top c answers (record rt { buckets = pre ++ r.0 ∷ post })
    Learned-done l = record {
      covers = Covers-new;
      same_k = refl;
      same_self = refl;
      learns = rw (ap contact_at whole) (
          Learns-table rt.k top pre b r.0 post c answers covers Covers-new u.same_low u.same_high
            u.valid inside l);
    }

    module _ (same : (j : Key) → view r.0 j ≡ view b j) (wide : low_of b < high_of b) (x y : Bucket)
        (t : Halves r.0 (x, y)) where
      abbrev pub cut : RoutingTable
      cut = record rt { buckets = pre ++ x ∷ y ∷ post }

      pub Covers-cut : Covers rt.k 0 top cut.buckets
      Covers-cut =
          Covers-two rt.k top pre r.0 x y post Covers-new
            (omega (arith, ap set_bytes u.same_low, ap set_bytes u.same_high)) t

      -- A split changes nothing that the table knows.
      view_cut : (j : Key) → contact_at cut.buckets j ≡ contact_at rt.buckets j
      view_cut j =
          contact_at_congr pre (x ∷ y ∷ post) (r.0 ∷ post) j (contact_at-Halves r.0 x y post j t)
          ∙ contact_at_congr pre (r.0 ∷ post) (b ∷ post) j
              (unfold contact_at in ground (arith, same j))
          ∙ ap (λ (z : List Bucket). contact_at z j) (sym whole)

      pub Learned-cut :
          (rt' : RoutingTable) → Learned cut top c answers rt' → Learned rt top c answers rt'
      Learned-cut rt' l = record {
        covers = l.covers;
        same_k = l.same_k;
        same_self = l.same_self;
        learns =
            Learns-congr (contact_at cut.buckets) (contact_at rt.buckets) c answers _ view_cut
              l.learns;
      }

      -- The contact's bucket after the split is one of the halves, of half the width.
      pub locate_cut :
          (w : ℕ)
          → high_of b - low_of b < 2 * w
          → (at : Located c.id cut.buckets) × (high_of at.here - low_of at.here < w)
      unfolding midpoint in_range
      locate_cut w narrow = elim (Bool-cases (leb (set_bytes c.id) (midpoint r.0))) [
        | inl low ↦ (
          record {
            pre = pre;
            here = x;
            post = y ∷ post;
            whole = refl;
            before = before;
            inside = ground (arith, low_x, t.high_x, inside.above);
          },
          ground (arith, low_x, low_r, high_r, t.high_x),
        )
        | inr high ↦ (
          record {
            pre = pre ++ x ∷ [];
            here = y;
            post = post;
            whole = sym (append_assoc pre (x ∷ []) (y ∷ post));
            before =
                All-append (λ p. in_range p c.id ≡ false) pre (x ∷ []) before
                  (ground (arith, t.high_x), tt);
            inside = ground (arith, high_y, t.low_y, inside.below);
          },
          ground (arith, high_y, low_r, high_r, t.low_y),
        )
      ]
        where
          low_r : low_of r.0 ≡ low_of b
          low_r = ap set_bytes u.same_low

          high_r : high_of r.0 ≡ high_of b
          high_r = ap set_bytes u.same_high

          low_x : low_of x ≡ low_of b
          low_x = ap set_bytes t.low_x ∙ low_r

          high_y : high_of y ≡ high_of b
          high_y = ap set_bytes t.high_y ∙ high_r
