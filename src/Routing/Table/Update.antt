-- ===== src/Routing/Table/Update.antt =====
-- `updateContact` of dht/routing_table.go: the recursion ends, the buckets go on covering their
-- keys, and the table learns of the contact.
use inu.Base.{
  ℕ, ◌≤◌, ◌<◌, ◌≡◌, ap, ◌∙◌, Bool, true, false, List, ◌∷◌, ◌++◌, none, some, arith, Bool-cases, inl,
  inr, ◌⊎◌,
}
use native.Mathlib.Decide.{dec_lt}
use inu.Key.{Key, IsKey, key_eq, set_bytes}
use inu.Key.Number.{key_eq_iff, key_eq-false}
use inu.Contact.{Contact}
use inu.Routing.Bucket.{Bucket, in_range}
use inu.Routing.Bucket.Invariant.{InRange, IsValid}
use inu.Routing.Bucket.View.{Learns, stores, replaces, drops, view, view-InRange, view-none}
use inu.Routing.Table.Covers.{low_of, high_of, Covers, Covers-at}
use inu.Routing.Table.View.{contact_at, contact_at_congr, contact_at-view}

pub in_range-InRange :
    (b : Bucket) (c : Contact) → IsKey c.id → in_range b c.id ≡ true → InRange b.low b.high c
unfolding in_range
in_range-InRange b c h e = record { key = h; above = ground arith; below = ground arith }

out_of_range :
    (b : Bucket) (j : Key)
    → in_range b j ≡ false
    → (set_bytes j < low_of b) ⊎ (high_of b < set_bytes j)
unfolding in_range
out_of_range b j e = elim (dec_lt (set_bytes j) (low_of b)) [
  | yes l ↦ inl l
  | no l ↦ inr (ground arith)
]

module _ (k top : ℕ) (pre : List Bucket) (b b' : Bucket) (post : List Bucket) (c : Contact)
    (answers : Contact → Bool) (covers : Covers k 0 top (pre ++ b ∷ post))
    (covers' : Covers k 0 top (pre ++ b' ∷ post)) (same_low : b'.low ≡ b.low)
    (same_high : b'.high ≡ b.high) (valid' : IsValid b') (inside : InRange b.low b.high c) where
  out_absurd :
      (j : Key)
      → set_bytes c.id ≡ set_bytes j
      → (set_bytes j < low_of b) ⊎ (high_of b < set_bytes j)
      → ⊥
  out_absurd j same out = omega (arith, inside.above, inside.below)

  -- How the two tables compare at one key: as the buckets do, in whose range it is or not.
  compare_at :
      (j : Key)
      → ((contact_at (pre ++ b ∷ post) j ≡ view b j)
          × (contact_at (pre ++ b' ∷ post) j ≡ view b' j))
        ⊎ ((contact_at (pre ++ b' ∷ post) j ≡ contact_at (pre ++ b ∷ post) j)
            × (view b j ≡ none)
            × (key_eq c.id j ≡ false))
  compare_at j = elim (Bool-cases (in_range b j)) [
    | inl e ↦
        let l : low_of b ≤ set_bytes j = unfold in_range in ground arith in
        let h : set_bytes j ≤ high_of b = unfold in_range in ground arith in
        inl (
          contact_at-view k 0 top pre b post j covers l h,
          contact_at-view k 0 top pre b' post j covers' (omega (arith, ap set_bytes same_low))
              (omega (arith, ap set_bytes same_high)),
        )
    | inr e ↦
        let out = out_of_range b j e in
        let old = view-none b j (Covers-at k 0 top pre b post covers).0 out in
        let new = view-none b' j valid' (rw (same_low, same_high) out) in
        inr (
          contact_at_congr pre (b' ∷ post) (b ∷ post) j
              (unfold contact_at in ground (arith, old, new)),
          old,
          key_eq-false c.id j (λ same. out_absurd j same out),
        )
  ]

  known : (d : Contact) → InRange b.low b.high d → contact_at (pre ++ b ∷ post) d.id ≡ view b d.id
  known d r = contact_at-view k 0 top pre b post d.id covers r.above r.below

  held : (d : Contact) → view b d.id ≡ some d → contact_at (pre ++ b ∷ post) d.id ≡ some d
  held d h = known d (view-InRange b d.id d (Covers-at k 0 top pre b post covers).0 h).0 ∙ h

  -- What the bucket learns, the table learns.
  pub Learns-table :
      Learns (view b) c answers (view b')
      → Learns (contact_at (pre ++ b ∷ post)) c answers (contact_at (pre ++ b' ∷ post))
  Learns-table (stores h) = stores λ j. ground (arith, h j, compare_at j)
  Learns-table (replaces dst a d e h) =
      replaces dst (known c inside ∙ a) (held dst d) e
        λ j. ground (arith, h j, compare_at j, key_eq_iff dst.id j)
  Learns-table (drops dst a d e h) =
      drops dst (known c inside ∙ a) (held dst d) e λ j. ground (arith, h j, compare_at j)
