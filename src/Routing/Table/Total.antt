-- ===== src/Routing/Table/Total.antt =====
-- `UpdateContact` of the routing table always returns.
use inu.Base.{
  ℕ, zero, suc, ◌-◌, ◌^◌, ◌≤◌, ◌<◌, ◌≡◌, ap, sym, ◌∙◌, Bool, true, false, List, ◌∷◌, ◌++◌, some,
  All, arith, inl, inr, ok,
}
use native.Mathlib.Nat.{pow-suc}
use inu.Key.{IsKey, set_bytes}
use inu.Contact.{Contact}
use inu.Routing.Bucket
use inu.Routing.Bucket.{Bucket, in_range, midpoint, split}
use inu.Routing.Bucket.Invariant.{InRange, IsValid}
use inu.Routing.Bucket.Update.{Updated}
use inu.Routing.Bucket.Step.{update_contact-Updated}
use inu.Routing.Bucket.Split.{split_lem}
use inu.Routing.Bucket.View.{Outcome, Updated-Outcome}
use inu.Routing.Table.{RoutingTable, update_contact}
use inu.Routing.Table.Covers.{low_of, high_of, Covers, Covers-at, Located, locate}
use inu.Routing.Table.Update.{in_range-InRange}
use inu.Routing.Table.Learn.{
  Learned, wide_of_full, round_done, round_split, Learned-done, cut, Covers-cut, Learned-cut,
  locate_cut,
}

module _ (top : ℕ) (c : Contact) (answers : Contact → Bool) (now : ℕ) (key : IsKey c.id) where
  -- With this fuel behind the first round, and the contact's bucket narrow enough, a call returns.
  abbrev Ends : ℕ → Type 0
  Ends f =
      (rt : RoutingTable)
      → Covers rt.k 0 top rt.buckets
      → (at : Located c.id rt.buckets) → high_of at.here - low_of at.here < 2 ^ f
      → (rt' : RoutingTable) × (update_contact (suc f) rt c (some answers) now ≡ ok rt')
        × Learned rt top c answers rt'

  abbrev Smaller : ℕ → Type 0
  Smaller zero = Unit
  Smaller (suc g) = Ends g

  module _ (rt : RoutingTable) (pre : List Bucket) (b : Bucket) (post : List Bucket)
      (whole : rt.buckets ≡ pre ++ b ∷ post) (before : All (λ p. in_range p c.id ≡ false) pre)
      (here : in_range b c.id ≡ true) (covers : Covers rt.k 0 top (pre ++ b ∷ post))
      (r : Bucket × Bool) (run : Bucket.update_contact b c rt.self.id (some answers) now ≡ ok r)
      (u : Updated b c rt.self.id answers now r) where
    valid : IsValid b
    valid = (Covers-at rt.k 0 top pre b post covers).0

    inside : InRange b.low b.high c
    inside = in_range-InRange b c key here

    Outcome-Ends :
        (f : ℕ)
        → Smaller f
        → high_of b - low_of b < 2 ^ f
        → Outcome b c answers r
        → (rt' : RoutingTable) × (update_contact (suc f) rt c (some answers) now ≡ ok rt')
          × Learned rt top c answers rt'
    Outcome-Ends f ih narrow (inl (done, learns)) = (
      record rt { buckets = pre ++ r.0 ∷ post },
      round_done rt top c answers now pre b post whole before here r run f done,
      Learned-done rt top c answers now pre b post whole before here r run valid covers inside u
          learns,
    )
    Outcome-Ends zero ih narrow (inr (must, absent, full, same)) = absurd (
        omega (
          arith,
          wide_of_full b.low b.high c b.contacts (omega (arith, valid.positive)) valid.inside
              (sym (valid.agree c.id) ∙ absent) inside,
        ))
    Outcome-Ends (suc g) ih narrow (inr (must, absent, full, same)) =
        let wide =
          wide_of_full b.low b.high c b.contacts (omega (arith, valid.positive)) valid.inside
            (sym (valid.agree c.id) ∙ absent) inside in
        let ((x, y), halved, t) =
          split_lem r.0 rt.self.id now u.valid
            (omega (arith, wide, ap set_bytes u.same_low, ap set_bytes u.same_high)) in
        let (at, half) =
          locate_cut rt top c answers now pre b post whole before here r run valid covers inside u
            same wide x y t (2 ^ g) (omega (arith, pow-suc 2 g)) in
        let (rt', ran, learned) =
          ih
            (cut rt top c answers now pre b post whole before here r run valid covers inside u same
              wide x y t)
            (Covers-cut rt top c answers now pre b post whole before here r run valid covers inside
              u same wide x y t)
            at half in
        (
          rt',
          round_split rt top c answers now pre b post whole before here r run (suc g) x y must
                halved
              ∙ ran,
          Learned-cut rt top c answers now pre b post whole before here r run valid covers inside u
              same wide x y t rt' learned,
        )

  round-Ends : (f : ℕ) → Smaller f → Ends f
  round-Ends f ih rt covers at narrow =
      let covers' = rw (at.whole) at covers in
      let v = (Covers-at rt.k 0 top at.pre at.here at.post covers').0 in
      let (r, run, u) =
        update_contact-Updated at.here v c rt.self.id answers now
          (in_range-InRange at.here c key at.inside) in
      Outcome-Ends rt at.pre at.here at.post at.whole at.before at.inside covers' r run u f ih
        narrow (Updated-Outcome at.here c rt.self.id answers now r v u)

  update_within : (f : ℕ) → Ends f
  update_within zero = round-Ends zero tt
  update_within (suc g) = round-Ends (suc g) (update_within g)

-- The number of rounds that `updateContact` can take: the width of a bucket is below 2 ^ 256.
abbrev pub max_rounds : ℕ
max_rounds = 257

-- On a table that covers the keys up to `top`, `UpdateContact` of a contact with such a key returns
-- within 257 rounds, with no panic; the table then covers the same keys, has the same capacity and
-- the same own contact, and has learnt of the contact: it is stored, or it replaces a contact that
-- did not answer, or it is dropped because a contact did answer. Nothing else is lost.
pub update_contact-Learned :
    (rt : RoutingTable) (top : ℕ) (c : Contact) (answers : Contact → Bool) (now : ℕ)
    → top < 2 ^ 256
    → Covers rt.k 0 top rt.buckets
    → IsKey c.id
    → set_bytes c.id ≤ top
    → (rt' : RoutingTable) × (update_contact max_rounds rt c (some answers) now ≡ ok rt')
      × Learned rt top c answers rt'
update_contact-Learned rt top c answers now bound covers key below =
    let at = locate rt.k 0 top c.id rt.buckets covers (omega arith) below in
    let (_, _, _, _, h) = Covers-at rt.k 0 top at.pre at.here at.post (rw (at.whole) at covers) in
    update_within top c answers now key 256 rt covers at (omega arith)
