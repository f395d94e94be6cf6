-- ===== src/Shortlist/Search.antt =====
-- The binary search of `shortlist` in dht/node.go.
use inu.Base.{
  ℕ, zero, suc, ◌+◌, ◌/◌, ◌≤◌, ◌<◌, ◌≡◌, refl, ap, ◌∙◌, Bool, true, false, ltb, ltb→lt, arith,
  Bool-cases, inl, inr, ◌⊎◌,
}
use inu.Shortlist.{search_rounds}

-- The result is in the range; the test fails just before it and holds at it.
pub record Found (f : ℕ → Bool) (i j r : ℕ) : Type 0 where
  pub low : i ≤ r
  pub high : r ≤ j
  pub before : (r ≡ i) ⊎ ((p : ℕ) × (r ≡ suc p) × (f p ≡ false))
  pub here : (r ≡ j) ⊎ (f r ≡ true)

pub Found-search_rounds :
    (n : ℕ) (f : ℕ → Bool) (i j : ℕ) → i ≤ j → j ≤ i + n → Found f i j (search_rounds n f i j)
unfolding search_rounds
Found-search_rounds zero f i j h enough = record {
  low = omega arith;
  high = h;
  before = inl refl;
  here = inl (omega arith);
}
Found-search_rounds (suc n) f i j h enough = elim (Bool-cases (ltb i j)) [
  | inr e ↦
      rw (e, search_rounds)
        (record { low = omega arith; high = h; before = inl refl; here = inl (ground (arith, e)) })
  | inl e ↦
      let more : i < j = ltb→lt i j e in
      let mid = (i + j) / 2 in
      elim (Bool-cases (f mid)) [
        | inl t ↦
            let r = Found-search_rounds n f i mid (omega arith) (omega arith) in
            rw (e, search_rounds, t)
              (record {
                low = r.low;
                high = omega (arith, r.high);
                before = r.before;
                here = elim r.here [ inl e' ↦ inr (ap f e' ∙ t) | inr h' ↦ inr h' ];
              })
        | inr t ↦
            let r = Found-search_rounds n f (suc mid) j (omega arith) (omega arith) in
            rw (e, search_rounds, t)
              (record {
                low = omega (arith, r.low);
                high = r.high;
                before = elim r.before [ inl e' ↦ inr (mid, e', t) | inr h' ↦ inr h' ];
                here = r.here;
              })
      ]
]
