-- ===== src/Eval/Allocator/Hosts.antt =====
-- The allocator of a network: `AllocateIPv4` from its list to its goroutines.
use inu.Base.{
  ℕ, zero, suc, ◌^◌, ◌<◌, ◌≤◌, ◌≡◌, ◌⊎◌, refl, sym, ap, subst, ◌∙◌, List, [], ◌∷◌, ◌++◌, length,
  take, All, ok, arith, Bool-cases, inl, inr,
}
use inu.Key.{set_bytes, key_eq}
use inu.Key.Number.{key_eq_iff}
use inu.Eval.Addresses.{Address, inner, hosts}
use inu.Eval.Addresses.Hosts.{CountsFrom, hosts_lem}
use inu.Eval.Allocator.{Allocator, new_allocator, Turns}
use inu.Eval.Allocator.Once.{count, count_offered, taken_once}

-- Addresses that count up are no two times there, and not below their start.
CountsFrom-count :
    (v : ℕ) (r : List Address) (ip : Address)
    → CountsFrom v r
    → (count ip r ≡ 0) ⊎ ((count ip r ≡ 1) × (v ≤ set_bytes ip))
unfolding count
CountsFrom-count v [] ip h = inl refl
CountsFrom-count v (j ∷ r) ip h = elim (Bool-cases (key_eq ip j)) [
  | inl same ↦
      let value : set_bytes ip ≡ v = ap set_bytes ((key_eq_iff ip j).0 same) ∙ h.0 in
      elim (CountsFrom-count (suc v) r ip h.1) [
        | inl none ↦ inr (ground (arith, same, none), omega (arith, value))
        | inr (one, later) ↦ absurd (omega (arith, value, later))
      ]
  | inr other ↦ elim (CountsFrom-count (suc v) r ip h.1) [
    | inl none ↦ inl (ground (arith, other, none))
    | inr (one, later) ↦ inr (ground (arith, other, one), omega (arith, later))
  ]
]

CountsFrom-take : (v n : ℕ) (r : List Address) → CountsFrom v r → CountsFrom v (take n r)
CountsFrom-take v zero r h = tt
CountsFrom-take v (suc n) [] h = tt
CountsFrom-take v (suc n) (a ∷ r) h = (h.0, CountsFrom-take (suc v) n r h.1)

inner-CountsFrom :
    (v : ℕ) (all r : List Address) → CountsFrom v all → inner all ≡ ok r → CountsFrom (suc v) r
unfolding inner
inner-CountsFrom v [] r h e = cc
inner-CountsFrom v (a ∷ []) r h e = cc
inner-CountsFrom v (a ∷ b ∷ all) r h e =
    let same : take (length all) (b ∷ all) ≡ r = ground (arith, e) in
    subst (CountsFrom (suc v)) same (CountsFrom-take (suc v) (length all) (b ∷ all) h.1)

-- `AllocateIPv4` of a network of at least one bit: in every order of the steps of its goroutines and of
-- the hosts, which return only what they have, an address that a host has is with no other host, not
-- offered and not in the list.
pub allocated_once :
    (fuel bits : ℕ) (base : Address) (r : List Address) (b : Allocator) (front back : List Address)
    (ip : Address)
    → 0 < bits
    → All (λ x. x < 256) base
    → 0 < length base
    → 256 ^ length base < fuel
    → hosts fuel bits base ≡ ok r
    → Turns (new_allocator r) b
    → b.taken ≡ front ++ (ip ∷ back)
    → (count ip (front ++ back) ≡ 0) × (count ip b.free ≡ 0) × (count_offered ip b.offered ≡ 0)
allocated_once fuel bits base r b front back ip some_bits h long enough e runs at =
    let (all, whole, same) = hosts_lem fuel bits base some_bits h long enough in
    let counts = inner-CountsFrom _ all r whole.counts (sym same ∙ e) in
    let once : (j : Address) → count j r ≤ 1 = λ j. elim (CountsFrom-count _ r j counts) [
      | inl none ↦ omega (arith, none)
      | inr (one, _) ↦ omega (arith, one)
    ] in
    taken_once r b front back ip once runs at
