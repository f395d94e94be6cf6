-- ===== src/Eval/Allocator/Once.antt =====
-- No address is with two hosts, in every order of the goroutines' steps.
use inu.Base.{
  ℕ, suc, ◌+◌, ◌≤◌, ◌≡◌, refl, sym, ap, ◌∙◌, List, [], ◌∷◌, ◌++◌, Option, none, some, if◌then◌else◌,
  ok, arith,
}
use inu.Key.{key_eq}
use inu.Key.Number.{key_eq_refl}
use inu.Eval.Addresses.{Address}
use inu.Eval.Allocator.{
  Allocator, new_allocator, offer_first, Turns, rest, offering, receiving, returning,
}

-- How often an address stands in a list.
unfoldable pub count : Address → List Address → ℕ
count ip [] = 0
count ip (j ∷ r) = let n = count ip r in if key_eq ip j then suc n else n

abbrev pub count_offered : Address → Option Address → ℕ
count_offered ip none = 0
count_offered ip (some j) = if key_eq ip j then 1 else 0

-- All the places of an address.
abbrev pub places : Address → Allocator → ℕ
places ip a = count ip a.free + (count_offered ip a.offered + count ip a.taken)

count-append : (ip : Address) (r s : List Address) → count ip (r ++ s) ≡ count ip r + count ip s
unfolding count
count-append ip [] s = omega arith
count-append ip (j ∷ r) s = ground (arith, count-append ip r s)

count-middle :
    (ip j : Address) (front back : List Address)
    → count ip (front ++ (j ∷ back)) ≡ count ip (front ++ back) + count ip (j ∷ [])
unfolding count
count-middle ip j front back =
    ground (arith, count-append ip front (j ∷ back), count-append ip front back)

offer-places :
    (ip : Address) (r : List Address) (a b : Allocator)
    → a.free ≡ r
    → a.offered ≡ none
    → offer_first r a ≡ ok b
    → places ip b ≡ places ip a
unfolding count
offer-places ip [] a b f e h = cc
offer-places ip (j ∷ r) a b f e h =
    let same : record a { free = r; offered = some j } ≡ b = ground (arith, h) in
    sym (ap (places ip) same) ∙ ground (arith, ap (count ip) f, ap (count_offered ip) e)

-- In every state that the goroutines come to, each address stands as often in the list, the offer and
-- with the hosts together as it did at the beginning.
Turns-places : (a b : Allocator) (ip : Address) → Turns a b → places ip b ≡ places ip a
unfolding count
Turns-places a b ip rest = refl
Turns-places a c ip (offering b _ r e ran) =
    offer-places ip b.free b c refl e ran ∙ Turns-places a b ip r
Turns-places a _ ip (receiving b j r e) =
    ground (arith, Turns-places a b ip r, ap (count_offered ip) e)
Turns-places a _ ip (returning b front back j r e) = ground (
  arith,
  Turns-places a b ip r,
  ap (count ip) e,
  count-middle ip j front back,
  count-append ip b.free (j ∷ []),
)

-- From a list without repetitions, in every order of the steps of the goroutines and the hosts, an
-- address that a host has is with no other host, not offered and not in the list, so none is given out
-- twice. A host returns only what it has.
pub taken_once :
    (r : List Address) (b : Allocator) (front back : List Address) (ip : Address)
    → ((j : Address) → count j r ≤ 1)
    → Turns (new_allocator r) b
    → b.taken ≡ front ++ (ip ∷ back)
    → (count ip (front ++ back) ≡ 0) × (count ip b.free ≡ 0) × (count_offered ip b.offered ≡ 0)
unfolding count
taken_once r b front back ip once runs e =
    let total : places ip b ≤ 1 =
      omega (arith, Turns-places (new_allocator r) b ip runs, once ip) in
    let one : count ip b.taken ≡ count ip (front ++ back) + 1 =
      ap (count ip) e ∙ count-middle ip ip front back ∙ ground (arith, key_eq_refl ip) in
    (omega (arith, total, one), omega (arith, total, one), omega (arith, total, one))
