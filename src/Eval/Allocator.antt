-- ===== src/Eval/Allocator.antt =====
-- The goroutines of `AllocateIPv4` in cmd/evaluate/eval.go: one takes the first address of the list and
-- offers it, one puts what is returned at the end, and the hosts take and return. The mutex makes each
-- change of the list one step.
pub mod Once
pub mod Hosts
use inu.Base.{
  ℕ, zero, suc, ◌+◌, ◌≡◌, Bool, true, false, List, [], ◌∷◌, ◌++◌, Option, none, some, if◌then◌else◌,
  ok, panic,
}
use inu.Key.{key_eq}
use inu.Eval.Addresses.{Address, Result}

-- The list, the address that is offered, and those that hosts have.
pub record Allocator : Type 0 where
  pub free : List Address
  pub offered : Option Address
  pub taken : List Address

abbrev pub new_allocator : List Address → Allocator
new_allocator r = record { free = r; offered = none; taken = [] }

-- `ip := r[0]; r = r[1:]`: an empty list panics.
abbrev pub offer_first : List Address → Allocator → Result Allocator
offer_first [] a = panic
offer_first (ip ∷ r) a = ok (record a { free = r; offered = some ip })

abbrev pub offer : Allocator → Result Allocator
offer a = offer_first a.free a

-- `newIP <- ip` is received.
abbrev pub hand_over : Address → Allocator → Allocator
hand_over ip a = record a { offered = none; taken = ip ∷ a.taken }

-- `r = append(r, ip)`, of an address that a host had.
abbrev pub give_back : List Address → Address → List Address → Allocator → Allocator
give_back front ip back a = record a { free = a.free ++ (ip ∷ []); taken = front ++ back }

-- What the goroutines can come to.
pub data Turns (a : Allocator) : Allocator → Type 0 where
  rest : Turns a a
  offering : (b c : Allocator) → Turns a b → b.offered ≡ none → offer b ≡ ok c → Turns a c
  receiving :
      (b : Allocator) (ip : Address) → Turns a b → b.offered ≡ some ip → Turns a (hand_over ip b)
  returning :
      (b : Allocator) (front back : List Address) (ip : Address)
      → Turns a b
      → b.taken ≡ front ++ (ip ∷ back)
      → Turns a (give_back front ip back b)
