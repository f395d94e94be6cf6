-- ===== src/Eval/Addresses.antt =====
-- The addresses of a network in cmd/evaluate/eval.go: an address is its bytes, and a network an address
-- with the number of bits of its mask.
pub mod Increment
pub mod Hosts
use inu.Base.{
  ℕ, zero, suc, ◌+◌, ◌*◌, ◌-◌, ◌/◌, ◌%◌, ◌^◌, ◌≡◌, Bool, true, false, List, [], ◌∷◌, ◌++◌, length,
  take, drop, leb, ◌==◌, if◌then◌else◌, Run, ok, panic, out_of_fuel, ◌>>=◌,
}
use inu.Key.{key_eq}

abbrev pub Address : Type 0
Address = List ℕ

-- The code returns no errors here, it only panics.
pub data NoError : Type 0 where

abbrev pub Result {ℓ} : Type ℓ → Type ℓ
Result = Run NoError

-- `ip[j]++` of a byte, when the bytes behind it have wrapped; and whether it has too.
abbrev pub bump : ℕ → Address × Bool → Address × Bool
bump b (ip, true) = (((b + 1) % 256) ∷ ip, (b + 1) % 256 == 0)
bump b (ip, false) = (b ∷ ip, false)

-- The loop of `incIP` from the last byte to the first.
unfoldable pub inc_from : Address → Address × Bool
inc_from [] = ([], true)
inc_from (b ∷ ip) = bump b (inc_from ip)

abbrev pub inc_ip : Address → Address
inc_ip ip = (inc_from ip).0

-- `ip.Mask`: the bits behind the first `bits` are cleared.
unfoldable pub mask_ip : ℕ → Address → Address
mask_ip bits [] = []
mask_ip bits (b ∷ ip) =
    let rest = mask_ip (bits - 8) ip in
    (if leb 8 bits then b else b / 2 ^ (8 - bits) * 2 ^ (8 - bits)) ∷ rest

-- `ipNet.Contains`
abbrev pub contains : ℕ → Address → Address → Bool
contains bits net ip = key_eq (mask_ip bits ip) net

-- The loop of `AllocateIPv4` that lists the network, on fuel: a network of 0 bits never ends.
unfoldable pub list_from : ℕ → ℕ → Address → Address → List Address → Result (List Address)
unfolding mask_ip inc_from
list_from zero bits net ip r = out_of_fuel
list_from (suc f) bits net ip r = elim (contains bits net ip) [
  | true ↦ list_from f bits net (inc_ip ip) (r ++ (ip ∷ []))
  | false ↦ ok r
]

-- `r[1 : len(r)-1]`: the slice of a list with fewer than two entries panics.
unfoldable pub inner : List Address → Result (List Address)
inner [] = panic
inner (a ∷ []) = panic
inner (a ∷ b ∷ r) = ok (take (length r) (b ∷ r))

-- The list of `AllocateIPv4` before its goroutines start. `net.ParseCIDR` has given the address and
-- the number of bits.
unfoldable pub hosts : ℕ → ℕ → Address → Result (List Address)
unfolding list_from inner
hosts fuel bits ip = do r ← list_from fuel bits (mask_ip bits ip) (mask_ip bits ip) []; inner r
