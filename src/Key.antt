-- ===== src/Key.antt =====
-- dht/key.go: a 256-bit key as its 32 bytes, the most significant first.
pub mod Number
pub mod Distance
pub mod BigInt
pub mod Encoding
use Prim.Native.Nat.{bit_xor}
use inu.Base.{
  ℕ, zero, suc, ◌+◌, ◌-◌, ◌*◌, ◌/◌, ◌%◌, ◌^◌, ◌<◌, ◌≡◌, Bool, true, false, ◌&&◌, List, [], ◌∷◌,
  ◌++◌, Option, none, some, length, replicate, All, ltb, leb, ◌==◌, if◌then◌else◌, ℤ, pos, negsuc,
}

abbrev pub key_len : ℕ
key_len = 32

-- `[keyLen]byte`; `IsKey` says that the list is such an array.
abbrev pub Key : Type 0
Key = List ℕ

pub record IsKey (k : Key) : Type 0 where
  pub size : length k ≡ key_len
  pub bytes : All (λ b. b < 256) k

-- `Key{}`
abbrev pub zero_key : Key
zero_key = replicate key_len 0

-- `k == v` on arrays.
unfoldable pub key_eq : Key → Key → Bool
key_eq [] [] = true
key_eq [] (b ∷ v) = false
key_eq (a ∷ k) [] = false
key_eq (a ∷ k) (b ∷ v) = a == b && key_eq k v

unfoldable pub xor : Key → Key → Key
xor [] v = []
xor (a ∷ k) [] = []
xor (a ∷ k) (b ∷ v) = bit_xor a b ∷ xor k v

unfoldable pub cmp : Key → Key → ℤ
cmp [] v = pos 0
cmp (a ∷ k) [] = pos 0
cmp (a ∷ k) (b ∷ v) =
    let rest = cmp k v in if ltb a b then negsuc 0 else if ltb b a then pos 1 else rest

-- `new(big.Int).SetBytes(k[:])`: the number that the bytes spell.
unfoldable pub set_bytes : Key → ℕ
set_bytes [] = 0
set_bytes (b ∷ k) = b * 256 ^ length k + set_bytes k

-- `n.Bytes()`: the bytes of a number, with no leading zero. A number has fewer bytes than it counts.
unfoldable pub bytes_fuel : ℕ → ℕ → List ℕ
bytes_fuel zero n = []
bytes_fuel (suc f) n =
    let rest = bytes_fuel f (n / 256) ++ (n % 256) ∷ [] in if n == 0 then [] else rest

unfoldable pub big_bytes : ℕ → List ℕ
unfolding bytes_fuel
big_bytes n = bytes_fuel n n

-- `copy(k[keyLen-len(buf):], buf)` on the zero key; `none` is the panic of a negative slice index.
unfoldable pub copy_right : List ℕ → Option Key
copy_right buf =
    if leb (length buf) key_len then some (replicate (key_len - length buf) 0 ++ buf) else none

unfoldable pub from_big_int : ℕ → Option Key
unfolding copy_right big_bytes
from_big_int n = copy_right (big_bytes n)

-- `binary.BigEndian.PutUint64`
unfoldable pub put_uint64 : ℕ → List ℕ
put_uint64 n =
    (n / 2 ^ 56 % 256)
    ∷ (n / 2 ^ 48 % 256)
    ∷ (n / 2 ^ 40 % 256)
    ∷ (n / 2 ^ 32 % 256)
    ∷ (n / 2 ^ 24 % 256)
    ∷ (n / 2 ^ 16 % 256)
    ∷ (n / 2 ^ 8 % 256)
    ∷ (n % 256)
    ∷ []

unfoldable pub parse_uint64 : ℕ → Option Key
unfolding copy_right put_uint64
parse_uint64 n = copy_right (put_uint64 n)
