-- ===== src/Key/BigInt.antt =====
-- `fromBigInt` and `ParseUint64` of dht/key.go against `SetBytes`.
use native.Mathlib.Nat.{pow-le-pow_right}
use native.Mathlib.Decide.{dec_lt}
use inu.Base.{
  ℕ, zero, suc, ◌+◌, ◌-◌, ◌*◌, ◌/◌, ◌%◌, ◌^◌, ◌≤◌, ◌<◌, ◌≡◌, refl, ap, ◌∙◌, List, [], ◌∷◌, ◌++◌,
  none, some, length, replicate, All, length-append, length-replicate, All-append, ◌==◌, arith,
  Bool-cases, inl, inr,
}
use inu.Key.{
  Key, IsKey, key_len, set_bytes, bytes_fuel, big_bytes, copy_right, from_big_int, put_uint64,
  parse_uint64,
}
use inu.Key.Number.{pow_suc, set_bytes-lt, set_bytes-injective}

set_bytes-snoc : (k : Key) (b : ℕ) → set_bytes (k ++ b ∷ []) ≡ set_bytes k * 256 + b
unfolding set_bytes
set_bytes-snoc [] b = omega arith
set_bytes-snoc (a ∷ k) b =
    let size : length (k ++ b ∷ []) ≡ suc (length k) = omega (arith, length-append k (b ∷ [])) in
    rw (set_bytes-snoc k b, size, pow_suc) (omega arith)

set_bytes-pad : (n : ℕ) (k : Key) → set_bytes (replicate n 0 ++ k) ≡ set_bytes k
unfolding set_bytes
set_bytes-pad zero k = refl
set_bytes-pad (suc n) k = omega (arith, set_bytes-pad n k)

set_bytes-bytes_fuel : (f n : ℕ) → n ≤ f → set_bytes (bytes_fuel f n) ≡ n
unfolding bytes_fuel set_bytes
set_bytes-bytes_fuel zero n h = omega arith
set_bytes-bytes_fuel (suc f) n h = elim (Bool-cases (n == 0)) [
  | inl z ↦ rw (z, bytes_fuel) (ground arith)
  | inr z ↦
      rw (z, bytes_fuel)
        (omega (
          arith,
          set_bytes-snoc (bytes_fuel f (n / 256)) (n % 256),
          set_bytes-bytes_fuel f (n / 256) (ground arith),
        ))
]

All-bytes_fuel : (f n : ℕ) → All (λ b. b < 256) (bytes_fuel f n)
unfolding bytes_fuel
All-bytes_fuel zero n = tt
All-bytes_fuel (suc f) n = ground (
  arith,
  All-append (λ b. b < 256) (bytes_fuel f (n / 256)) (n % 256 ∷ []) (All-bytes_fuel f (n / 256))
      (omega arith),
)

length-bytes_fuel : (m f n : ℕ) → n < 256 ^ m → length (bytes_fuel f n) ≤ m
unfolding bytes_fuel
length-bytes_fuel m zero n h = omega arith
length-bytes_fuel zero (suc f) n h = ground arith
length-bytes_fuel (suc m) (suc f) n h = ground (
  arith,
  pow_suc m,
  length-append (bytes_fuel f (n / 256)) (n % 256 ∷ []),
  length-bytes_fuel m f (n / 256),
)

All-pad : (n : ℕ) → All (λ b. b < 256) (replicate n 0)
All-pad zero = tt
All-pad (suc n) = (omega arith, All-pad n)

-- A buffer that fits is padded to a key that spells the same number.
copy_right_lem :
    (buf : List ℕ)
    → length buf ≤ key_len
    → All (λ b. b < 256) buf
    → (k : Key) × (copy_right buf ≡ some k) × IsKey k × (set_bytes k ≡ set_bytes buf)
unfolding copy_right
copy_right_lem buf fits small = (
  pad ++ buf,
  ground arith,
  record {
    size = omega (arith, length-append pad buf, length-replicate {A = ℕ} (key_len - length buf) 0);
    bytes = All-append (λ b. b < 256) pad buf (All-pad _) small;
  },
  set_bytes-pad (key_len - length buf) buf,
)
  where
    pad : List ℕ
    pad = replicate (key_len - length buf) 0

-- For a number below 2 ^ 256 the copy stays in range, and the key spells that number.
pub from_big_int_lem :
    (n : ℕ)
    → n < 256 ^ key_len
    → (k : Key) × (from_big_int n ≡ some k) × IsKey k × (set_bytes k ≡ n)
unfolding from_big_int big_bytes
from_big_int_lem n h =
    let (k, made, valid, same) =
      copy_right_lem (bytes_fuel n n) (length-bytes_fuel key_len n n h) (All-bytes_fuel n n) in
    (k, made, valid, same ∙ set_bytes-bytes_fuel n n (omega arith))

long_of_large : (k : Key) → All (λ b. b < 256) k → 256 ^ key_len ≤ set_bytes k → key_len < length k
long_of_large k small big = elim (dec_lt key_len (length k)) [
  | yes h ↦ h
  | no h ↦ absurd (
      omega (
        arith,
        set_bytes-lt k small,
        pow-le-pow_right {n = 256} (omega arith) {i = length k} {j = key_len} (omega arith),
      ))
]

-- A larger number makes the slice index negative, which panics.
pub from_big_int-none : (n : ℕ) → 256 ^ key_len ≤ n → from_big_int n ≡ none
unfolding from_big_int big_bytes copy_right
from_big_int-none n h =
    let same = set_bytes-bytes_fuel n n (omega arith) in
    ground (arith, long_of_large (bytes_fuel n n) (All-bytes_fuel n n) (omega arith))

-- `SetBytes` and `fromBigInt` are inverse on keys.
pub from_big_int-set_bytes : (k : Key) → IsKey k → from_big_int (set_bytes k) ≡ some k
from_big_int-set_bytes k h =
    let small : set_bytes k < 256 ^ key_len =
      rw (ap (λ n. 256 ^ n) h.size) at (set_bytes-lt k h.bytes) in
    let (v, made, valid, same) = from_big_int_lem (set_bytes k) small in
    made ∙ ap some (set_bytes-injective v k valid h same)

-- `ParseUint64` never panics, and its key spells its argument.
pub parse_uint64_lem :
    (n : ℕ) → n < 2 ^ 64 → (k : Key) × (parse_uint64 n ≡ some k) × IsKey k × (set_bytes k ≡ n)
unfolding parse_uint64
parse_uint64_lem n h =
    let (k, made, valid, same) =
      copy_right_lem (put_uint64 n) (unfold put_uint64 in omega arith)
        (unfold put_uint64 in omega arith) in
    (k, made, valid, same ∙ (unfold put_uint64 set_bytes in omega arith))
