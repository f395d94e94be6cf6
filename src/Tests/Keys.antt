-- ===== src/Tests/Keys.antt =====
-- Runs and instances for dht/key.go.
use inu.Base.{
  List, ok, err, ◌⊎◌, ◌-◌, map, ◌%◌, All, subst, ap, ◌∙◌, length, length-append, take, drop, ℕ, ◌<◌,
  ◌≡◌, refl, [], ◌∷◌, ◌++◌, some, replicate, negsuc, arith,
}
use inu.Key.{Key, IsKey, cmp, from_big_int, parse_uint64}
use inu.Key.Encoding.Read.{DecodesBytes, IsText, unmarshal_json-IsText}
use inu.Key.Encoding.{Error, Base32, Json, IsBase32, IsJson, unmarshal_json}

abbrev pub small_key : ℕ → Key
small_key n = replicate 31 0 ++ n ∷ []

pub small_key-IsKey : (n : ℕ) → n < 256 → IsKey (small_key n)
small_key-IsKey n h = record { size = refl; bytes = omega arith }

cmp_run : cmp (small_key 3) (small_key 7) ≡ negsuc 0
unfolding cmp
cmp_run = refl

parse_uint64_run : parse_uint64 258 ≡ some (replicate 30 0 ++ 1 ∷ 2 ∷ [])
unfolding parse_uint64
parse_uint64_run = refl

from_big_int_run : from_big_int 258 ≡ some (replicate 30 0 ++ 1 ∷ 2 ∷ [])
unfolding from_big_int
from_big_int_run = refl

-- An encoding with 52 characters that can be read back: 20 more characters behind the bytes.
abbrev pub padded : Base32
padded = record { encode = λ k. k ++ replicate 20 65; decode = λ s. some (take (length s - 20) s) }

abbrev quoted : Json
quoted = record { quote = λ s. 34 ∷ s; parse = λ s. some (drop 1 s) }

take_front : (xs ys : List ℕ) → take (length xs) (xs ++ ys) ≡ xs
take_front [] ys = refl
take_front (x ∷ xs) ys = ap (◌∷◌ x) (take_front xs ys)

pub padded-IsBase32 : IsBase32 padded
padded-IsBase32 = record {
  length-encode = λ k h e. omega (arith, length-append k (replicate 20 65), e);
  decode-encode = λ k h.
      let size : length (k ++ replicate 20 65) - 20 ≡ length k =
        omega (arith, length-append k (replicate 20 65)) in
      ap some (ap (λ n. take n (k ++ replicate 20 65)) size ∙ take_front k (replicate 20 65));
}

quoted-IsJson : IsJson padded quoted
quoted-IsJson = record { parse-quote = λ k h. refl; quote-null = λ s h. cc }

-- Of a text, the first three characters as bytes.
abbrev cutting : Base32
cutting = record { encode = λ k. k; decode = λ s. some (map (λ c. c % 256) (take 3 s)) }

bytes_map : (d : List ℕ) → All (λ b. b < 256) (map (λ b. b % 256) d)
bytes_map [] = tt
bytes_map (b ∷ d) = (omega arith, bytes_map d)

cutting-DecodesBytes : DecodesBytes cutting
cutting-DecodesBytes = record {
  decode-bytes = λ s buf e.
      let same : map (λ c. c % 256) (take 3 s) ≡ buf = ground (arith, e) in
      subst (All (λ c. c < 256)) same (bytes_map (take 3 s));
}

unmarshal_json-IsText_example :
    ((k : Key) × (unmarshal_json cutting quoted (small_key 0) (34 ∷ replicate 52 65) ≡ ok k)
      × IsText cutting quoted (small_key 0) k (34 ∷ replicate 52 65)
      × IsKey k)
    ⊎ ((e : Error) × (unmarshal_json cutting quoted (small_key 0) (34 ∷ replicate 52 65) ≡ err e)
        × ((k : Key) → ¬ IsText cutting quoted (small_key 0) k (34 ∷ replicate 52 65)))
unmarshal_json-IsText_example =
    unmarshal_json-IsText cutting quoted (small_key 0) (34 ∷ replicate 52 65) cutting-DecodesBytes
      (small_key-IsKey 0 (omega arith))
