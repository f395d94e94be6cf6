-- ===== src/Tests/Letters.antt =====
-- An encoding of 32 bytes as 52 letters that can be read back: three letters stand for two bytes.
use inu.Base.{
  ℕ, zero, suc, ◌+◌, ◌*◌, ◌-◌, ◌/◌, ◌%◌, ◌≤◌, ◌<◌, ◌≡◌, refl, sym, ap, subst, ◌∙◌, List, [], ◌∷◌,
  ◌++◌, length, length-append, replicate, All, All-append, none, some, ◌==◌, if◌then◌else◌,
  Bool-cases, arith, inl, inr, Option,
}
use inu.Key.Encoding.{Base32, IsBase32}
use inu.Cid.{Bytes, IsText, IsHashing, Hashing}
use inu.Tests.Codecs.{short_hash, short_hash-IsHashing}

unfoldable pub pairs : Bytes → List ℕ
pairs [] = []
pairs (a ∷ []) = []
pairs (a ∷ b ∷ k) =
    let n = 256 * a + b in (50 + n % 41) ∷ (50 + n / 41 % 41) ∷ (50 + n / 1681) ∷ pairs k

unfoldable pub unpairs : ℕ → List ℕ → Bytes
unpairs zero s = []
unpairs (suc n) [] = []
unpairs (suc n) (x ∷ []) = []
unpairs (suc n) (x ∷ y ∷ []) = []
unpairs (suc n) (x ∷ y ∷ z ∷ s) =
    let m = (x - 50) + 41 * (y - 50) + 1681 * (z - 50) in (m / 256) ∷ (m % 256) ∷ unpairs n s

-- A text of another length stands behind a 0.
unfoldable pub decode : List ℕ → Option Bytes
unfolding unpairs
decode [] = none
decode (c ∷ s) = if c == 0 then some s else some (unpairs 16 (c ∷ s))

unfoldable pub encode : Bytes → List ℕ
unfolding pairs
encode k = if length k == 32 then pairs k ++ replicate 4 65 else 0 ∷ k

abbrev pub letters : Base32
letters = record { encode = encode; decode = decode }

two_bytes :
    (a b m : ℕ)
    → a < 256
    → b < 256
    → m ≡ 256 * a + b
    → (50 + m % 41 - 50) + 41 * (50 + m / 41 % 41 - 50) + 1681 * (50 + m / 1681 - 50) ≡ m
two_bytes a b m ha hb e = omega (arith, ha, hb, e)

pairs_lem :
    (n : ℕ) (k : Bytes) (rest : List ℕ)
    → All (λ b. b < 256) k
    → length k ≡ 2 * n
    → unpairs n (pairs k ++ rest) ≡ k
unfolding pairs unpairs
pairs_lem zero [] rest h e = refl
pairs_lem zero (a ∷ k) rest h e = absurd (omega (arith, e))
pairs_lem (suc n) [] rest h e = absurd (omega (arith, e))
pairs_lem (suc n) (a ∷ []) rest h e = absurd (omega (arith, e))
pairs_lem (suc n) (a ∷ b ∷ k) rest h e =
    let m = 256 * a + b in
    let whole = two_bytes a b m h.0 h.1.0 refl in
    let high : m / 256 ≡ a = omega (arith, h.1.0) in
    let low : m % 256 ≡ b = omega (arith, h.1.0) in
    rw (whole, pairs_lem n k rest h.1.1 (omega (arith, e)), high, low) refl

pairs-IsText : (k : Bytes) → All (λ b. b < 256) k → IsText (pairs k)
unfolding pairs
pairs-IsText [] h = tt
pairs-IsText (a ∷ []) h = tt
pairs-IsText (a ∷ b ∷ k) h = (
  (omega arith, omega arith),
  ((omega arith, omega arith), ((omega arith, omega (arith, h.0, h.1.0)), pairs-IsText k h.1.1)),
)

length-pairs : (n : ℕ) (k : Bytes) → length k ≡ 2 * n → length (pairs k) ≡ 3 * n
unfolding pairs
length-pairs zero [] e = refl
length-pairs zero (a ∷ k) e = absurd (omega (arith, e))
length-pairs (suc n) [] e = absurd (omega (arith, e))
length-pairs (suc n) (a ∷ []) e = absurd (omega (arith, e))
length-pairs (suc n) (a ∷ b ∷ k) e = omega (arith, length-pairs n k (omega (arith, e)))

encode_long : (k : Bytes) → length k ≡ 32 → encode k ≡ pairs k ++ replicate 4 65
unfolding encode
encode_long k e = ground (arith, e)

decode_text : (c : ℕ) (s : List ℕ) → 0 < c → decode (c ∷ s) ≡ some (unpairs 16 (c ∷ s))
unfolding decode
decode_text c s h = ground (arith, h)

pub letters-IsBase32 : IsBase32 letters
unfolding decode encode pairs
letters-IsBase32 = record {
  length-encode = λ k h e.
      ap length (encode_long k e)
      ∙ omega (arith, length-append (pairs k) (replicate 4 65), length-pairs 16 k e);
  decode-encode = λ k h. elim (Bool-cases (length k == 32)) [
    | inr other ↦ rw (encode, other) refl
    | inl e ↦ long k h (ground (arith, e))
  ];
}
  where
    long : (k : Bytes) → All (λ b. b < 256) k → length k ≡ 32 → decode (encode k) ≡ some k
    long [] h e = absurd (omega (arith, e))
    long (a ∷ []) h e = absurd (omega (arith, e))
    long (a ∷ b ∷ k) h e =
        ap decode (encode_long (a ∷ b ∷ k) e)
        ∙ decode_text _ _ (omega arith)
        ∙ ap some (pairs_lem 16 (a ∷ b ∷ k) (replicate 4 65) h e)

-- The first 32 bytes as their digest, in letters.
abbrev pub lettered : Hashing
lettered = record short_hash { base32 = letters }

pub lettered-IsHashing : IsHashing lettered
lettered-IsHashing = record {
  length-sha256 = short_hash-IsHashing.length-sha256;
  sha256-bytes = short_hash-IsHashing.sha256-bytes;
  length-encode = letters-IsBase32.length-encode;
  encode-IsText = λ k h e. subst IsText (sym (encode_long k e)) (
      All-append (λ c. (50 ≤ c) × (c ≤ 90)) (pairs k) (replicate 4 65) (pairs-IsText k h)
        (omega arith));
}
