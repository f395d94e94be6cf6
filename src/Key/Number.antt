-- ===== src/Key/Number.antt =====
-- Keys of dht/key.go as numbers: the two ways in which the code compares and builds them agree.
use native.Mathlib.Nat.{pow-suc, mul_comm}
use inu.Base.{
  ℕ, zero, suc, ◌+◌, ◌*◌, ◌^◌, ◌<◌, ◌≡◌, refl, ap, ◌∙◌, sym, ◌↔◌, ◌≢◌, true, false, [], ◌∷◌, length,
  All, arith, ℤ, pos, negsuc, Bool-cases, inl, inr,
}
use inu.Key.{Key, IsKey, key_eq, cmp, set_bytes}

pub key_eq_iff : (a b : Key) → (key_eq a b ≡ true) ↔ (a ≡ b)
unfolding key_eq
key_eq_iff [] [] = ground arith
key_eq_iff [] (b ∷ v) = ground arith
key_eq_iff (a ∷ k) [] = ground arith
key_eq_iff (a ∷ k) (b ∷ v) = ground (arith, key_eq_iff k v)

pub key_eq_refl : (a : Key) → key_eq a a ≡ true
key_eq_refl a = (key_eq_iff a a).1 refl

pub pow_suc : (n : ℕ) → 256 ^ suc n ≡ 256 * 256 ^ n
pow_suc n = pow-suc 256 n ∙ mul_comm (256 ^ n) 256

pub set_bytes-lt : (k : Key) → All (λ b. b < 256) k → set_bytes k < 256 ^ length k
unfolding set_bytes
set_bytes-lt [] h = omega arith
set_bytes-lt (b ∷ k) h = grind (arith, set_bytes-lt k h.1, pow_suc (length k))

-- The number that the sign of `cmp` reports.
abbrev pub Agrees : ℤ → ℕ → ℕ → Type 0
Agrees (pos zero) m n = m ≡ n
Agrees (pos (suc i)) m n = n < m
Agrees (negsuc i) m n = m < n

Agrees-add : (c : ℤ) (n i j : ℕ) → Agrees c i j → Agrees c (n + i) (n + j)
Agrees-add (pos zero) n i j h = omega arith
Agrees-add (pos (suc c)) n i j h = omega arith
Agrees-add (negsuc c) n i j h = omega arith

-- A higher leading digit outweighs all the lower ones.
digit_lt : (a b p v w : ℕ) → a < b → v < p → a * p + v < b * p + w
digit_lt a b p v w h k = grind arith

cmp-Agrees :
    (a b : Key)
    → length a ≡ length b
    → All (λ x. x < 256) a
    → All (λ x. x < 256) b
    → Agrees (cmp a b) (set_bytes a) (set_bytes b)
unfolding cmp set_bytes
cmp-Agrees [] [] e ha hb = refl
cmp-Agrees [] (b ∷ v) e ha hb = absurd (omega arith)
cmp-Agrees (a ∷ k) [] e ha hb = absurd (omega arith)
cmp-Agrees (a ∷ k) (b ∷ v) e ha hb =
    let same : length k ≡ length v = omega arith in
    let p = 256 ^ length v in
    let at : 256 ^ length k ≡ p = ap (λ n. 256 ^ n) same in
    rw at (
      ground (
        arith,
        Agrees-add (cmp k v) (b * p) _ _ (cmp-Agrees k v same ha.1 hb.1),
        digit_lt a b p (set_bytes k) (set_bytes v),
        digit_lt b a p (set_bytes v) (set_bytes k),
        rw at at (set_bytes-lt k ha.1),
        set_bytes-lt v hb.1,
      ))

-- `cmp` orders two keys as the numbers that `big.Int` reads from them: a negative result means the
-- first number is smaller, zero means the numbers are equal, a positive one that it is larger.
pub cmp-set_bytes : (a b : Key) → IsKey a → IsKey b → Agrees (cmp a b) (set_bytes a) (set_bytes b)
cmp-set_bytes a b ha hb = cmp-Agrees a b (ha.size ∙ sym hb.size) ha.bytes hb.bytes

cmp-eq-zero : (a b : Key) → length a ≡ length b → cmp a b ≡ pos 0 → a ≡ b
unfolding cmp
cmp-eq-zero [] [] e h = refl
cmp-eq-zero [] (b ∷ v) e h = absurd (omega arith)
cmp-eq-zero (a ∷ k) [] e h = absurd (omega arith)
cmp-eq-zero (a ∷ k) (b ∷ v) e h =
    let same : length k ≡ length v = omega arith in ground (arith, cmp-eq-zero k v same)

pub cmp_refl : (a : Key) → cmp a a ≡ pos 0
unfolding cmp
cmp_refl [] = refl
cmp_refl (a ∷ k) = ground (arith, cmp_refl k)

-- Distinct keys spell distinct numbers.
pub set_bytes-injective : (a b : Key) → IsKey a → IsKey b → set_bytes a ≡ set_bytes b → a ≡ b
set_bytes-injective a b ha hb e =
    (elim (cmp a b) as (λ c. cmp a b ≡ c → Agrees c (set_bytes a) (set_bytes b) → a ≡ b) [
      | pos zero ↦ λ z g. cmp-eq-zero a b (ha.size ∙ sym hb.size) z
      | pos (suc i) ↦ λ z g. absurd (omega arith)
      | negsuc i ↦ λ z g. absurd (omega arith)
    ])
      refl (cmp-set_bytes a b ha hb)

-- Keys that spell different numbers differ.
pub key_eq-false : (a b : Key) → set_bytes a ≢ set_bytes b → key_eq a b ≡ false
key_eq-false a b h = elim (Bool-cases (key_eq a b)) [
  | inl e ↦ absurd (h (ap set_bytes ((key_eq_iff a b).0 e)))
  | inr e ↦ e
]
