-- ===== src/Config/Decimal.antt =====
-- `%d` and `strconv.ParseUint` undo each other.
use inu.Base.{
  ℕ, zero, suc, ◌+◌, ◌*◌, ◌-◌, ◌/◌, ◌%◌, ◌<◌, ◌≡◌, refl, ap, ◌∙◌, [], ◌∷◌, ◌++◌, none, some, ltb,
  if◌then◌else◌, Option, arith, Bool-cases, inl, inr,
}
use inu.Http.{Text}
use inu.Config.{digits, decimal, parse_digits, parse_uint, below}

parse_digits-append :
    (n m : ℕ) (s t : Text) → parse_digits n s ≡ some m → parse_digits n (s ++ t) ≡ parse_digits m t
unfolding parse_digits
parse_digits-append n m [] t e =
    let same : n ≡ m = ground (arith, e) in ap (λ k. parse_digits k t) same
parse_digits-append n m (c ∷ s) t e =
    ground (arith, e, parse_digits-append (10 * n + (c - 48)) m s t)

digits_lem : (f n : ℕ) → n < f → parse_digits 0 (digits f n) ≡ some n
unfolding digits parse_digits
digits_lem zero n h = absurd (omega arith)
digits_lem (suc f) n h = elim (Bool-cases (ltb n 10)) [
  | inl small ↦ rw (small) (ground (arith, small))
  | inr big ↦
      let front = digits_lem f (n / 10) (ground (arith, big, h)) in
      rw (big) (
        parse_digits-append 0 (n / 10) (digits f (n / 10)) ((48 + n % 10) ∷ []) front
        ∙ ground arith)
]

parse_uint-append :
    (limit : ℕ) (front : Text) (d : ℕ)
    → parse_uint limit (front ++ (d ∷ [])) ≡ below limit (parse_digits 0 (front ++ (d ∷ [])))
unfolding parse_uint
parse_uint-append limit [] d = refl
parse_uint-append limit (c ∷ front) d = refl

parse_uint-digits :
    (limit f n : ℕ)
    → parse_uint limit (digits (suc f) n) ≡ below limit (parse_digits 0 (digits (suc f) n))
unfolding digits
parse_uint-digits limit f n = elim (Bool-cases (ltb n 10)) [
  | inl small ↦ rw (small) (parse_uint-append limit [] (48 + n))
  | inr big ↦ rw (big) (parse_uint-append limit (digits f (n / 10)) (48 + n % 10))
]

-- A number below the limit is read back from its decimal text, and a larger one is refused.
pub parse_uint-decimal :
    (limit n : ℕ) → parse_uint limit (decimal n) ≡ (if ltb n limit then some n else none)
unfolding decimal
parse_uint-decimal limit n =
    parse_uint-digits limit n n ∙ ap (below limit) (digits_lem (suc n) n (omega arith))

below-some : (limit : ℕ) (o : Option ℕ) (n : ℕ) → below limit o ≡ some n → n < limit
below-some limit none n e = cc
below-some limit (some m) n e = ground (arith, e)

-- A number that is read is below the limit.
pub parse_uint-lt : (limit : ℕ) (s : Text) (n : ℕ) → parse_uint limit s ≡ some n → n < limit
unfolding parse_uint
parse_uint-lt limit [] n e = cc
parse_uint-lt limit (c ∷ s) n e = below-some limit (parse_digits 0 (c ∷ s)) n e
