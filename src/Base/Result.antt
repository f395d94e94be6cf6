-- ===== src/Base/Result.antt =====
-- How a call of the Go code ends: a value, a returned error, a panic, or, for a loop of the model,
-- its fuel running out. `E` is the module's type of errors.
use mathlib.Core.Path.{◌≡◌, refl}

pub data Run {ℓ} (E : Type 0) (A : Type ℓ) : Type ℓ where
  panic out_of_fuel : Run E A
  err : E → Run E A
  ok : A → Run E A

infixl 5 ◌>>=◌
abbrev pub ◌>>=◌ {ℓ ℓ'} :
    {E : Type 0} {A : Type ℓ} {B : Type ℓ'} → Run E A → (A → Run E B) → Run E B
panic >>= k = panic
out_of_fuel >>= k = out_of_fuel
err e >>= k = err e
ok a >>= k = k a

-- Inversion of a successful bind.
pub >>=-eq-ok {ℓ ℓ'} :
    {E : Type 0} {A : Type ℓ} {B : Type ℓ'} (run : Run E A) (k : A → Run E B) {result : B}
    → (run >>= k) ≡ ok result
    → (a : A) × (run ≡ ok a) × (k a ≡ ok result)
>>=-eq-ok panic k h = cc
>>=-eq-ok out_of_fuel k h = cc
>>=-eq-ok (err e) k h = cc
>>=-eq-ok (ok a) k h = (a, refl, h)
