-- ===== src/Base/Lists.antt =====
-- Lists measured and indexed by native numbers, under the library's names.
use Prim.Native.Nat.{ℕ, zero, suc, ◌+◌, ◌-◌, ◌≤◌, min}
use mathlib.Core.Path.{subst, ◌≡◌, refl, ap, sym, ◌∙◌}
use mathlib.Core.Logic.{∥∥₁_elim}
use mathlib.Core.List.{List, [], ◌∷◌, ◌++◌, Perm, Permᴰ}
use mathlib.Core.Option.{Option, none, some}
use native.Mathlib.Nat.{ℕ_set}
use native.Mathlib.Omega.{arith}

module _ {ℓ} {A : Type ℓ} where
  abbrev pub length : List A → ℕ
  length [] = 0
  length (x ∷ xs) = suc (length xs)

  abbrev pub get_elem? : List A → ℕ → Option A
  get_elem? [] i = none
  get_elem? (x ∷ xs) zero = some x
  get_elem? (x ∷ xs) (suc i) = get_elem? xs i

  abbrev pub set : List A → ℕ → A → List A
  set [] i v = []
  set (x ∷ xs) zero v = v ∷ xs
  set (x ∷ xs) (suc i) v = x ∷ set xs i v

  abbrev pub take : ℕ → List A → List A
  take zero xs = []
  take (suc n) [] = []
  take (suc n) (x ∷ xs) = x ∷ take n xs

  abbrev pub drop : ℕ → List A → List A
  drop zero xs = xs
  drop (suc n) [] = []
  drop (suc n) (x ∷ xs) = drop n xs

  abbrev pub replicate : ℕ → A → List A
  replicate zero a = []
  replicate (suc n) a = a ∷ replicate n a

  -- A predicate of every entry, which the tactics read as a tuple.
  abbrev pub All {κ} : (A → Type κ) → List A → Type κ
  All P [] = Unit
  All P (x ∷ xs) = P x × All P xs

module _ {ℓ} {A : Type ℓ} where
  pub length-append : (xs ys : List A) → length (xs ++ ys) ≡ length xs + length ys
  length-append [] ys = omega arith
  length-append (x ∷ xs) ys = omega (arith, length-append xs ys)

  pub length-take : (n : ℕ) (xs : List A) → length (take n xs) ≡ min n (length xs)
  length-take zero xs = omega arith
  length-take (suc n) [] = omega arith
  length-take (suc n) (x ∷ xs) = omega (arith, length-take n xs)

  pub length-drop : (n : ℕ) (xs : List A) → length (drop n xs) ≡ length xs - n
  length-drop zero xs = omega arith
  length-drop (suc n) [] = omega arith
  length-drop (suc n) (x ∷ xs) = omega (arith, length-drop n xs)

  pub length-replicate : (n : ℕ) (a : A) → length (replicate n a) ≡ n
  length-replicate zero a = refl
  length-replicate (suc n) a = ap suc (length-replicate n a)

  pub take-append-drop : (n : ℕ) (xs : List A) → take n xs ++ drop n xs ≡ xs
  take-append-drop zero xs = refl
  take-append-drop (suc n) [] = refl
  take-append-drop (suc n) (x ∷ xs) = ap (◌∷◌ x) (take-append-drop n xs)

  pub All-append {κ} :
      (P : A → Type κ) (front back : List A) → All P front → All P back → All P (front ++ back)
  All-append P [] back hf hb = hb
  All-append P (x ∷ front) back hf hb = (hf.0, All-append P front back hf.1 hb)

  pub All-split :
      (P : A → Type 0) (xs ys : List A) (x : A) → All P (xs ++ (x ∷ ys)) → P x × All P (xs ++ ys)
  All-split P [] ys x a = a
  All-split P (z ∷ xs) ys x a = let (p, b) = All-split P xs ys x a.1 in (p, (a.0, b))

  pub All-map {κ κ'} :
      (P : A → Type κ) (Q : A → Type κ')
      → ((a : A) → P a → Q a)
      → (xs : List A) → All P xs
      → All Q xs
  All-map P Q f [] h = tt
  All-map P Q f (x ∷ xs) h = (f x h.0, All-map P Q f xs h.1)

  pub All-both {κ κ'} :
      (P : A → Type κ) (Q : A → Type κ') (xs : List A)
      → All P xs
      → All Q xs
      → All (λ a. P a × Q a) xs
  All-both P Q [] h g = tt
  All-both P Q (x ∷ xs) h g = ((h.0, g.0), All-both P Q xs h.1 g.1)

  pub length-perm : {xs ys : List A} → Perm xs ys → length xs ≡ length ys
  length-perm {xs} {ys} h = ∥∥₁_elim h (ℕ_set (length xs) (length ys)) same
    where
      same : {us vs : List A} → Permᴰ us vs → length us ≡ length vs
      same (Permᴰ.trans h h') = same h ∙ same h'
      same (Permᴰ.swap _ _) = refl
      same (Permᴰ.cons _ h) = ap suc (same h)
      same Permᴰ.nil = refl

  pub take_of_length-le : (n : ℕ) (xs : List A) → length xs ≤ n → take n xs ≡ xs
  take_of_length-le (suc n) (x ∷ xs) short = ap (◌∷◌ x) (take_of_length-le n xs (omega arith))
  take_of_length-le (suc n) [] short = refl
  take_of_length-le zero xs short = sym (nil_of_short xs short)
    where
      nil_of_short : (ys : List A) → length ys ≤ 0 → ys ≡ []
      nil_of_short [] h = refl
      nil_of_short (y ∷ ys) h = absurd (omega arith)

  pub All-perm {κ} : (P : A → Type κ) {xs ys : List A} → Permᴰ xs ys → All P xs → All P ys
  All-perm P (Permᴰ.trans h h') a = All-perm P h' (All-perm P h a)
  All-perm P (Permᴰ.swap p q) a = (subst P q a.1.0, (subst P p a.0, a.1.1))
  All-perm P (Permᴰ.cons p h) a = (subst P p a.0, All-perm P h a.1)
  All-perm P Permᴰ.nil a = tt
