-- ===== src/Base/Exists.antt =====
-- Lists with an entry that satisfies a predicate.
use mathlib.Core.List.{List, [], ◌∷◌, ◌++◌}
use mathlib.Core.Logic.{◌⊎◌, inl, inr}
use inu.Base.Lists.{All}

-- Some entry satisfies `P`.
unfoldable pub Any {ℓ} : {A : Type ℓ} → (A → Type 0) → List A → Type 0
Any P [] = ⊥
Any P (x ∷ xs) = P x ⊎ Any P xs

pub Any-front {ℓ} : {A : Type ℓ} (P : A → Type 0) (xs ys : List A) → Any P xs → Any P (xs ++ ys)
unfolding Any
Any-front P (x ∷ xs) ys (inl p) = inl p
Any-front P (x ∷ xs) ys (inr a) = inr (Any-front P xs ys a)
Any-front P [] ys a = absurd a

pub Any-back {ℓ} : {A : Type ℓ} (P : A → Type 0) (xs ys : List A) → Any P ys → Any P (xs ++ ys)
unfolding Any
Any-back P [] ys a = a
Any-back P (x ∷ xs) ys a = inr (Any-back P xs ys a)

-- The chosen entry, or one of the others.
pub Any-split {ℓ} :
    {A : Type ℓ} (P : A → Type 0) (xs ys : List A) (x : A)
    → Any P (xs ++ (x ∷ ys))
    → P x ⊎ Any P (xs ++ ys)
unfolding Any
Any-split P [] ys x a = a
Any-split P (z ∷ xs) ys x (inl p) = inr (inl p)
Any-split P (z ∷ xs) ys x (inr a) = elim (Any-split P xs ys x a) [
  | inl p ↦ inl p
  | inr b ↦ inr (inr b)
]

-- An entry that satisfies `P`, among entries that satisfy `Q`.
pub Any-All {ℓ} :
    {A : Type ℓ} (P Q : A → Type 0) (xs : List A) → Any P xs → All Q xs → (x : A) × P x × Q x
unfolding Any
Any-All P Q [] a h = absurd a
Any-All P Q (x ∷ xs) (inl p) h = (x, p, h.0)
Any-All P Q (x ∷ xs) (inr a) h = Any-All P Q xs a h.1

pub Any-map {ℓ} :
    {A : Type ℓ} {P Q : A → Type 0} (xs : List A) → ((x : A) → P x → Q x) → Any P xs → Any Q xs
unfolding Any
Any-map (x ∷ xs) h (inl p) = inl (h x p)
Any-map (x ∷ xs) h (inr a) = inr (Any-map xs h a)
Any-map [] h a = absurd a
