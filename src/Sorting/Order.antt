-- ===== src/Sorting/Order.antt =====
-- The result of a sort: the same entries, in ascending order of a number.
use mathlib.Core.List.{Perm}
use mathlib.Core.List.Perm
use inu.Base.{
  ℕ, ◌≤◌, ◌<◌, ◌≡◌, ◌≢◌, true, false, List, [], ◌∷◌, All, All-map, arith, ℤ, Bool-cases, inl, inr,
}
use inu.Sorting.{insert_by, sort_func, is_negative}

-- In strictly ascending order of `d`.
abbrev pub Ascending {ℓ} : {A : Type ℓ} → (A → ℕ) → List A → Type ℓ
Ascending d [] = Unit
Ascending d (x ∷ xs) = All (λ y. d x < d y) xs × Ascending d xs

-- No two entries have the same number.
abbrev pub Apart {ℓ} : {A : Type ℓ} → (A → ℕ) → List A → Type ℓ
Apart d [] = Unit
Apart d (x ∷ xs) = All (λ y. d x ≢ d y) xs × Apart d xs

-- The sign of `cmp` is the order of the numbers, on entries with the property `K`.
pub record Compares {ℓ κ} {A : Type ℓ} (K : A → Type κ) (d : A → ℕ) (cmp : A → A → ℤ)
    : Type (ℓ ⊔ κ) where
  pub below : (a b : A) → K a → K b → is_negative (cmp a b) ≡ true → d a < d b
  pub above : (a b : A) → K a → K b → is_negative (cmp a b) ≡ false → d b ≤ d a

module _ {ℓ} {A : Type ℓ} (cmp : A → A → ℤ) where
  insert_by-perm : (x : A) (l : List A) → Perm (insert_by cmp x l) (x ∷ l)
  unfolding insert_by
  insert_by-perm x [] = Perm.refl (x ∷ [])
  insert_by-perm x (y ∷ ys) = elim (Bool-cases (is_negative (cmp y x))) [
    | inl e ↦ rw (e, insert_by) (Perm.trans (Perm.cons y (insert_by-perm x ys)) (Perm.swap x y ys))
    | inr e ↦ rw (e, insert_by) (Perm.refl (x ∷ y ∷ ys))
  ]

  -- Sorting loses nothing and adds nothing.
  pub sort_func-perm : (l : List A) → Perm (sort_func cmp l) l
  unfolding sort_func
  sort_func-perm [] = Perm.nil
  sort_func-perm (x ∷ xs) =
      Perm.trans (insert_by-perm x (sort_func cmp xs)) (Perm.cons x (sort_func-perm xs))

module _ {ℓ κ} {A : Type ℓ} (cmp : A → A → ℤ) where
  All-insert_by : (P : A → Type κ) (x : A) (l : List A) → P x → All P l → All P (insert_by cmp x l)
  unfolding insert_by
  All-insert_by P x [] p h = (p, tt)
  All-insert_by P x (y ∷ ys) p h = elim (Bool-cases (is_negative (cmp y x))) [
    | inl e ↦ rw (e, insert_by) (h.0, All-insert_by P x ys p h.1)
    | inr e ↦ rw (e, insert_by) (p, h)
  ]

  pub All-sort_func : (P : A → Type κ) (l : List A) → All P l → All P (sort_func cmp l)
  unfolding sort_func
  All-sort_func P [] h = tt
  All-sort_func P (x ∷ xs) h = All-insert_by P x (sort_func cmp xs) h.0 (All-sort_func P xs h.1)

module _ {ℓ κ} {A : Type ℓ} (K : A → Type κ) (d : A → ℕ) (cmp : A → A → ℤ)
    (c : Compares K d cmp) where
  insert_by-Ascending :
      (x : A) (l : List A)
      → K x
      → All K l
      → All (λ y. d x ≢ d y) l
      → Ascending d l
      → Ascending d (insert_by cmp x l)
  unfolding insert_by
  insert_by-Ascending x [] k ks n h = (tt, tt)
  insert_by-Ascending x (y ∷ ys) k ks n h = elim (Bool-cases (is_negative (cmp y x))) [
    | inl e ↦
        rw (e, insert_by)
          (
            All-insert_by cmp (λ z. d y < d z) x ys (c.below y x ks.0 k e) h.0,
            insert_by-Ascending x ys k ks.1 n.1 h.1,
          )
    | inr e ↦
        let first : d x < d y = omega (arith, c.above y x ks.0 k e, n.0) in
        rw (e, insert_by)
          ((first, All-map (λ z. d y < d z) (λ z. d x < d z) (λ z l. omega arith) ys h.0), h)
  ]

  -- Entries with distinct numbers come out in ascending order.
  pub sort_func-Ascending : (l : List A) → All K l → Apart d l → Ascending d (sort_func cmp l)
  unfolding sort_func
  sort_func-Ascending [] ks n = tt
  sort_func-Ascending (x ∷ xs) ks n =
      insert_by-Ascending x (sort_func cmp xs) ks.0 (All-sort_func cmp K xs ks.1)
        (All-sort_func cmp (λ y. d x ≢ d y) xs n.0) (sort_func-Ascending xs ks.1 n.1)
