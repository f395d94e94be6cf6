-- ===== src/Sorting/Unique.antt =====
-- An ascending list is determined by its entries.
use mathlib.Core.List.{Mem, Mem-prop, mem-cons, not-mem-nil}
use mathlib.Core.Logic.Or
use native.Mathlib.Bridge.{le_prop}
use inu.Base.{ℕ, ◌<◌, ◌≡◌, refl, sym, ap, ap₂, List, [], ◌∷◌, All, arith}
use inu.Sorting.Order.{Ascending}

module _ {ℓ} {A : Type ℓ} (d : A → ℕ) where
  lt_of_mem : (x c : A) (l : List A) → All (λ y. d x < d y) l → Mem c l → d x < d c
  lt_of_mem x c [] h m = absurd (not-mem-nil m)
  lt_of_mem x c (y ∷ ys) h m = Or.elim le_prop (mem-cons.0 m) (λ e. rw e h.0) (lt_of_mem x c ys h.1)

module _ {ℓ κ} {A : Type ℓ} (d : A → ℕ) where
  -- The part of a property above an entry.
  Above : (A → Type κ) → A → A → Type κ
  Above P x c = P c × (d x < d c)

  All-Above :
      (P : A → Type κ) (x : A) (l : List A) → All P l → All (λ y. d x < d y) l → All (Above P x) l
  unfolding Above
  All-Above P x [] p h = tt
  All-Above P x (y ∷ ys) p h = ((p.0, h.0), All-Above P x ys p.1 h.1)

  Mem-Above :
      (P : A → Type κ) (x : A) (l : List A)
      → ((c : A) → P c → Mem c (x ∷ l))
      → (c : A) → Above P x c
      → Mem c l
  unfolding Above
  Mem-Above P x l all c (p, h) =
      Or.elim Mem-prop (mem-cons.0 (all c p)) (λ e. absurd (omega (arith, ap d e))) (λ m. m)

module _ {ℓ} {A : Type ℓ} (d : A → ℕ) (set : IsSet A) where
  -- The heads of two ascending lists with the same entries are one entry.
  same_head :
      (x y : A) (xs ys : List A)
      → All (λ z. d x < d z) xs
      → All (λ z. d y < d z) ys
      → Mem x (y ∷ ys)
      → Mem y (x ∷ xs)
      → x ≡ y
  same_head x y xs ys hx hy mx my =
      Or.elim (set x y) (mem-cons.0 mx) (λ e. e)
        λ later. Or.elim (set x y) (mem-cons.0 my) sym λ later'.
          absurd (omega (arith, lt_of_mem d y x ys hy later, lt_of_mem d x y xs hx later'))

  -- Two ascending lists of entries with a property, in which every such entry is, are equal.
  pub Ascending-unique {κ} :
      (P : A → Type κ) (l m : List A)
      → Ascending d l
      → Ascending d m
      → All P l
      → All P m
      → ((c : A) → P c → Mem c l)
      → ((c : A) → P c → Mem c m)
      → l ≡ m
  Ascending-unique P [] [] al am pl pm inl' inm = refl
  Ascending-unique P [] (y ∷ ys) al am pl pm inl' inm = absurd (not-mem-nil (inl' y pm.0))
  Ascending-unique P (x ∷ xs) [] al am pl pm inl' inm = absurd (not-mem-nil (inm x pl.0))
  Ascending-unique P (x ∷ xs) (y ∷ ys) al am pl pm inl' inm =
      let head = same_head x y xs ys al.0 am.0 (inm x pl.0) (inl' y pm.0) in
      ap₂ ◌∷◌ head (
        Ascending-unique (Above d P x) xs ys al.1 am.1 (All-Above d P x xs pl.1 al.0)
          (All-Above d P x ys pm.1 (rw (← head) at (am.0))) (Mem-Above d P x xs inl')
          (Mem-Above d P x ys (rw (← head) at inm)))
