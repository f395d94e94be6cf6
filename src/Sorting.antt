-- ===== src/Sorting.antt =====
-- `slices.SortFunc`, here by insertion. Go leaves the order of entries that compare equal open; the
-- code sorts entries of which no two compare equal (`Unique`).
pub mod Order
pub mod Unique
use inu.Base.{Bool, true, false, List, [], ◌∷◌, if◌then◌else◌, ℤ, pos, negsuc}

-- The test that the sort makes of a comparison.
abbrev pub is_negative : ℤ → Bool
is_negative (pos n) = false
is_negative (negsuc n) = true

module _ {ℓ} {A : Type ℓ} where
  unfoldable pub insert_by : (A → A → ℤ) → A → List A → List A
  insert_by cmp x [] = x ∷ []
  insert_by cmp x (y ∷ ys) = if is_negative (cmp y x) then y ∷ insert_by cmp x ys else x ∷ y ∷ ys

  unfoldable pub sort_func : (A → A → ℤ) → List A → List A
  unfolding insert_by
  sort_func cmp [] = []
  sort_func cmp (x ∷ xs) = insert_by cmp x (sort_func cmp xs)
