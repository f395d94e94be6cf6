-- ===== src/KeyMap.antt =====
-- Go's `map[Key]V`, as an association list. Its order stands for the order of a `range` over the
-- map, which Go leaves open.
pub mod Laws
pub mod Agree
use inu.Base.{List, [], ◌∷◌, ◌≡◌, Option, none, some, if◌then◌else◌}
use inu.Key.{Key, key_eq}

abbrev pub KeyMap {ℓ} : Type ℓ → Type ℓ
KeyMap V = List (Key × V)

module _ {ℓ} {V : Type ℓ} where
  -- `v, found := m[k]`
  unfoldable pub lookup : Key → KeyMap V → Option V
  lookup k [] = none
  lookup k ((j, v) ∷ m) = if key_eq j k then some v else lookup k m

  -- `m[k] = v`
  unfoldable pub insert : Key → V → KeyMap V → KeyMap V
  insert k v [] = (k, v) ∷ []
  insert k v ((j, w) ∷ m) = if key_eq j k then (k, v) ∷ m else (j, w) ∷ insert k v m

  -- `delete(m, k)`
  unfoldable pub delete : Key → KeyMap V → KeyMap V
  delete k [] = []
  delete k ((j, w) ∷ m) = if key_eq j k then m else (j, w) ∷ delete k m

  -- No key stands twice, as in a map.
  abbrev pub Distinct : KeyMap V → Type ℓ
  Distinct [] = Unit
  Distinct ((k, v) ∷ m) = (lookup k m ≡ none) × Distinct m
