-- ===== src/KeyMap/Laws.antt =====
-- What a map returns after a write or a deletion.
use inu.Base.{◌≡◌, refl, [], ◌∷◌, none, some, arith, if◌then◌else◌}
use inu.Key.{Key, key_eq}
use inu.Key.Number.{key_eq_iff}
use inu.KeyMap.{KeyMap, lookup, insert, delete, Distinct}

module _ {ℓ} {V : Type ℓ} where
  pub lookup-insert :
      (k j : Key) (v : V) (m : KeyMap V)
      → lookup j (insert k v m) ≡ (if key_eq k j then some v else lookup j m)
  unfolding lookup insert
  lookup-insert k j v [] = ground arith
  lookup-insert k j v ((i, w) ∷ m) =
      ground (arith, key_eq_iff k j, key_eq_iff i k, key_eq_iff i j, lookup-insert k j v m)

  pub lookup-delete :
      (k j : Key) (m : KeyMap V)
      → Distinct m
      → lookup j (delete k m) ≡ (if key_eq k j then none else lookup j m)
  unfolding lookup delete
  lookup-delete k j [] d = ground arith
  lookup-delete k j ((i, w) ∷ m) d =
      ground (arith, key_eq_iff k j, key_eq_iff i k, key_eq_iff i j, lookup-delete k j m d.1)

  pub insert-Distinct : (k : Key) (v : V) (m : KeyMap V) → Distinct m → Distinct (insert k v m)
  unfolding insert lookup
  insert-Distinct k v [] d = (refl, tt)
  insert-Distinct k v ((i, w) ∷ m) d =
      ground
        (arith, key_eq_iff i k, key_eq_iff k i, lookup-insert k i v m, insert-Distinct k v m d.1)

  pub delete-Distinct : (k : Key) (m : KeyMap V) → Distinct m → Distinct (delete k m)
  unfolding delete lookup
  delete-Distinct k [] d = tt
  delete-Distinct k ((i, w) ∷ m) d =
      ground
        (arith, key_eq_iff i k, key_eq_iff k i, lookup-delete k i m d.1, delete-Distinct k m d.1)
