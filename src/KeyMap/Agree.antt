-- ===== src/KeyMap/Agree.antt =====
-- Two maps that return the same values hold the same entries.
use mathlib.Core.List.{Perm}
use mathlib.Core.List.Perm
use inu.Base.{◌≡◌, refl, ◌∙◌, [], ◌∷◌, none, some, inl, inr, Bool-cases, arith, if◌then◌else◌}
use inu.Key.{Key, key_eq}
use inu.Key.Number.{key_eq_iff, key_eq_refl}
use inu.KeyMap.{KeyMap, lookup, delete, Distinct}
use inu.KeyMap.Laws.{lookup-delete, delete-Distinct}

module _ {ℓ} {V : Type ℓ} where
  delete-perm :
      (k : Key) (v : V) (m : KeyMap V) → lookup k m ≡ some v → Perm m ((k, v) ∷ delete k m)
  unfolding lookup delete
  delete-perm k v [] h = cc
  delete-perm k v ((j, w) ∷ m) h = elim (Bool-cases (key_eq j k)) [
    | inl hit ↦ rw hit (ground (arith, key_eq_iff j k, Perm.refl ((j, w) ∷ m)))
    | inr miss ↦ rw miss (
        Perm.trans (Perm.cons (j, w) (delete-perm k v m (ground arith)))
          (Perm.swap (k, v) (j, w) _))
  ]

  -- A map in which every lookup fails is empty.
  none-nil : (l : KeyMap V) → ((k : Key) → lookup k l ≡ none) → l ≡ []
  unfolding lookup
  none-nil [] h = refl
  none-nil ((k, v) ∷ l) h = absurd (ground (arith, h k, key_eq_refl k))

  pub agree-perm :
      (l m : KeyMap V) → Distinct l → Distinct m → ((k : Key) → lookup k l ≡ lookup k m) → Perm l m
  agree-perm l [] dl dm h = rw (none-nil l (λ k. h k ∙ (unfold lookup in refl))) Perm.nil
  agree-perm l ((k, v) ∷ m) dl dm h = Perm.trans (delete-perm k v l (h k ∙ head)) (
      Perm.cons (k, v)
        (agree-perm (delete k l) m (delete-Distinct k l dl) dm.1
          λ j. lookup-delete k j l dl ∙ rest j))
    where
      head : lookup k ((k, v) ∷ m) ≡ some v
      head = unfold lookup in rw (key_eq_refl k)

      rest : (j : Key) → (if key_eq k j then none else lookup j l) ≡ lookup j m
      rest j = unfold lookup in ground (arith, key_eq_iff k j, h j, dm.0)
