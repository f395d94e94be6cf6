-- ===== src/Tests/Tries.antt =====
-- Runs and instances for dht/asn.go.
use inu.Base.{
  ℕ, ◌≡◌, refl, Bool, true, false, List, [], ◌∷◌, length, pos, ok, panic, ◌>>=◌, if◌then◌else◌,
}
use inu.Asn.{new_node, v4, Prefix, insert, match}
use inu.Asn.Labels.{label, has_node, Spells}
use inu.Asn.Match.{longest, match-longest, match-insert-panic}

abbrev address : List ℕ
address = 10 ∷ 1 ∷ 0 ∷ 1 ∷ []

abbrev prefix : ℕ → Prefix
prefix n = record { addr = v4 address; bits = pos n }

nested_run :
    (do
      t ← insert new_node (prefix 8) (pos 7)
      t' ← insert t (prefix 16) (pos 9)
      match t' (v4 address))
    ≡ ok (pos 9, true)
unfolding insert match
nested_run = refl

match-longest_example :
    (q : List Bool) × (length q ≡ 32)
    × Spells address 0 q
    × (match new_node (v4 address)
        ≡ (if has_node new_node q then panic else ok (longest (label new_node) q (pos 0, false))))
match-longest_example = match-longest new_node address refl

match-insert-panic_example :
    (insert new_node (prefix 32) (pos 7) >>= λ t'. match t' (v4 address)) ≡ panic
match-insert-panic_example =
    match-insert-panic new_node address (pos 7) (unfold has_node in refl) refl
