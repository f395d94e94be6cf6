-- ===== src/Tests/Files.antt =====
-- Runs and instances for fs/fs.go.
use inu.Base.{ℕ, ◌≡◌, refl, List, [], ◌∷◌, ok}
use inu.Fs.{chunks}

abbrev five : List ℕ
five = 1 ∷ 2 ∷ 3 ∷ 4 ∷ 5 ∷ []

chunks_run : chunks five 2 ≡ ok ((1 ∷ 2 ∷ []) ∷ (3 ∷ 4 ∷ []) ∷ (5 ∷ []) ∷ [])
unfolding chunks
chunks_run = refl

one_empty_chunk : chunks {A = ℕ} [] 2 ≡ ok ([] ∷ [])
unfolding chunks
one_empty_chunk = refl
