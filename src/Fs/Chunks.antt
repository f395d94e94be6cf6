-- ===== src/Fs/Chunks.antt =====
-- `chunks` of fs/fs.go.
use inu.Base.{
  ℕ, zero, suc, ◌≤◌, ◌<◌, ◌≡◌, refl, ap, ◌∙◌, List, [], ◌∷◌, ◌++◌, length, length-append,
  length-take, length-drop, take, drop, take-append-drop, ltb, arith, ok, Bool-cases, inl, inr, ◌⊎◌,
}
use mathlib.Core.List.{append-nil}
use inu.Fs.{chunks, chunks_rounds}

module _ {ℓ} {A : Type ℓ} where
  unfoldable pub joined : List (List A) → List A
  joined [] = []
  joined (c ∷ cs) = c ++ joined cs

  -- All chunks but the last are full, the last one fits, and it is empty only if it is the only one.
  abbrev pub Fits : ℕ → List (List A) → Type 0
  Fits size [] = ⊥
  Fits size (c ∷ []) = length c ≤ size
  Fits size (c ∷ d ∷ cs) = (length c ≡ size) × (0 < length (joined (d ∷ cs))) × Fits size (d ∷ cs)

  Fits-cons :
      (size : ℕ) (c : List A) (cs : List (List A))
      → length c ≡ size
      → 0 < length (joined cs)
      → Fits size cs
      → Fits size (c ∷ cs)
  Fits-cons size c [] e h f = absurd f
  Fits-cons size c (d ∷ cs) e h f = (e, h, f)

  append_one :
      (a : List (List A)) (c : List A) (b : List (List A)) → (a ++ (c ∷ [])) ++ b ≡ a ++ (c ∷ b)
  append_one [] c b = refl
  append_one (d ∷ a) c b = ap (◌∷◌ d) (append_one a c b)

  chunks_rounds_lem :
      (n : ℕ) (xs : List A) (size : ℕ) (out : List (List A))
      → 0 < size
      → length xs < n
      → (cs : List (List A)) × (chunks_rounds n xs size out ≡ ok (out ++ cs))
        × (joined cs ≡ xs)
        × Fits size cs
  unfolding chunks_rounds joined
  chunks_rounds_lem zero xs size out h enough = absurd (omega arith)
  chunks_rounds_lem (suc n) xs size out h enough = elim (Bool-cases (ltb size (length xs))) [
    | inr e ↦ (xs ∷ [], rw (chunks_rounds, e) refl, append-nil xs, ground (arith, e))
    | inl e ↦
        let less : length (drop size xs) < n = ground (arith, length-drop size xs, e) in
        let (cs, ran, whole, fits) =
          chunks_rounds_lem n (drop size xs) size (out ++ (take size xs ∷ [])) h less in
        (
          take size xs ∷ cs,
          rw (chunks_rounds, e) (ran ∙ ap ok (append_one out (take size xs) cs)),
          rw whole (take-append-drop size xs),
          Fits-cons size (take size xs) cs (ground (arith, length-take size xs, e))
              (rw whole (ground (arith, length-drop size xs, e))) fits,
        )
  ]

  -- `chunks` with a positive size ends, with no error: the chunks in order are the list, all but the
  -- last have the size, the last has at most the size, and it is empty only for an empty list.
  pub chunks_lem :
      (xs : List A) (size : ℕ)
      → 0 < size
      → (cs : List (List A)) × (chunks xs size ≡ ok cs) × (joined cs ≡ xs) × Fits size cs
  unfolding chunks
  chunks_lem xs size h = chunks_rounds_lem (suc (length xs)) xs size [] h (omega arith)

  pub Fits-length :
      (size : ℕ) (cs : List (List A))
      → 2 ≤ size
      → Fits size cs
      → (length cs ≡ 1) ⊎ (length cs < length (joined cs))
  unfolding joined
  Fits-length size [] h f = absurd f
  Fits-length size (c ∷ []) h f = inl refl
  Fits-length size (c ∷ d ∷ cs) h f =
      let more = length-append c (joined (d ∷ cs)) in
      elim (Fits-length size (d ∷ cs) h f.2) [
        | inl e ↦ inr (omega (arith, f.0, f.1, more, e))
        | inr l ↦ inr (omega (arith, f.0, f.1, more, l))
      ]

  pub Fits-some : (size : ℕ) (cs : List (List A)) → Fits size cs → 0 < length cs
  Fits-some size [] f = absurd f
  Fits-some size (c ∷ cs) f = omega arith

  -- `chunks` of at least two entries with a size of at least two gives at least one chunk, and fewer
  -- chunks than there are entries: each level of a file's tree is smaller than the one below.
  pub length-chunks :
      (xs : List A) (size : ℕ)
      → 2 ≤ size
      → 2 ≤ length xs
      → (cs : List (List A)) × (chunks xs size ≡ ok cs) × (0 < length cs) × (length cs < length xs)
  length-chunks xs size h many =
      let (cs, ran, whole, fits) = chunks_lem xs size (omega arith) in
      let same = ap length whole in
      let fewer : length cs < length xs = elim (Fits-length size cs h fits) [
        | inl e ↦ omega (arith, e, many)
        | inr l ↦ omega (arith, l, same)
      ] in
      (cs, ran, Fits-some size cs fits, fewer)
