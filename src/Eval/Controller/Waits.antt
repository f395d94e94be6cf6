-- ===== src/Eval/Controller/Waits.antt =====
-- The loops of cmd/evaluate/ that try again.
use inu.Base.{
  ℕ, zero, suc, ◌+◌, ◌<◌, ◌≤◌, ◌≡◌, refl, ap, ◌∙◌, Bool, true, false, ok, panic, arith, Bool-cases,
  inl, inr, ltb, leb, All, if◌then◌else◌, length, ◌==◌, ◌/◌,
}
use inu.Key.{IsKey}
use inu.Eval.Controller.{connect, new_api, key_bytes, rand_key, session_time}

-- The tries before the number fail, and its own succeeds.
pub record IsFirst (tries : ℕ → Bool) (n : ℕ) : Type 0 where
  pub fails : (j : ℕ) → j < n → tries j ≡ false
  pub succeeds : tries n ≡ true

connect-from :
    (tries : ℕ → Bool) (f i n : ℕ)
    → IsFirst tries n
    → i ≤ n
    → i ≤ 30
    → 31 ≤ i + f
    → connect f tries i ≡ (if leb n 30 then ok n else panic)
unfolding connect
connect-from tries zero i n first h small enough = absurd (omega (arith, small, enough))
connect-from tries (suc f) i n first h small enough = elim (Bool-cases (ltb i n)) [
  | inl before ↦
      let failed = first.fails i (ground (arith, before)) in
      elim (Bool-cases (leb 30 i)) [
        | inl last ↦ rw (failed, last) (ground (arith, before, last))
        | inr more ↦
            rw (failed, more)
              (connect-from tries f (i + 1) n first (ground (arith, before)) (ground (arith, more))
                (omega (arith, enough)))
      ]
  | inr now ↦
      let same : i ≡ n = ground (arith, now, h) in
      let found : tries i ≡ true = ap tries same ∙ first.succeeds in
      rw (found) (ground (arith, same, small))
]

new_api-from :
    (tries : ℕ → Bool) (f i n : ℕ)
    → IsFirst tries n
    → i ≤ n
    → i ≤ 31
    → 32 ≤ i + f
    → new_api f tries i ≡ (if leb n 31 then ok n else panic)
unfolding new_api
new_api-from tries zero i n first h small enough = absurd (omega (arith, small, enough))
new_api-from tries (suc f) i n first h small enough = elim (Bool-cases (ltb i n)) [
  | inl before ↦
      let failed = first.fails i (ground (arith, before)) in
      elim (Bool-cases (ltb 30 i)) [
        | inl last ↦ rw (failed, last) (ground (arith, before, last))
        | inr more ↦
            rw (failed, more)
              (new_api-from tries f (i + 1) n first (ground (arith, before)) (ground (arith, more))
                (omega (arith, enough)))
      ]
  | inr now ↦
      let same : i ≡ n = ground (arith, now, h) in
      let found : tries i ≡ true = ap tries same ∙ first.succeeds in
      rw (found) (ground (arith, same, small))
]

-- The two loops that try again return with the first try that succeeds, when no more than 30 tries
-- before it fail, for the test of the connections, and no more than 31, for the connection to a daemon;
-- else they panic. They take at most 31 and 32 tries.
pub tries_lem :
    (tries : ℕ → Bool) (n : ℕ)
    → IsFirst tries n
    → (connect 31 tries 0 ≡ (if leb n 30 then ok n else panic))
      × (new_api 32 tries 0 ≡ (if leb n 31 then ok n else panic))
tries_lem tries n first = (
  connect-from tries 31 0 n first (omega arith) (omega arith) (omega arith),
  new_api-from tries 32 0 n first (omega arith) (omega arith) (omega arith),
)

key_bytes-IsKey :
    (n : ℕ) (draws : ℕ → ℕ) (i : ℕ)
    → (length (key_bytes n draws i) ≡ n) × All (λ b. b < 256) (key_bytes n draws i)
unfolding key_bytes
key_bytes-IsKey zero draws i = (refl, tt)
key_bytes-IsKey (suc n) draws i =
    let (size, bytes) = key_bytes-IsKey n draws (i + 1) in (ap suc size, (ground arith, bytes))

-- What `randKey` gives is a key.
pub rand_key-IsKey : (draws : ℕ → ℕ) (i : ℕ) → IsKey (rand_key draws i)
rand_key-IsKey draws i =
    let (size, bytes) = key_bytes-IsKey 32 draws i in record { size = size; bytes = bytes }

-- A duration of `sessionTimes` is a second or more, and the loop ends when a draw of a second comes
-- within its rounds.
pub session_time_lem :
    (f : ℕ) (draws : ℕ → ℕ) (i n : ℕ)
    → i ≤ n
    → n < i + f
    → 1000 ≤ draws n
    → (s : ℕ) × (j : ℕ) × (session_time f draws i ≡ ok (s, j)) × (1 ≤ s) × (j ≤ n + 1)
unfolding session_time
session_time_lem zero draws i n h enough long = absurd (omega (arith, h, enough))
session_time_lem (suc f) draws i n h enough long = elim (Bool-cases (ltb (draws i) 1000)) [
  | inl short ↦
      let next : i + 1 ≤ n = elim (Bool-cases (i == n)) [
        | inl same ↦
            let at : i ≡ n = ground (arith, same) in
            absurd (ground (arith, short, ap draws at, long))
        | inr other ↦ ground (arith, other, h)
      ] in
      let (s, j, ran, small, early) =
        session_time_lem f draws (i + 1) n next (omega (arith, enough)) long in
      (s, j, rw (short) ran, small, early)
  | inr taken ↦ (draws i / 1000, i + 1, rw (taken) refl, ground (arith, taken), omega (arith, h))
]
