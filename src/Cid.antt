-- ===== src/Cid.antt =====
-- cid/cid.go: the name of a block is the base32 text of the sha256 digest of its bytes. Both are
-- parameters.
use inu.Base.{ℕ, List, length, All, ◌≤◌, ◌<◌, ◌≡◌, ◌==◌, if◌then◌else◌, Run, ok, panic}
use inu.Key.Encoding.{Base32}

abbrev pub Bytes : Type 0
Bytes = List ℕ

abbrev pub Cid : Type 0
Cid = List ℕ

pub record Hashing : Type 0 where
  pub sha256 : Bytes → Bytes
  pub base32 : Base32

-- `cid.New`: a digest of another length than 32 panics.
unfoldable pub new : Hashing → {E : Type 0} → Bytes → Run E Cid
new h bytes =
    let digest = h.sha256 bytes in
    if length digest == 32 then ok (h.base32.encode digest) else panic

-- A text of base32: its characters lie between `2` and `Z`.
abbrev pub IsText : List ℕ → Type 0
IsText = All (λ c. (50 ≤ c) × (c ≤ 90))

-- What the code relies on: a digest is 32 bytes, and the text of 32 bytes is 52 characters of the
-- alphabet.
pub record IsHashing (h : Hashing) : Type 0 where
  pub length-sha256 : (bytes : Bytes) → length (h.sha256 bytes) ≡ 32
  pub sha256-bytes : (bytes : Bytes) → All (λ b. b < 256) (h.sha256 bytes)
  pub length-encode :
      (k : Bytes) → All (λ b. b < 256) k → length k ≡ 32 → length (h.base32.encode k) ≡ 52
  pub encode-IsText :
      (k : Bytes) → All (λ b. b < 256) k → length k ≡ 32 → IsText (h.base32.encode k)
