-- ===== src/Key/Encoding.antt =====
-- The texts of a key in dht/key.go. `encoding/base32` and `encoding/json` are parameters, and a text
-- is its bytes.
pub mod Read
use mathlib.Core.List.{append-nil}
use inu.Base.{
  ℕ, zero, suc, ◌≤◌, ◌<◌, ◌≡◌, ◌≢◌, refl, ap, sym, ◌∙◌, false, List, [], ◌∷◌, ◌++◌, Option, none,
  some, All, length, take, drop, take_of_length-le, length-append, length-take, length-drop,
  All-append, subst, Option-cases, ◌==◌, if◌then◌else◌, arith, leb, Run, ok, err, Bool-cases, inl,
  inr,
}
use inu.Key.{Key, IsKey, key_len, zero_key, key_eq}
use inu.Key.Number.{key_eq_iff}

-- `base32.StdEncoding.WithPadding(base32.NoPadding)`
pub record Base32 : Type 0 where
  pub encode : List ℕ → List ℕ
  pub decode : List ℕ → Option (List ℕ)

-- `json.Marshal` of a string and `json.Unmarshal` into one.
pub record Json : Type 0 where
  pub quote : List ℕ → List ℕ
  pub parse : List ℕ → Option (List ℕ)

pub data Error : Type 0 where
  invalid_length bad_base32 bad_json : Error

abbrev pub Result {ℓ} : Type ℓ → Type ℓ
Result = Run Error

-- The text `null`.
abbrev pub null : List ℕ
null = 110 ∷ 117 ∷ 108 ∷ 108 ∷ []

unfoldable pub marshal_b32 : Base32 → Key → List ℕ
marshal_b32 b k = b.encode k

-- `copy(k[:], b)`
unfoldable pub copy_left : Key → List ℕ → Key
copy_left k buf = take key_len buf ++ drop (length buf) k

unfoldable pub unmarshal_b32 : Base32 → Key → List ℕ → Result Key
unfolding copy_left
unmarshal_b32 b k s =
    if length s == 52
    then elim (b.decode s) [ none ↦ err bad_base32 | some buf ↦ ok (copy_left k buf) ]
    else err invalid_length

unfoldable pub marshal_json : Base32 → Json → Key → List ℕ
unfolding marshal_b32
marshal_json b j k = if key_eq k zero_key then null else j.quote (marshal_b32 b k)

-- `key_eq` compares any two lists of bytes.
unfoldable pub unmarshal_json : Base32 → Json → Key → List ℕ → Result Key
unfolding unmarshal_b32
unmarshal_json b j k text =
    if key_eq text null
    then ok zero_key
    else elim (j.parse text) [ none ↦ err bad_json | some s ↦ unmarshal_b32 b k s ]

abbrev pub parse_cid : Base32 → List ℕ → Result Key
parse_cid b cid = unmarshal_b32 b zero_key cid

-- What the code relies on of base32: 32 bytes make 52 characters, from which they are read back.
pub record IsBase32 (b : Base32) : Type 0 where
  pub length-encode : (k : List ℕ) → All (λ c. c < 256) k → length k ≡ 32 → length (b.encode k) ≡ 52
  pub decode-encode : (k : List ℕ) → All (λ c. c < 256) k → b.decode (b.encode k) ≡ some k

-- And of JSON: a quoted base32 text is read back, and is not `null`.
pub record IsJson (b : Base32) (j : Json) : Type 0 where
  pub parse-quote :
      (k : List ℕ) → All (λ c. c < 256) k → j.parse (j.quote (b.encode k)) ≡ some (b.encode k)
  pub quote-null : (s : List ℕ) → j.quote s ≢ null

pub drop_all : (n : ℕ) (xs : List ℕ) → length xs ≤ n → drop n xs ≡ []
drop_all zero [] h = refl
drop_all zero (x ∷ xs) h = absurd (omega arith)
drop_all (suc n) [] h = refl
drop_all (suc n) (x ∷ xs) h = drop_all n xs (omega arith)

copy_left_whole : (old k : Key) → length old ≡ length k → length k ≡ key_len → copy_left old k ≡ k
unfolding copy_left
copy_left_whole old k e h =
    rw (take_of_length-le key_len k (omega (arith, h)), drop_all (length k) old (omega (arith, e)))
      (append-nil k)

pub zero_key-IsKey : IsKey zero_key
zero_key-IsKey = record { size = refl; bytes = omega arith }

-- A base32 text of 32 bytes, from an encoding that can be read back, is read as those bytes over
-- any key.
pub unmarshal_b32-marshal_b32 :
    (b : Base32) (old k : Key)
    → IsBase32 b
    → IsKey old
    → IsKey k
    → unmarshal_b32 b old (marshal_b32 b k) ≡ ok k
unfolding unmarshal_b32 marshal_b32
unmarshal_b32-marshal_b32 b old k law ho hk =
    rw (law.length-encode k hk.bytes hk.size, law.decode-encode k hk.bytes)
      (ap ok (copy_left_whole old k (ho.size ∙ sym hk.size) hk.size))

-- The JSON text of a key, the zero key too, is read back as the key, over any key, with codecs that
-- read back what they write.
pub unmarshal_json-marshal_json :
    (b : Base32) (j : Json) (old k : Key)
    → IsBase32 b
    → IsJson b j
    → IsKey old
    → IsKey k
    → unmarshal_json b j old (marshal_json b j k) ≡ ok k
unfolding unmarshal_json marshal_json
unmarshal_json-marshal_json b j old k lb lj ho hk = elim (Bool-cases (key_eq k zero_key)) [
  | inl e ↦ rw e (unfold key_eq in ap ok (sym ((key_eq_iff k zero_key).0 e)))
  | inr e ↦ rw e (
      let text = marshal_b32 b k in
      let plain : key_eq (j.quote text) null ≡ false =
        ground (arith, key_eq_iff (j.quote text) null, lj.quote-null text) in
      let read : j.parse (j.quote text) ≡ some text =
        unfold marshal_b32 in lj.parse-quote k hk.bytes in
      rw (plain, read) (unmarshal_b32-marshal_b32 b old k lb ho hk))
]
