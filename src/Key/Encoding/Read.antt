-- ===== src/Key/Encoding/Read.antt =====
-- `UnmarshalJSON` and `UnmarshalB32` of dht/key.go: which texts are read over a key, and as what.
use mathlib.Core.List.{append-nil}
use inu.Base.{
  ℕ, zero, suc, ◌≤◌, ◌<◌, ◌≡◌, ◌≢◌, ◌⊎◌, err, refl, ap, sym, ◌∙◌, List, [], ◌∷◌, ◌++◌, some, All,
  length, take, drop, take_of_length-le, length-append, length-take, length-drop, All-append,
  Option-cases, ◌==◌, arith, leb, ok, Bool-cases, inl, inr,
}
use inu.Key.{Key, IsKey, key_len, zero_key, key_eq}
use inu.Key.Number.{key_eq_iff}
use inu.Key.Encoding.{
  Error, invalid_length, bad_base32, bad_json, Base32, Json, null, copy_left, unmarshal_b32,
  unmarshal_json, zero_key-IsKey, drop_all,
}

-- What is decoded are bytes.
pub record DecodesBytes (b : Base32) : Type 0 where
  pub decode-bytes : (s buf : List ℕ) → b.decode s ≡ some buf → All (λ c. c < 256) buf

All-take : (P : ℕ → Type 0) (n : ℕ) (xs : List ℕ) → All P xs → All P (take n xs)
All-take P zero xs h = tt
All-take P (suc n) [] h = tt
All-take P (suc n) (x ∷ xs) h = (h.0, All-take P n xs h.1)

All-drop : (P : ℕ → Type 0) (n : ℕ) (xs : List ℕ) → All P xs → All P (drop n xs)
All-drop P zero xs h = h
All-drop P (suc n) [] h = tt
All-drop P (suc n) (x ∷ xs) h = All-drop P n xs h.1

copy_left-IsKey :
    (old : Key) (buf : List ℕ) → IsKey old → All (λ c. c < 256) buf → IsKey (copy_left old buf)
unfolding copy_left
copy_left-IsKey old buf ho hb = record {
  size = omega (
    arith,
    length-append (take key_len buf) (drop (length buf) old),
    length-take key_len buf,
    length-drop (length buf) old,
    ho.size,
  );
  bytes =
      All-append (λ c. c < 256) (take key_len buf) (drop (length buf) old)
        (All-take (λ c. c < 256) key_len buf hb)
        (All-drop (λ c. c < 256) (length buf) old ho.bytes);
}

take-length : (xs ys : List ℕ) → take (length xs) (xs ++ ys) ≡ xs
take-length [] ys = refl
take-length (x ∷ xs) ys = ap (◌∷◌ x) (take-length xs ys)

drop-length : (xs ys : List ℕ) → drop (length xs) (xs ++ ys) ≡ ys
drop-length [] ys = refl
drop-length (x ∷ xs) ys = drop-length xs ys

-- The key begins with the bytes, of which at most 32 are read, and goes on with the old key.
pub record Overlay (old k : Key) (buf : List ℕ) : Type 0 where
  pub front : take (length buf) k ≡ take key_len buf
  pub back : drop (length buf) k ≡ drop (length buf) old

copy_left-Overlay :
    (old : Key) (buf : List ℕ) → length old ≡ key_len → Overlay old (copy_left old buf) buf
unfolding copy_left
copy_left-Overlay old buf h = elim (Bool-cases (leb (length buf) key_len)) [
  | inl few ↦
      let whole : take key_len buf ≡ buf = take_of_length-le key_len buf (ground (arith, few)) in
      rw (whole) (record {
        front = take-length buf (drop (length buf) old) ∙ sym whole;
        back = drop-length buf (drop (length buf) old);
      })
  | inr many ↦
      let long : key_len < length buf = ground (arith, many) in
      let gone : drop (length buf) old ≡ [] = drop_all (length buf) old (omega (arith, h, long)) in
      let size : length (take key_len buf) ≤ length buf =
        omega (arith, length-take key_len buf, long) in
      rw (gone, append-nil (take key_len buf))
        (record {
          front = take_of_length-le (length buf) (take key_len buf) size;
          back = drop_all (length buf) (take key_len buf) size ∙ sym gone;
        })
]

-- What makes a text the text of a key, over an old one.
pub data IsText (b : Base32) (j : Json) (old k : Key) (text : List ℕ) : Type 0 where
  empty : text ≡ null → k ≡ zero_key → IsText b j old k text
  encoded :
      (s buf : List ℕ)
      → text ≢ null
      → j.parse text ≡ some s
      → length s ≡ 52
      → b.decode s ≡ some buf
      → Overlay old k buf
      → IsText b j old k text

refuted :
    {b : Base32} {j : Json} {old : Key} {text : List ℕ}
    → text ≢ null
    → ((s buf : List ℕ) → j.parse text ≡ some s → length s ≡ 52 → b.decode s ≡ some buf → ⊥)
    → (k : Key) → ¬ IsText b j old k text
refuted other none_such k (empty p q) = other p
refuted other none_such k (encoded s buf o p l d v) = none_such s buf p l d

-- `UnmarshalJSON` over a key, whatever the text, with a base32 that decodes to bytes. It reads `null` as
-- the zero key, and the JSON of a base32 text of 52 characters as the bytes that it stands for, in front
-- of what they leave of the old key, also where these are fewer or more than 32; what it reads is a key: 32
-- bytes, each below 256. Every other text is an error.
pub unmarshal_json-IsText :
    (b : Base32) (j : Json) (old : Key) (text : List ℕ)
    → DecodesBytes b
    → IsKey old
    → ((k : Key) × (unmarshal_json b j old text ≡ ok k) × IsText b j old k text × IsKey k)
      ⊎ ((e : Error) × (unmarshal_json b j old text ≡ err e)
          × ((k : Key) → ¬ IsText b j old k text))
unfolding unmarshal_json unmarshal_b32
unmarshal_json-IsText b j old text law ho = elim (Bool-cases (key_eq text null)) [
  | inl nothing ↦
      inl
        (zero_key, rw (nothing) refl, empty ((key_eq_iff text null).0 nothing) refl, zero_key-IsKey)
  | inr some_text ↦
      let other : text ≢ null = ground (arith, some_text, key_eq_iff text null) in
      elim (Option-cases (j.parse text)) [
        | inl bad ↦ inr (
          bad_json,
          rw (some_text, bad) refl,
          refuted other λ s buf p l d. ground (arith, bad, p),
        )
        | inr (s, read) ↦ elim (Bool-cases (length s == 52)) [
          | inr short ↦ inr (
            invalid_length,
            rw (some_text, read, short) refl,
            refuted other
                λ t buf p l d. ground (arith, read, p, short, ap length (same s t read p), l),
          )
          | inl long ↦ elim (Option-cases (b.decode s)) [
            | inl bad ↦ inr (
              bad_base32,
              rw (some_text, read, long, bad) refl,
              refuted other λ t buf p l d. ground (arith, bad, d, ap b.decode (same s t read p)),
            )
            | inr (buf, decoded) ↦ inl (
              copy_left old buf,
              rw (some_text, read, long, decoded) refl,
              encoded s buf other read (ground (arith, long)) decoded
                  (copy_left-Overlay old buf ho.size),
              copy_left-IsKey old buf ho (law.decode-bytes s buf decoded),
            )
          ]
        ]
      ]
]
  where
    same : (s t : List ℕ) → j.parse text ≡ some s → j.parse text ≡ some t → s ≡ t
    same s t p q = ground (arith, p, q)
