-- ===== src/Cmd/Keys/Printed.antt =====
-- The keys that `key uint` prints, read by the commands again.
use inu.Base.{ℕ, ◌<◌, ◌^◌, ◌≡◌, refl, ap, ◌∙◌, [], ◌∷◌, length, some, ok, ◌>>=◌, arith}
use inu.Key.{Key, set_bytes}
use inu.Key.BigInt.{parse_uint64_lem}
use inu.Key.Encoding.{
  Base32, IsBase32, marshal_b32, parse_cid, unmarshal_b32-marshal_b32, zero_key-IsKey,
}
use inu.Http.{Text}
use inu.Config.{NodeConfig, decimal, parse_uint}
use inu.Config.Decimal.{parse_uint-decimal}
use inu.Cmd.{override, set_node_id}
use inu.Cmd.Keys.{key_uint, or_panic}

-- `key uint` of the decimal text of a number of 64 bits prints a text that, as the variable of the
-- node's id, sets the id to the key of that number, with a base32 that reads back what it writes.
pub set_node_id-key_uint :
    (b : Base32) (n : ℕ) (c : NodeConfig)
    → IsBase32 b
    → n < 2 ^ 64
    → (text : Text) × (k : Key) × (key_uint b (decimal n) ≡ ok text)
      × (override text (set_node_id b) c ≡ ok (record c { id = k }))
      × (set_bytes k ≡ n)
unfolding key_uint
set_node_id-key_uint b n c law h =
    let (k, made, is_key, value) = parse_uint64_lem n h in
    let text = marshal_b32 b k in
    let read : parse_uint (2 ^ 64) (decimal n) ≡ some n =
      parse_uint-decimal (2 ^ 64) n ∙ ground (arith, h) in
    let size : length text ≡ 52 =
      unfold marshal_b32 in law.length-encode k is_key.bytes is_key.size in
    let back = unmarshal_b32-marshal_b32 b _ k law zero_key-IsKey is_key in
    (
      text,
      k,
      rw (read) (ap (λ o. or_panic o >>= λ k'. ok (marshal_b32 b k')) made),
      go k text size back,
      value,
    )
  where
    go :
        (k : Key) (text : Text)
        → length text ≡ 52
        → parse_cid b text ≡ ok k
        → override text (set_node_id b) c ≡ ok (record c { id = k })
    go k [] size e = absurd (omega (arith, size))
    go k (x ∷ text) size e = rw (e) refl
