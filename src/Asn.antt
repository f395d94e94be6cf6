-- ===== src/Asn.antt =====
-- dht/asn.go: the trie from IPv4 prefixes to autonomous system numbers. A nil pointer is `absent`;
-- `Insert` changes the nodes on one path from the root, which nothing shares, and is a function to
-- the new trie.
pub mod Labels
pub mod Insert
pub mod Match
use inu.Base.{
  ℕ, zero, suc, ◌+◌, ◌-◌, ◌/◌, ◌%◌, ◌^◌, Bool, true, false, List, Option, none, some, get_elem?,
  ◌==◌, if◌then◌else◌, ℤ, pos, negsuc, int_eq, Run, ok, err, panic, ◌>>=◌,
}

-- `netip.Addr` and `netip.Prefix`; an invalid prefix has -1 bits.
pub data Addr : Type 0 where
  v4 : List ℕ → Addr
  v6 : List ℕ → Addr
  invalid : Addr

pub record Prefix : Type 0 where
  pub addr : Addr
  pub bits : ℤ

pub data Error : Type 0 where
  not_ipv4 : Error

abbrev pub Result {ℓ} : Type ℓ → Type ℓ
Result = Run Error

pub data TrieNode : Type 0 where
  absent : TrieNode
  node : TrieNode → TrieNode → ℤ → TrieNode

-- `new(trieNode)`
abbrev pub new_node : TrieNode
new_node = node absent absent (pos 0)

-- `(buf[i/8] >> (7 - (i % 8))) & 1`, as a test; an index past the array panics.
unfoldable pub bit_at : List ℕ → ℕ → Result Bool
bit_at buf i = elim (get_elem? buf (i / 8)) [
  | none ↦ panic
  | some b ↦ ok (b / 2 ^ (7 - i % 8) % 2 == 1)
]

-- `a.As4()`. `v6` is an IPv6 address that is not IPv4-mapped: an address from a request went through
-- `parseIP`, which lets only IPv4 pass, and `Insert` tests for IPv4.
unfoldable pub as4 : Addr → Result (List ℕ)
as4 (v4 buf) = ok buf
as4 (v6 buf) = panic
as4 invalid = panic

unfoldable pub is4 : Addr → Bool
is4 (v4 buf) = true
is4 (v6 buf) = false
is4 invalid = false

-- The rounds of `for i := 0; i < p.Bits(); i++`.
abbrev pub rounds : ℤ → ℕ
rounds (pos n) = n
rounds (negsuc n) = 0

-- `if x.children[b] == nil { x.children[b] = new(trieNode) }`
abbrev pub or_new : TrieNode → TrieNode
or_new absent = new_node
or_new (node l r asn) = node l r asn

-- The loop of `Insert`, `n` rounds before its end, at the node `x`.
unfoldable pub insert_at : List ℕ → ℤ → ℕ → ℕ → TrieNode → Result TrieNode
unfolding bit_at
insert_at buf asn n i absent = panic
insert_at buf asn zero i (node l r old) = ok (node l r asn)
insert_at buf asn (suc n) i (node l r old) = do
  b ← bit_at buf i
  elim b [
    | false ↦ do l' ← insert_at buf asn n (i + 1) (or_new l); ok (node l' r old)
    | true ↦ do r' ← insert_at buf asn n (i + 1) (or_new r); ok (node l r' old)
  ]

unfoldable pub insert : TrieNode → Prefix → ℤ → Result TrieNode
unfolding is4 as4 insert_at
insert t p asn =
    if is4 p.addr
    then (do buf ← as4 p.addr; insert_at buf asn (rounds p.bits) 0 t)
    else err not_ipv4

-- The loop of `Find`.
unfoldable pub find_at : List ℕ → ℕ → ℕ → TrieNode → Result (ℤ × Bool)
unfolding bit_at
find_at buf n i absent = ok (pos 0, false)
find_at buf zero i (node l r asn) = ok (asn, true)
find_at buf (suc n) i (node l r asn) = do
  b ← bit_at buf i
  elim b [ false ↦ find_at buf n (i + 1) l | true ↦ find_at buf n (i + 1) r ]

unfoldable pub find : TrieNode → Prefix → Result (ℤ × Bool)
unfolding as4 find_at
find t p = do buf ← as4 p.addr; find_at buf (rounds p.bits) 0 t

-- The child that the loop of `Match` goes on with, or its end.
unfoldable pub match_at : List ℕ → ℕ → ℤ × Bool → TrieNode → Result (ℤ × Bool)
unfolding bit_at
match_at buf i best absent = ok best
match_at buf i best (node l r asn) =
    let best' = if int_eq asn (pos 0) then best else (asn, true) in
    bit_at buf i >>= λ b. elim b [
      | false ↦ match_at buf (i + 1) best' l
      | true ↦ match_at buf (i + 1) best' r
    ]

-- `Match`: the root is never nil.
unfoldable pub match : TrieNode → Addr → Result (ℤ × Bool)
unfolding as4 match_at
match t a = do buf ← as4 a; match_at buf 0 (pos 0, false) t
