-- ===== src/Asn/Labels.antt =====
-- A trie as a labelling of bit paths, and the bits of an address.
use inu.Base.{
  ℕ, zero, suc, ◌+◌, ◌-◌, ◌/◌, ◌%◌, ◌^◌, ◌≤◌, ◌<◌, ◌≡◌, refl, ap, Bool, true, false, List, [], ◌∷◌,
  none, some, length, get_elem?, arith, ℤ, pos, ok, panic, ◌==◌,
}
use inu.Asn.{TrieNode, absent, node, bit_at}

-- The number at the node of a path; 0 where there is no node, or one of no prefix.
unfoldable pub label : TrieNode → List Bool → ℤ
label absent q = pos 0
label (node l r asn) [] = asn
label (node l r asn) (false ∷ q) = label l q
label (node l r asn) (true ∷ q) = label r q

-- Whether the path leads to a node.
unfoldable pub has_node : TrieNode → List Bool → Bool
has_node absent q = false
has_node (node l r asn) [] = true
has_node (node l r asn) (false ∷ q) = has_node l q
has_node (node l r asn) (true ∷ q) = has_node r q

-- The bits of the buffer from `i` on are `q`.
abbrev pub Spells : List ℕ → ℕ → List Bool → Type 0
Spells buf i [] = Unit
Spells buf i (b ∷ q) = (bit_at buf i ≡ ok b) × Spells buf (i + 1) q

get_elem?-some : (xs : List ℕ) (i : ℕ) → i < length xs → (b : ℕ) × (get_elem? xs i ≡ some b)
get_elem?-some [] i h = absurd (omega arith)
get_elem?-some (x ∷ xs) zero h = (x, refl)
get_elem?-some (x ∷ xs) (suc i) h = get_elem?-some xs i (omega arith)

bit_at-ok : (buf : List ℕ) (i : ℕ) → length buf ≡ 4 → i < 32 → (b : Bool) × (bit_at buf i ≡ ok b)
unfolding bit_at
bit_at-ok buf i size h =
    let (b, e) = get_elem?-some buf (i / 8) (omega arith) in
    (b / 2 ^ (7 - i % 8) % 2 == 1, rw (e, bit_at))

get_elem?-none : (xs : List ℕ) (i : ℕ) → length xs ≤ i → get_elem? xs i ≡ none
get_elem?-none [] i h = refl
get_elem?-none (x ∷ xs) zero h = absurd (omega arith)
get_elem?-none (x ∷ xs) (suc i) h = get_elem?-none xs i (omega arith)

-- There is no bit 32.
pub bit_at-panic : (buf : List ℕ) → length buf ≡ 4 → bit_at buf 32 ≡ panic
unfolding bit_at
bit_at-panic buf size = rw (get_elem?-none buf 4 (omega arith), bit_at)

-- An address has its bits.
pub bits_from :
    (buf : List ℕ) (n i : ℕ)
    → length buf ≡ 4
    → i + n ≤ 32
    → (q : List Bool) × Spells buf i q × (length q ≡ n)
bits_from buf zero i size h = ([], tt, refl)
bits_from buf (suc n) i size h =
    let (b, e) = bit_at-ok buf i size (omega arith) in
    let (q, s, l) = bits_from buf n (i + 1) size (omega arith) in (b ∷ q, (e, s), ap suc l)
