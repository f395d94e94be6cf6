-- ===== src/Asn/Match.antt =====
-- `Match` of dht/asn.go against the longest-prefix rule.
use inu.Base.{
  ℕ, ◌+◌, ◌≡◌, refl, ap, sym, ◌∙◌, Bool, true, false, List, [], ◌∷◌, length, arith, ℤ, pos, int_eq,
  ok, panic, ◌>>=◌, if◌then◌else◌,
}
use inu.Asn.{TrieNode, absent, node, v4, match_at, match, insert}
use inu.Asn.Labels.{label, has_node, Spells, bits_from, bit_at-panic}
use inu.Asn.Insert.{insert_lem, is_prefix, is_prefix_refl}

-- One step of the rule: a prefix with a number is better than the shorter ones.
abbrev pub better : ℤ → ℤ × Bool → ℤ × Bool
better asn best = if int_eq asn (pos 0) then best else (asn, true)

-- The longest-prefix rule on a labelling of paths: the number of the longest prefix of the path
-- that has one, and else `best`.
unfoldable pub longest : (List Bool → ℤ) → List Bool → ℤ × Bool → ℤ × Bool
longest labels [] best = better (labels []) best
longest labels (b ∷ q) best = longest (λ p. labels (b ∷ p)) q (better (labels []) best)

longest-absent : (q : List Bool) (best : ℤ × Bool) → longest (label absent) q best ≡ best
unfolding longest label
longest-absent [] best = refl
longest-absent (b ∷ q) best = longest-absent q best

match_at_lem :
    (buf : List ℕ) (i : ℕ) (q : List Bool) (best : ℤ × Bool) (t : TrieNode)
    → length buf ≡ 4
    → Spells buf i q
    → i + length q ≡ 32
    → match_at buf i best t ≡ (if has_node t q then panic else ok (longest (label t) q best))
unfolding match_at has_node
match_at_lem buf i [] best absent size s e = ap ok (sym (longest-absent [] best))
match_at_lem buf i (b ∷ q) best absent size s e = ap ok (sym (longest-absent (b ∷ q) best))
match_at_lem buf i [] best (node l r asn) size s e =
    let last : i ≡ 32 = omega arith in rw (last, match_at) (rw (bit_at-panic buf size))
match_at_lem buf i (false ∷ q) best (node l r asn) size s e =
    rw (s.0, match_at)
      (match_at_lem buf (i + 1) q (better asn best) l size s.1 (omega arith)
        ∙ (unfold longest label in refl))
match_at_lem buf i (true ∷ q) best (node l r asn) size s e =
    rw (s.0, match_at)
      (match_at_lem buf (i + 1) q (better asn best) r size s.1 (omega arith)
        ∙ (unfold longest label in refl))

-- `Match` of an IPv4 address with the bits `q`: the longest-prefix rule decides, unless the trie has
-- a node for the whole address; then the loop reads a bit past the address and panics.
pub match-longest :
    (t : TrieNode) (buf : List ℕ)
    → length buf ≡ 4
    → (q : List Bool) × (length q ≡ 32)
      × Spells buf 0 q
      × (match t (v4 buf)
          ≡ (if has_node t q then panic else ok (longest (label t) q (pos 0, false))))
unfolding match
match-longest t buf size =
    let (q, s, e) = bits_from buf 32 0 size (omega arith) in
    (q, e, s, match_at_lem buf 0 q (pos 0, false) t size s (omega arith))

pub Spells-unique :
    (buf : List ℕ) (i : ℕ) (p q : List Bool)
    → Spells buf i p
    → Spells buf i q
    → length p ≡ length q
    → p ≡ q
Spells-unique buf i [] [] s t e = refl
Spells-unique buf i [] (c ∷ q) s t e = absurd (omega arith)
Spells-unique buf i (b ∷ p) [] s t e = absurd (omega arith)
Spells-unique buf i (b ∷ p) (c ∷ q) s t e =
    ground (arith, s.0, t.0, Spells-unique buf (i + 1) p q s.1 t.1 (omega arith))

-- After `Insert` of a prefix of all 32 bits of an address, `Match` of that address panics.
pub match-insert-panic :
    (t : TrieNode) (buf : List ℕ) (asn : ℤ)
    → has_node t [] ≡ true
    → length buf ≡ 4
    → (insert t (record { addr = v4 buf; bits = pos 32 }) asn >>= λ t'. match t' (v4 buf)) ≡ panic
match-insert-panic t buf asn h size =
    let (p, t', e, s, ran, u) = insert_lem t buf 32 asn h size (omega arith) in
    let (q, e', s', m) = match-longest t' buf size in
    let same : p ≡ q = Spells-unique buf 0 p q s s' (e ∙ sym e') in
    rw ran (
      ground (
        arith,
        m,
        u.nodes q,
        ap (λ (z : List Bool). is_prefix z p) same,
        ap (λ (z : List Bool). is_prefix q z) same,
        is_prefix_refl q,
      ))
