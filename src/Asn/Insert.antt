-- ===== src/Asn/Insert.antt =====
-- `Insert` of dht/asn.go, and `Find`.
use inu.Base.{
  ℕ, ◌+◌, ◌≤◌, ◌≡◌, refl, ap, sym, ◌∙◌, ◌>>=◌, Bool, true, false, ◌||◌, List, [], ◌∷◌, length,
  arith, ℤ, pos, ok, if◌then◌else◌,
}
use inu.Asn.{TrieNode, absent, node, or_new, v4, insert_at, insert, find_at, find}
use inu.Asn.Labels.{label, has_node, Spells, bits_from}

-- Equality of paths, and the order of being a prefix.
unfoldable pub path_eq : List Bool → List Bool → Bool
path_eq [] [] = true
path_eq [] (c ∷ q) = false
path_eq (b ∷ p) [] = false
path_eq (false ∷ p) (false ∷ q) = path_eq p q
path_eq (false ∷ p) (true ∷ q) = false
path_eq (true ∷ p) (false ∷ q) = false
path_eq (true ∷ p) (true ∷ q) = path_eq p q

unfoldable pub is_prefix : List Bool → List Bool → Bool
is_prefix [] q = true
is_prefix (b ∷ p) [] = false
is_prefix (false ∷ p) (false ∷ q) = is_prefix p q
is_prefix (false ∷ p) (true ∷ q) = false
is_prefix (true ∷ p) (false ∷ q) = false
is_prefix (true ∷ p) (true ∷ q) = is_prefix p q

-- What an insertion at the path `p` leaves: its number there, nothing changed elsewhere, and nodes
-- on the way.
pub record Inserted (p : List Bool) (asn : ℤ) (t t' : TrieNode) : Type 0 where
  pub labels : (q : List Bool) → label t' q ≡ (if path_eq p q then asn else label t q)
  pub nodes : (q : List Bool) → has_node t' q ≡ (is_prefix q p || has_node t q)
  pub root : has_node t' [] ≡ true

path_eq_refl : (p : List Bool) → path_eq p p ≡ true
unfolding path_eq
path_eq_refl [] = refl
path_eq_refl (false ∷ p) = path_eq_refl p
path_eq_refl (true ∷ p) = path_eq_refl p

pub is_prefix_refl : (p : List Bool) → is_prefix p p ≡ true
unfolding is_prefix
is_prefix_refl [] = refl
is_prefix_refl (false ∷ p) = is_prefix_refl p
is_prefix_refl (true ∷ p) = is_prefix_refl p

label-or_new : (t : TrieNode) (q : List Bool) → label (or_new t) q ≡ label t q
unfolding label
label-or_new absent [] = refl
label-or_new absent (false ∷ q) = refl
label-or_new absent (true ∷ q) = refl
label-or_new (node l r a) q = refl

has_node-or_new :
    (t : TrieNode) (q : List Bool) → has_node (or_new t) q ≡ (is_prefix q [] || has_node t q)
unfolding has_node is_prefix
has_node-or_new absent [] = refl
has_node-or_new absent (false ∷ q) = refl
has_node-or_new absent (true ∷ q) = refl
has_node-or_new (node l r a) [] = refl
has_node-or_new (node l r a) (b ∷ q) = refl

is_prefix-nil : (q p : List Bool) → is_prefix q [] ≡ true → is_prefix q p ≡ true
unfolding is_prefix
is_prefix-nil [] p h = refl
is_prefix-nil (b ∷ q) p h = cc

module _ (l r : TrieNode) (old asn : ℤ) where
  labels_here :
      (q : List Bool)
      → label (node l r asn) q ≡ (if path_eq [] q then asn else label (node l r old) q)
  unfolding label path_eq
  labels_here [] = refl
  labels_here (false ∷ q) = refl
  labels_here (true ∷ q) = refl

  nodes_here :
      (q : List Bool) → has_node (node l r asn) q ≡ (is_prefix q [] || has_node (node l r old) q)
  unfolding has_node is_prefix
  nodes_here [] = refl
  nodes_here (false ∷ q) = refl
  nodes_here (true ∷ q) = refl

  module _ (p : List Bool) (t' : TrieNode) where
    Inserted-left :
        Inserted p asn (or_new l) t' → Inserted (false ∷ p) asn (node l r old) (node t' r old)
    unfolding has_node
    Inserted-left h = record { labels = labels; nodes = nodes; root = refl }
      where
        labels :
            (q : List Bool)
            → label (node t' r old) q
              ≡ (if path_eq (false ∷ p) q then asn else label (node l r old) q)
        labels [] = unfold label path_eq in refl
        labels (false ∷ q) = unfold label path_eq in ground (arith, h.labels q, label-or_new l q)
        labels (true ∷ q) = unfold label path_eq in refl

        nodes :
            (q : List Bool)
            → has_node (node t' r old) q ≡ (is_prefix q (false ∷ p) || has_node (node l r old) q)
        nodes [] = unfold is_prefix in refl
        nodes (false ∷ q) =
            unfold is_prefix in ground (arith, h.nodes q, has_node-or_new l q, is_prefix-nil q p)
        nodes (true ∷ q) = unfold is_prefix in refl

    Inserted-right :
        Inserted p asn (or_new r) t' → Inserted (true ∷ p) asn (node l r old) (node l t' old)
    unfolding has_node
    Inserted-right h = record { labels = labels; nodes = nodes; root = refl }
      where
        labels :
            (q : List Bool)
            → label (node l t' old) q
              ≡ (if path_eq (true ∷ p) q then asn else label (node l r old) q)
        labels [] = unfold label path_eq in refl
        labels (false ∷ q) = unfold label path_eq in refl
        labels (true ∷ q) = unfold label path_eq in ground (arith, h.labels q, label-or_new r q)

        nodes :
            (q : List Bool)
            → has_node (node l t' old) q ≡ (is_prefix q (true ∷ p) || has_node (node l r old) q)
        nodes [] = unfold is_prefix in refl
        nodes (false ∷ q) = unfold is_prefix in refl
        nodes (true ∷ q) =
            unfold is_prefix in ground (arith, h.nodes q, has_node-or_new r q, is_prefix-nil q p)

insert_at_lem :
    (buf : List ℕ) (asn : ℤ) (i : ℕ) (p : List Bool) (t : TrieNode)
    → Spells buf i p
    → has_node t [] ≡ true
    → (t' : TrieNode) × (insert_at buf asn (length p) i t ≡ ok t') × Inserted p asn t t'
unfolding insert_at has_node
insert_at_lem buf asn i p absent s h = cc
insert_at_lem buf asn i [] (node l r old) s h = (
  node l r asn,
  refl,
  record { labels = labels_here l r old asn; nodes = nodes_here l r old asn; root = refl },
)
insert_at_lem buf asn i (false ∷ p) (node l r old) s h =
    let (t', e, u) =
      insert_at_lem buf asn (i + 1) p (or_new l) s.1
        (has_node-or_new l [] ∙ (unfold is_prefix in refl)) in
    (node t' r old, rw (s.0, insert_at) (ground (arith, e)), Inserted-left l r old asn p t' u)
insert_at_lem buf asn i (true ∷ p) (node l r old) s h =
    let (t', e, u) =
      insert_at_lem buf asn (i + 1) p (or_new r) s.1
        (has_node-or_new r [] ∙ (unfold is_prefix in refl)) in
    (node l t' old, rw (s.0, insert_at) (ground (arith, e)), Inserted-right l r old asn p t' u)

-- `Insert` of an IPv4 prefix of at most 32 bits into a trie with a root: it returns with no error,
-- the number of the prefix's path is the given one, the number of every other path is what it was,
-- and the nodes are the old ones and those on the path.
pub insert_lem :
    (t : TrieNode) (buf : List ℕ) (n : ℕ) (asn : ℤ)
    → has_node t [] ≡ true
    → length buf ≡ 4
    → n ≤ 32
    → (p : List Bool) × (t' : TrieNode) × (length p ≡ n)
      × Spells buf 0 p
      × (insert t (record { addr = v4 buf; bits = pos n }) asn ≡ ok t')
      × Inserted p asn t t'
unfolding insert
insert_lem t buf n asn h size small =
    let (p, s, e) = bits_from buf n 0 size (omega arith) in
    let (t', ran, u) = insert_at_lem buf asn 0 p t s h in (p, t', e, s, rw (← e) ran, u)

find_at_lem :
    (buf : List ℕ) (i : ℕ) (p : List Bool) (t : TrieNode)
    → Spells buf i p
    → find_at buf (length p) i t ≡ ok (if has_node t p then (label t p, true) else (pos 0, false))
unfolding find_at label has_node
find_at_lem buf i [] absent s = refl
find_at_lem buf i (b ∷ p) absent s = refl
find_at_lem buf i [] (node l r asn) s = refl
find_at_lem buf i (false ∷ p) (node l r asn) s = rw (s.0, find_at) (find_at_lem buf (i + 1) p l s.1)
find_at_lem buf i (true ∷ p) (node l r asn) s = rw (s.0, find_at) (find_at_lem buf (i + 1) p r s.1)

-- `Find` after `Insert` of the same IPv4 prefix returns the number that was inserted.
pub find-insert :
    (t : TrieNode) (buf : List ℕ) (n : ℕ) (asn : ℤ)
    → has_node t [] ≡ true
    → length buf ≡ 4
    → n ≤ 32
    → (insert t (record { addr = v4 buf; bits = pos n }) asn >>= λ t'.
        find t' (record { addr = v4 buf; bits = pos n }))
      ≡ ok (asn, true)
unfolding find
find-insert t buf n asn h size small =
    let (p, t', e, s, ran, u) = insert_lem t buf n asn h size small in
    rw ran (
      ap (λ (m : ℕ). find_at buf m 0 t') (sym e)
      ∙ find_at_lem buf 0 p t' s
      ∙ ground (arith, u.labels p, u.nodes p, path_eq_refl p, is_prefix_refl p))
