-- ===== src/Fs/Nodes.antt =====
-- One node that fs/fs.go adds: of a chunk, and over a group of nodes.
use mathlib.Core.List.{append-nil, append_assoc}
use inu.Base.{
  ℕ, suc, ◌≤◌, ◌<◌, ◌≡◌, refl, sym, ap, ◌∙◌, List, [], ◌∷◌, ◌++◌, map, length, All, All-map, ok,
  ◌>>=◌, arith,
}
use inu.Cid.{Bytes, Cid, IsText}
use inu.Store.{Result, put, new_block, max_block_size}
use inu.Store.Laws.{IsValid, Extends, Cid-new_ok}
use inu.Store.Guard.{guarded, Outcome, Outcome-bind, Outcome-map, Outcome-ok, put_block}
use inu.Merkle.{Attributes, Node, IsPlain, parse_block, empty, set_data, add_link, build}
use inu.Fs.{
  Env, num_children, chunk_size, unmarshal_inode, read_leaf, read_bytes, add_leaf, link_all,
  add_parent,
}
use inu.Fs.Contents.{
  IsEnv, value, content_of, contents, Good, All-Good-Extends, contents-Extends, link_of,
  read_links_lem,
}

-- The same, over the database that does not replace a block by another content.
abbrev pub guarded_env : {State : Type 0} → Env State → Env State
guarded_env env = record env { db = guarded env.db }

module _ {State : Type 0} (env : Env State) (law : IsEnv env) where
  -- A node that was added, and reads as `d`.
  pub record Adds (f : ℕ) (s : State) (d : Bytes) (n : Node) (s' : State) : Type 0 where
    pub valid : IsValid env.hashing env.db s'
    pub extends : Extends env.db s s'
    pub good : Good env f s' n
    pub content : content_of env f s' n ≡ d

  abbrev pub node_of : Attributes → Node
  node_of a = record {
    attr = a;
    block = record {
      cid = env.hashing.base32.encode (env.hashing.sha256 (env.nodes.marshal a));
      content = env.nodes.marshal a;
    };
  }

  build_lem :
      (a : Attributes)
      → length (env.nodes.marshal a) ≤ max_block_size
      → build env.hashing env.nodes a ≡ ok (node_of a)
  unfolding build new_block
  build_lem a h = rw (Cid-new_ok env.hashing (env.nodes.marshal a) law.hashing) (ground (arith, h))

  pub parse_lem :
      (a : Attributes) → IsPlain a → parse_block env.nodes (node_of a).block ≡ ok (node_of a)
  unfolding parse_block
  parse_lem a p = rw (parse_block, law.unmarshal-marshal a p)

  pub cid_of-IsText : (a : Attributes) → IsText (node_of a).block.cid
  cid_of-IsText a =
      law.hashing.encode-IsText (env.hashing.sha256 (env.nodes.marshal a))
        (law.hashing.sha256-bytes (env.nodes.marshal a))
        (law.hashing.length-sha256 (env.nodes.marshal a))

  -- The node of some attributes is stored, and is good if it reads in every extension of the store.
  store_lem :
      (f : ℕ) (s : State) (a : Attributes) (d : Bytes)
      → IsValid env.hashing env.db s
      → IsPlain a
      → ((s' : State) → Extends env.db s s' → read_bytes env f s' (node_of a) ≡ ok d)
      → Outcome
          (put (guarded env.db) s (node_of a).block)
          (put env.db s (node_of a).block)
          (Adds f s d (node_of a))
  store_lem f s a d v p reads =
      Outcome-map _ _ _ (Adds f s d (node_of a))
        (put_block env.hashing env.db law.db law.writable s (node_of a).block v
          (Cid-new_ok env.hashing (env.nodes.marshal a) law.hashing))
        λ s' u.
          let e = reads s' u.extends in
          record {
            valid = u.valid;
            extends = u.extends;
            good = record {
              stored = u.stored;
              parses = parse_lem a p;
              text = cid_of-IsText a;
              length_cid =
                  law.hashing.length-encode (env.hashing.sha256 (env.nodes.marshal a))
                    (law.hashing.sha256-bytes (env.nodes.marshal a))
                    (law.hashing.length-sha256 (env.nodes.marshal a));
              reads = e ∙ ap ok (sym (ap value e));
            };
            content = ap value e;
          }

  -- A node is built, and its block is put.
  unfoldable add_node : Env State → State → Attributes → Result (Node × State)
  unfolding build put
  add_node e s a = do n ← build e.hashing e.nodes a; s' ← put e.db s n.block; ok (n, s')

  add_node_lem :
      (f : ℕ) (s : State) (a : Attributes) (d : Bytes)
      → IsValid env.hashing env.db s
      → IsPlain a
      → length (env.nodes.marshal a) ≤ max_block_size
      → ((s' : State) → Extends env.db s s' → read_bytes env f s' (node_of a) ≡ ok d)
      → Outcome (add_node (guarded_env env) s a) (add_node env s a) (λ r. Adds f s d r.0 r.1)
  unfolding add_node
  add_node_lem f s a d v p fits reads = rw (build_lem a fits) (
      Outcome-bind (put (guarded env.db) s (node_of a).block) (put env.db s (node_of a).block)
        (Adds f s d (node_of a)) (λ s'. ok (node_of a, s')) (λ s'. ok (node_of a, s'))
        (λ r. Adds f s d r.0 r.1) (store_lem f s a d v p reads)
        (λ s' x. Outcome-ok (node_of a, s') (λ r. Adds f s d r.0 r.1) x))

  abbrev leaf : Bytes → Attributes
  leaf d = set_data (env.inodes.marshal_raw d) empty

  read_leaf_lem : (d : Bytes) → read_leaf env (env.inodes.marshal_raw d) ≡ ok d
  unfolding read_leaf unmarshal_inode
  read_leaf_lem d =
      rw (read_leaf, unmarshal_inode, law.decode_kind-raw d, law.decode_raw-raw d) refl

  -- A chunk that is not too large is stored as a node that reads as the chunk.
  pub add_leaf_lem :
      (s : State) (d : Bytes)
      → IsValid env.hashing env.db s
      → length d ≤ chunk_size
      → Outcome (add_leaf (guarded_env env) s d) (add_leaf env s d) (λ r. Adds 1 s d r.0 r.1)
  unfolding add_leaf add_node
  add_leaf_lem s d v small =
      add_node_lem 1 s (leaf d) d v tt (law.leaf_fits d small)
        (λ s' x. unfold read_bytes in read_leaf_lem d)

  append_links :
      (ns : List Node) (a : Attributes)
      → link_all ns a ≡ record a { links = a.links ++ map (link_of env) ns }
  append_links [] a = ap (λ ls. record a { links = ls }) (sym (append-nil a.links))
  append_links (n ∷ ns) a =
      append_links ns (add_link [] n a)
      ∙ ap (λ ls. record a { links = ls })
          (append_assoc a.links (link_of env n ∷ []) (map (link_of env) ns))

  abbrev parent : List Node → Attributes
  parent ns = record { links = map (link_of env) ns; content = [] }

  pub plain : (c : Cid) → IsText c → All (λ b. b < 128) c
  plain c h = All-map (λ b. (50 ≤ b) × (b ≤ 90)) (λ b. b < 128) (λ b g. omega (arith, g)) c h

  parent-IsPlain :
      (f : ℕ) (s : State) (ns : List Node) → All (Good env f s) ns → IsPlain (parent ns)
  parent-IsPlain f s [] g = tt
  parent-IsPlain f s (n ∷ ns) g = ((tt, plain n.block.cid g.0.text), parent-IsPlain f s ns g.1)

  parent_small :
      (f : ℕ) (s : State) (ns : List Node)
      → All (Good env f s) ns
      → All (λ l. (l.name ≡ []) × (length l.cid ≡ 52)) (map (link_of env) ns)
  parent_small f s [] g = tt
  parent_small f s (n ∷ ns) g = ((refl, g.0.length_cid), parent_small f s ns g.1)

  length-links : (ns : List Node) → length (map (link_of env) ns) ≡ length ns
  length-links [] = refl
  length-links (n ∷ ns) = ap suc (length-links ns)

  read_parent :
      (f : ℕ) (s : State) (ns : List Node)
      → 0 < length ns
      → All (Good env f s) ns
      → read_bytes env (suc f) s (node_of (parent ns)) ≡ ok (contents env f s ns)
  unfolding read_bytes
  read_parent f s [] h g = absurd (omega arith)
  read_parent f s (n ∷ ns) h g = read_links_lem env f s (n ∷ ns) g

  -- A node over a group of at most 15 readable nodes is stored, and reads as their contents.
  pub add_parent_lem :
      (f : ℕ) (s : State) (ns : List Node)
      → IsValid env.hashing env.db s
      → All (Good env f s) ns
      → 0 < length ns
      → length ns ≤ num_children
      → Outcome
          (add_parent (guarded_env env) s ns)
          (add_parent env s ns)
          (λ r. Adds (suc f) s (contents env f s ns) r.0 r.1)
  unfolding add_parent add_node
  add_parent_lem f s ns v g nonempty few =
      let fits =
        law.parent_fits (map (link_of env) ns) (omega (arith, length-links ns))
          (parent_small f s ns g) in
      rw (append_links ns empty) (
        add_node_lem (suc f) s (parent ns) (contents env f s ns) v (parent-IsPlain f s ns g) fits
          (λ s' x.
            read_parent f s' ns nonempty (All-Good-Extends env s s' x f ns g)
            ∙ ap ok (contents-Extends env s s' x f ns g)))
