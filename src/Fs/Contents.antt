-- ===== src/Fs/Contents.antt =====
-- What `ReadBytes` of fs/fs.go reads from nodes that the store holds.
use mathlib.Core.List.{append_assoc}
use inu.Base.{
  ℕ, zero, suc, ◌≤◌, ◌≡◌, refl, sym, ap, ◌∙◌, List, [], ◌∷◌, ◌++◌, map, length, some, All, All-map,
  ok, err, panic, out_of_fuel, ◌>>=◌, >>=-eq-ok, arith, Option-cases, inl, inr,
}
use inu.Cid.{Bytes, Cid, IsHashing, IsText}
use inu.Store.{Result, IsDb, IsWritable, get, max_block_size}
use inu.Store.Laws.{Extends, Extends-refl}
use inu.Merkle.{Link, Attributes, Node, IsPlain, parse_block, empty, set_data}
use inu.Fs.{Env, num_children, chunk_size, fetch, read_links, read_leaf, read_bytes}

-- What the code relies on: of the hashing, of a database with room, and of JSON, that it reads back
-- what it wrote and that the blocks of chunks and of parents are small enough.
pub record IsEnv {State : Type 0} (env : Env State) : Type 0 where
  pub hashing : IsHashing env.hashing
  pub db : IsDb env.db
  pub writable : IsWritable env.db
  pub unmarshal-marshal :
      (a : Attributes) → IsPlain a → env.nodes.unmarshal (env.nodes.marshal a) ≡ some a
  pub decode_kind-raw : (d : Bytes) → env.inodes.decode_kind (env.inodes.marshal_raw d) ≡ some 0
  pub decode_raw-raw : (d : Bytes) → env.inodes.decode_raw (env.inodes.marshal_raw d) ≡ some d
  pub leaf_fits :
      (d : Bytes)
      → length d ≤ chunk_size
      → length (env.nodes.marshal (set_data (env.inodes.marshal_raw d) empty)) ≤ max_block_size
  pub parent_fits :
      (ls : List Link)
      → length ls ≤ num_children
      → All (λ l. (l.name ≡ []) × (length l.cid ≡ 52)) ls
      → length (env.nodes.marshal (record { links = ls; content = [] })) ≤ max_block_size

abbrev pub value : Result Bytes → Bytes
value (ok d) = d
value (err e) = []
value panic = []
value out_of_fuel = []

module _ {State : Type 0} (env : Env State) where
  abbrev pub content_of : ℕ → State → Node → Bytes
  content_of f s n = value (read_bytes env f s n)

  abbrev pub contents : ℕ → State → List Node → Bytes
  contents f s [] = []
  contents f s (n ∷ ns) = content_of f s n ++ contents f s ns

  -- A node whose block is stored, and which reads with depth `f`.
  pub record Good (f : ℕ) (s : State) (n : Node) : Type 0 where
    pub stored : env.db.select s n.block.cid ≡ some n.block.content
    pub parses : parse_block env.nodes n.block ≡ ok n
    pub text : IsText n.block.cid
    pub length_cid : length n.block.cid ≡ 52
    pub reads : read_bytes env f s n ≡ ok (content_of f s n)

  pub fetch_lem : (f : ℕ) (s : State) (n : Node) → Good f s n → fetch env s n.block.cid ≡ ok n
  unfolding fetch get
  fetch_lem f s n g = rw (fetch, get, g.stored) (g.parses)

  module _ (s s' : State) (x : Extends env.db s s') where
    pub fetch-Extends : (c : Cid) (m : Node) → fetch env s c ≡ ok m → fetch env s' c ≡ ok m
    unfolding fetch get
    fetch-Extends c m e = elim (Option-cases (env.db.select s c)) [
      | inl n ↦ absurd (ground (arith, n, e))
      | inr (b, h) ↦ ground (arith, h, x.keeps c b h, e)
    ]

    read_links-Extends :
        (read read' : Node → Result Bytes)
        → ((m : Node) (d : Bytes) → read m ≡ ok d → read' m ≡ ok d)
        → (ls : List Link) (d : Bytes) → read_links env read s ls ≡ ok d
        → read_links env read' s' ls ≡ ok d
    unfolding read_links
    read_links-Extends read read' keep [] d e = e
    read_links-Extends read read' keep (l ∷ ls) d e =
        let (m, hm, e') =
          >>=-eq-ok (fetch env s l.cid)
            (λ m. read m >>= λ chunk. read_links env read s ls >>= λ rest. ok (chunk ++ rest)) e in
        let (chunk, hc, e'') =
          >>=-eq-ok (read m) (λ chunk. read_links env read s ls >>= λ rest. ok (chunk ++ rest))
            e' in
        let (rest, hr, e3) =
          >>=-eq-ok (read_links env read s ls) (λ rest. ok (chunk ++ rest)) e'' in
        rw
          (fetch-Extends l.cid m hm, keep m chunk hc, read_links-Extends read read' keep ls rest hr)
          e3

    pub read_bytes-Extends :
        (f : ℕ) (n : Node) (d : Bytes) → read_bytes env f s n ≡ ok d → read_bytes env f s' n ≡ ok d
    unfolding read_bytes
    read_bytes-Extends zero n d e = cc
    read_bytes-Extends (suc f) n d e = go (read_bytes-Extends f) n.attr.links e
      where
        go :
            ((m : Node) (c : Bytes) → read_bytes env f s m ≡ ok c → read_bytes env f s' m ≡ ok c)
            → (ls : List Link)
            → Path
                (Result Bytes)
                (elim ls [
                  | [] ↦ read_leaf env n.attr.content
                  | l ∷ ls' ↦ read_links env (read_bytes env f s) s (l ∷ ls')
                ])
                (ok d)
            → Path
                (Result Bytes)
                (elim ls [
                  | [] ↦ read_leaf env n.attr.content
                  | l ∷ ls' ↦ read_links env (read_bytes env f s') s' (l ∷ ls')
                ])
                (ok d)
        go keep [] h = h
        go keep (l ∷ ls) h =
            read_links-Extends (read_bytes env f s) (read_bytes env f s') keep (l ∷ ls) d h

    pub Good-Extends : (f : ℕ) (n : Node) → Good f s n → Good f s' n
    Good-Extends f n g =
        let e = read_bytes-Extends f n (content_of f s n) g.reads in
        record {
          stored = x.keeps n.block.cid n.block.content g.stored;
          parses = g.parses;
          text = g.text;
          length_cid = g.length_cid;
          reads = e ∙ ap ok (sym (ap value e));
        }

    pub All-Good-Extends : (f : ℕ) (ns : List Node) → All (Good f s) ns → All (Good f s') ns
    All-Good-Extends f ns g = All-map (Good f s) (Good f s') (λ n h. Good-Extends f n h) ns g

    pub content_of-Extends : (f : ℕ) (n : Node) → Good f s n → content_of f s' n ≡ content_of f s n
    content_of-Extends f n g = ap value (read_bytes-Extends f n (content_of f s n) g.reads)

    pub contents-Extends :
        (f : ℕ) (ns : List Node) → All (Good f s) ns → contents f s' ns ≡ contents f s ns
    contents-Extends f [] g = refl
    contents-Extends f (n ∷ ns) g = rw (content_of-Extends f n g.0, contents-Extends f ns g.1) refl

  pub contents-append :
      (f : ℕ) (s : State) (ns ms : List Node)
      → contents f s (ns ++ ms) ≡ contents f s ns ++ contents f s ms
  contents-append f s [] ms = refl
  contents-append f s (n ∷ ns) ms =
      rw (contents-append f s ns ms)
        (sym (append_assoc (content_of f s n) (contents f s ns) (contents f s ms)))

  abbrev pub link_of : Node → Link
  link_of n = record { name = []; cid = n.block.cid }

  -- The links to readable nodes read as their contents, one after the other.
  pub read_links_lem :
      (f : ℕ) (s : State) (ns : List Node)
      → All (Good f s) ns
      → read_links env (read_bytes env f s) s (map link_of ns) ≡ ok (contents f s ns)
  unfolding read_links
  read_links_lem f s [] g = refl
  read_links_lem f s (n ∷ ns) g =
      rw (fetch_lem f s n g.0, g.0.reads, read_links_lem f s ns g.1) refl

  read_links_mono :
      (s : State) (read read' : Node → Result Bytes)
      → ((m : Node) (d : Bytes) → read m ≡ ok d → read' m ≡ ok d)
      → (ls : List Link) (d : Bytes) → read_links env read s ls ≡ ok d
      → read_links env read' s ls ≡ ok d
  read_links_mono s = read_links-Extends s s (Extends-refl env.db s)

  -- A larger depth reads the same.
  pub read_bytes_mono :
      (f g : ℕ) (s : State) (n : Node) (d : Bytes)
      → f ≤ g
      → read_bytes env f s n ≡ ok d
      → read_bytes env g s n ≡ ok d
  unfolding read_bytes
  read_bytes_mono zero g s n d h e = cc
  read_bytes_mono (suc f) zero s n d h e = absurd (omega arith)
  read_bytes_mono (suc f) (suc g) s n d h e =
      go (λ m c. read_bytes_mono f g s m c (omega arith)) n.attr.links e
    where
      go :
          ((m : Node) (c : Bytes) → read_bytes env f s m ≡ ok c → read_bytes env g s m ≡ ok c)
          → (ls : List Link)
          → Path
              (Result Bytes)
              (elim ls [
                | [] ↦ read_leaf env n.attr.content
                | l ∷ ls' ↦ read_links env (read_bytes env f s) s (l ∷ ls')
              ])
              (ok d)
          → Path
              (Result Bytes)
              (elim ls [
                | [] ↦ read_leaf env n.attr.content
                | l ∷ ls' ↦ read_links env (read_bytes env g s) s (l ∷ ls')
              ])
              (ok d)
      go keep [] u = u
      go keep (l ∷ ls) u =
          read_links_mono s (read_bytes env f s) (read_bytes env g s) keep (l ∷ ls) d u
