-- ===== src/Fs.antt =====
-- fs/: the tree of nodes that holds the bytes of a file. The store is passed on from call to call;
-- what it holds after an error is left open.
pub mod Chunks
pub mod Contents
pub mod Nodes
pub mod Added
pub mod Dag
pub mod Resolve
pub mod Folders
pub mod Paths
use inu.Base.{
  ℕ, zero, suc, ◌+◌, ◌*◌, Bool, true, false, List, [], ◌∷◌, ◌++◌, length, take, drop, ltb, ◌==◌,
  if◌then◌else◌, Option, none, some, Run, ok, err, out_of_fuel, ◌>>=◌,
}
use inu.Key.{key_eq}
use inu.Cid.{Bytes, Cid, Hashing}
use inu.Store.{Error, Result, Db, get, put, bad_inode, is_directory, invalid_path, read_failed}
use inu.Merkle.{Link, Attributes, Node, NodeJson, parse_block, empty, set_data, add_link, build}

abbrev pub num_children : ℕ
num_children = 15

abbrev pub chunk_size : ℕ
chunk_size = 256 * 1024

module _ {ℓ} {A : Type ℓ} where
  -- The loop of `chunks`, which cuts `size` entries off the front; a size of 0 never ends.
  unfoldable pub chunks_rounds : ℕ → List A → ℕ → List (List A) → Result (List (List A))
  chunks_rounds zero xs size out = out_of_fuel
  chunks_rounds (suc n) xs size out = elim (ltb size (length xs)) [
    | true ↦ chunks_rounds n (drop size xs) size (out ++ (take size xs ∷ []))
    | false ↦ ok (out ++ (xs ∷ []))
  ]

  unfoldable pub chunks : List A → ℕ → Result (List (List A))
  unfolding chunks_rounds
  chunks xs size = chunks_rounds (suc (length xs)) xs size []

pub data Inode : Type 0 where
  raw : Bytes → Inode
  directory : Inode

-- The JSON of inodes: of a raw one, and what the two decoders read, a kind and the bytes.
pub record InodeJson : Type 0 where
  pub marshal_raw : Bytes → Bytes
  pub decode_kind : Bytes → Option ℕ
  pub decode_raw : Bytes → Option Bytes

unfoldable pub unmarshal_inode : InodeJson → Bytes → Result Inode
unmarshal_inode j bytes = elim (j.decode_kind bytes) [
  | none ↦ err bad_inode
  | some kind ↦
      if kind == 0
      then elim (j.decode_raw bytes) [ none ↦ err bad_inode | some d ↦ ok (raw d) ]
      else if kind == 1
      then ok directory
      else err bad_inode
]

-- What `FS` stands on.
pub record Env (State : Type 0) : Type 0 where
  pub hashing : Hashing
  pub nodes : NodeJson
  pub inodes : InodeJson
  pub db : Db State

abbrev pub raw_bytes : Inode → Result Bytes
raw_bytes (raw d) = ok d
raw_bytes directory = err is_directory

-- The list when it has one entry.
unfoldable pub single : List Node → Option Node
single [] = none
single (n ∷ []) = some n
single (n ∷ m ∷ ns) = none

-- The node when it is the only one, and else the next level.
abbrev pub or_next : {S : Type 0} → Option Node → S → Result (Node × S) → Result (Node × S)
or_next (some n) s next = ok (n, s)
or_next none s next = next

-- The links of `buildDAGLevel` have no names.
abbrev pub link_all : List Node → Attributes → Attributes
link_all [] a = a
link_all (n ∷ ns) a = link_all ns (add_link [] n a)

-- `strings.Split(path, "/")`
abbrev pub push_head : ℕ → List Bytes → List Bytes
push_head c [] = (c ∷ []) ∷ []
push_head c (p ∷ ps) = (c ∷ p) ∷ ps

unfoldable pub split : Bytes → List Bytes
split [] = [] ∷ []
split (c ∷ path) = let rest = split path in if c == 47 then [] ∷ rest else push_head c rest

-- The entry of the links whose name is the head of the path; the first one counts.
abbrev pub find_link : Bytes → List Link → Option Link
find_link name [] = none
find_link name (l ∷ ls) =
    let rest = find_link name ls in if key_eq name l.name then some l else rest

abbrev pub link_cid : Option Link → Result Cid
link_cid none = err invalid_path
link_cid (some l) = ok l.cid

-- The loop of `DAG` over the links.
unfoldable pub dag_links : (Cid → Result (List Cid × ℕ)) → List Link → Result (List Cid × ℕ)
dag_links dag [] = ok ([], 0)
dag_links dag (l ∷ ls) = do
  (cs, n) ← dag l.cid
  (rest, m) ← dag_links dag ls
  ok (cs ++ rest, n + m)

module _ {State : Type 0} (env : Env State) where
  -- A turn of the first loop of `AddBytes`.
  unfoldable pub add_leaf : State → Bytes → Result (Node × State)
  unfolding build put
  add_leaf s chunk = do
    n ← build env.hashing env.nodes (set_data (env.inodes.marshal_raw chunk) empty)
    s' ← put env.db s n.block
    ok (n, s')

  unfoldable pub add_leaves : State → List Bytes → Result (List Node × State)
  unfolding add_leaf
  add_leaves s [] = ok ([], s)
  add_leaves s (c ∷ cs) = do (n, s') ← add_leaf s c; (ns, s'') ← add_leaves s' cs; ok (n ∷ ns, s'')

  unfoldable pub add_parent : State → List Node → Result (Node × State)
  unfolding build put
  add_parent s group = do
    p ← build env.hashing env.nodes (link_all group empty)
    s' ← put env.db s p.block
    ok (p, s')

  unfoldable pub add_parents : State → List (List Node) → Result (List Node × State)
  unfolding add_parent
  add_parents s [] = ok ([], s)
  add_parents s (g ∷ gs) = do
    (p, s') ← add_parent s g
    (ps, s'') ← add_parents s' gs
    ok (p ∷ ps, s'')

  -- `buildDAGLevel`, with the levels that are left.
  unfoldable pub build_dag_level : ℕ → State → List (List Node) → Result (Node × State)
  unfolding add_parents chunks
  build_dag_level zero s children = out_of_fuel
  build_dag_level (suc f) s children = do
    (parents, s') ← add_parents s children
    let next = (do groups ← chunks parents num_children; build_dag_level f s' groups)
    or_next (single parents) s' next

  -- Each level is smaller than the one below, so there are fewer levels than leaves.
  unfoldable pub add_bytes : State → Bytes → Result (Node × State)
  unfolding add_leaves chunks build_dag_level
  add_bytes s bytes = do
    cs ← chunks bytes chunk_size
    (ns, s') ← add_leaves s cs
    let next = (do groups ← chunks ns num_children; build_dag_level (length ns) s' groups)
    or_next (single ns) s' next

  -- `fs.store.Get(cid)` and `merkle.ParseBlock`.
  unfoldable pub fetch : State → Cid → Result Node
  unfolding get parse_block
  fetch s c = do b ← get env.db s c; parse_block env.nodes b

  -- The loop of `ReadBytes` over the links; `read` is the call for a child.
  unfoldable pub read_links : (Node → Result Bytes) → State → List Link → Result Bytes
  unfolding fetch
  read_links read s [] = ok []
  read_links read s (l ∷ ls) = do
    m ← fetch s l.cid
    chunk ← read m
    rest ← read_links read s ls
    ok (chunk ++ rest)

  unfoldable pub read_leaf : Bytes → Result Bytes
  unfolding unmarshal_inode
  read_leaf content = do i ← unmarshal_inode env.inodes content; raw_bytes i

  -- `ReadBytes`, with the depth that is left: the graph of a store has no bound on its depth.
  unfoldable pub read_bytes : ℕ → State → Node → Result Bytes
  unfolding read_links read_leaf
  read_bytes zero s n = out_of_fuel
  read_bytes (suc f) s n = elim n.attr.links [
    | [] ↦ read_leaf n.attr.content
    | l ∷ ls ↦ read_links (read_bytes f s) s (l ∷ ls)
  ]

  -- `resolvePath`
  unfoldable pub resolve_parts : State → Cid → List Bytes → Result Node
  unfolding fetch
  resolve_parts s c [] = fetch s c
  resolve_parts s c (name ∷ parts) = do
    n ← fetch s c
    child ← link_cid (find_link name n.attr.links)
    resolve_parts s child parts

  -- `ResolvePath`; `strings.Split` gives at least one part.
  unfoldable pub resolve_path : State → Bytes → Result Node
  unfolding resolve_parts split
  resolve_path s path = elim (split path) [
    | [] ↦ err invalid_path
    | c ∷ parts ↦ resolve_parts s c parts
  ]

  -- `DAG`, with the depth that is left.
  unfoldable pub dag : ℕ → State → Cid → Result (List Cid × ℕ)
  unfolding fetch dag_links
  dag zero s c = out_of_fuel
  dag (suc f) s c = do
    m ← fetch s c
    (cs, n) ← dag_links (dag f s) m.attr.links
    ok (c ∷ cs, length m.block.content + n)

-- What the system answers on a path: nothing for `os.Stat`, the bytes that `os.ReadFile` gives, or
-- the entries of `os.ReadDir` with their names.
mutual
  pub data Item : Type 0 where
    missing unreadable : Item
    file : Bytes → Item
    folder : Entries → Item

  pub data Entries : Type 0 where
    no_entries : Entries
    entry : Bytes → Item → Entries → Entries

pub record Record : Type 0 where
  pub cid : Cid
  pub path : Bytes

module _ {State : Type 0} (env : Env State) where
  -- The directory node of `AddPath` behind its entries, with the records of what is below.
  unfoldable pub add_folder :
      Bytes → Attributes → List Record → State → Result (Node × List Record × State)
  unfolding build put
  add_folder path a records s = do
    n ← build env.hashing env.nodes a
    s' ← put env.db s n.block
    ok (n, records ++ (record { cid = n.block.cid; path = path } ∷ []), s')

  unfoldable mutual
    unfolding add_bytes add_folder

    -- `AddPath`
    pub add_path : State → Bytes → Item → Result (Node × List Record × State)
    add_path s path missing = err read_failed
    add_path s path unreadable = err read_failed
    add_path s path (file d) = do
      (n, s') ← add_bytes env s d
      ok (n, record { cid = n.block.cid; path = path } ∷ [], s')
    add_path s path (folder es) = do
      (a, records, s') ← add_entries s path es empty []
      add_folder path a records s'

    -- Its loop over the entries, with the builder and the records so far.
    pub add_entries :
        State
        → Bytes
        → Entries
        → Attributes
        → List Record
        → Result (Attributes × List Record × State)
    add_entries s path no_entries a records = ok (a, records, s)
    add_entries s path (entry name item es) a records = do
      (child, rs, s') ← add_path s (path ++ (47 ∷ name)) item
      add_entries s' path es (add_link name child a) (records ++ rs)
