-- ===== src/Fs/Folders.antt =====
-- `AddPath` of fs/fs.go: what it leaves for a file, for the entries of a directory, and for it.
use inu.Base.{
  ℕ, ◌+◌, ◌≤◌, ◌<◌, ◌≡◌, refl, sym, ap, subst, ◌∙◌, List, [], ◌∷◌, ◌++◌, length, All, All-append,
  All-map, Option, none, some, ltb, if◌then◌else◌, ok, ◌>>=◌, arith, Bool-cases, inl, inr,
}
use inu.Key.{key_eq}
use inu.Cid.{Bytes, Cid, IsText}
use inu.Store.{get, put, new_block, max_block_size}
use inu.Store.Laws.{IsValid, Extends, Extends-refl, Extends-trans, Cid-new_ok}
use inu.Store.Guard.{guarded, Follows, Follows_of_Outcome, Follows-bind, Follows_same, put_block}
use inu.Merkle.{Link, Attributes, Node, IsPlain, parse_block, empty, add_link, build}
use inu.Fs.{
  Env, Item, Entries, Record, missing, unreadable, file, folder, no_entries, entry, fetch,
  find_link, resolve_parts, read_bytes, add_folder,
}
use inu.Fs.Contents.{IsEnv, fetch-Extends, read_bytes-Extends}
use inu.Fs.Nodes.{guarded_env, node_of, parse_lem, cid_of-IsText}
use inu.Fs.Added.{Added}
use inu.Fs.Resolve.{resolve_parts-some, resolve_parts-Extends}

-- The bytes of the file under some names; the first entry of a name counts.
unfoldable mutual
  pub file_at : Item → List Bytes → Option Bytes
  file_at missing names = none
  file_at unreadable names = none
  file_at (file d) [] = some d
  file_at (file d) (name ∷ names) = none
  file_at (folder es) [] = none
  file_at (folder es) (name ∷ names) = entry_at es name names

  pub entry_at : Entries → Bytes → List Bytes → Option Bytes
  entry_at no_entries name names = none
  entry_at (entry n item es) name names =
      let first = file_at item names in
      let rest = entry_at es name names in if key_eq name n then first else rest

-- Each name is text that JSON keeps.
unfoldable mutual
  pub HasNames : Item → Type 0
  HasNames missing = Unit
  HasNames unreadable = Unit
  HasNames (file d) = Unit
  HasNames (folder es) = AllNamed es

  pub AllNamed : Entries → Type 0
  AllNamed no_entries = Unit
  AllNamed (entry name item es) = All (λ c. c < 128) name × HasNames item × AllNamed es

find_link-append_some :
    (name : Bytes) (ls : List Link) (l i : Link)
    → find_link name ls ≡ some i
    → find_link name (ls ++ (l ∷ [])) ≡ some i
find_link-append_some name [] l i e = cc
find_link-append_some name (j ∷ ls) l i e = ground (arith, e, find_link-append_some name ls l i)

find_link-append_none :
    (name : Bytes) (ls : List Link) (l : Link)
    → find_link name ls ≡ none
    → find_link name (ls ++ (l ∷ [])) ≡ (if key_eq name l.name then some l else none)
find_link-append_none name [] l e = refl
find_link-append_none name (j ∷ ls) l e = ground (arith, e, find_link-append_none name ls l)

module _ {State : Type 0} (env : Env State) (law : IsEnv env) where
  -- The file under some names below `c` reads as `d`.
  pub record ReadsAt (s : State) (c : Cid) (names : List Bytes) (d : Bytes) : Type 0 where
    pub node : Node
    pub resolves : resolve_parts env s c names ≡ ok node
    pub reads : (depth : ℕ) → length d + 2 ≤ depth → read_bytes env depth s node ≡ ok d

  abbrev pub IsStored : State → Cid → Type 0
  IsStored s c = (m : Node) × (fetch env s c ≡ ok m)

  -- What `AddPath` leaves.
  pub record AddedPath (s : State) (item : Item) (n : Node) (records : List Record) (s' : State)
      : Type 0 where
    pub valid : IsValid env.hashing env.db s'
    pub extends : Extends env.db s s'
    pub text : IsText n.block.cid
    pub found :
        (names : List Bytes) (d : Bytes)
        → file_at item names ≡ some d
        → ReadsAt s' n.block.cid names d
    pub recorded : All (λ (r : Record). IsStored s' r.cid) records

  ReadsAt-Extends :
      (s s' : State) (c : Cid) (names : List Bytes) (d : Bytes)
      → Extends env.db s s'
      → ReadsAt s c names d
      → ReadsAt s' c names d
  ReadsAt-Extends s s' c names d x r = record {
    node = r.node;
    resolves = resolve_parts-Extends env s s' c names r.node x r.resolves;
    reads = λ depth h. read_bytes-Extends env s s' x depth r.node d (r.reads depth h);
  }

  pub recorded-Extends :
      (s s' : State) (rs : List Record)
      → Extends env.db s s'
      → All (λ (r : Record). IsStored s r.cid) rs
      → All (λ (r : Record). IsStored s' r.cid) rs
  recorded-Extends s s' rs x g =
      All-map (λ (r : Record). IsStored s r.cid) (λ (r : Record). IsStored s' r.cid)
        (λ r (m, h). (m, fetch-Extends env s s' x r.cid m h)) rs g

  pub fetch_stored :
      (s : State) (n : Node)
      → env.db.select s n.block.cid ≡ some n.block.content
      → parse_block env.nodes n.block ≡ ok n
      → fetch env s n.block.cid ≡ ok n
  unfolding fetch get
  fetch_stored s n e p = rw (fetch, get, e) p

  pub AddedPath-file :
      (s s' : State) (d : Bytes) (n : Node) (path : Bytes)
      → Added env law s d (length d + 2) n s'
      → AddedPath s (file d) n (record { cid = n.block.cid; path = path } ∷ []) s'
  unfolding file_at resolve_parts
  AddedPath-file s s' d n path a =
      let got = fetch_stored s' n a.stored a.parses in
      record {
        valid = a.valid;
        extends = a.extends;
        text = a.text;
        found = λ names c e. go got names c e;
        recorded = ((n, got), tt);
      }
    where
      go :
          fetch env s' n.block.cid ≡ ok n
          → (names : List Bytes) (c : Bytes) → file_at (file d) names ≡ some c
          → ReadsAt s' n.block.cid names c
      go got [] c e =
          let same : d ≡ c = cc in
          record {
            node = n;
            resolves = got;
            reads = λ depth h. a.reads depth (omega (arith, h, ap length same)) ∙ ap ok same;
          }
      go got (name ∷ names) c e = cc

  build-ok :
      (a : Attributes) (n : Node) → build env.hashing env.nodes a ≡ ok n → n ≡ node_of env law a
  unfolding build new_block
  build-ok a n e = elim (Bool-cases (ltb max_block_size (length (env.nodes.marshal a)))) [
    | inl large ↦ absurd (ground (arith, large, e))
    | inr small ↦ ground (arith, small, e, Cid-new_ok env.hashing (env.nodes.marshal a) law.hashing)
  ]

  -- The node of a directory is stored with its links.
  pub record AddedFolder (s : State) (a : Attributes) (n : Node) (rs : List Record) (s' : State)
      : Type 0 where
    pub valid : IsValid env.hashing env.db s'
    pub extends : Extends env.db s s'
    pub attr : n.attr ≡ a
    pub text : IsText n.block.cid
    pub got : fetch env s' n.block.cid ≡ ok n
    pub recorded : All (λ (r : Record). IsStored s' r.cid) rs

  pub add_folder_lem :
      (s : State) (path : Bytes) (a : Attributes) (rs : List Record)
      → IsValid env.hashing env.db s
      → IsPlain a
      → All (λ (r : Record). IsStored s r.cid) rs
      → Follows
          (add_folder (guarded_env env) path a rs s)
          (add_folder env path a rs s)
          (λ x. AddedFolder s a x.0 x.1 x.2)
  unfolding add_folder
  add_folder_lem s path a rs v p g =
      Follows-bind _ _ (λ n. n ≡ node_of env law a) _ _ _ (Follows_same _ _ (build-ok a))
        λ n e.
          subst
            (λ (m : Node).
              Follows {A = Node × List Record × State}
                (put (guarded env.db) s m.block >>= λ s'.
                  ok (m, rs ++ (record { cid = m.block.cid; path = path } ∷ []), s'))
                (put env.db s m.block >>= λ s'.
                  ok (m, rs ++ (record { cid = m.block.cid; path = path } ∷ []), s'))
                (λ x. AddedFolder s a x.0 x.1 x.2))
            (sym e)
            (Follows-bind _ _ _ _ _ _
              (Follows_of_Outcome _ _ _ (
                put_block env.hashing env.db law.db law.writable s (node_of env law a).block v
                  (Cid-new_ok env.hashing (env.nodes.marshal a) law.hashing)))
              λ s' u. Follows_same _ _ λ x h.
                let m = node_of env law a in
                let got = fetch_stored s' m u.stored (parse_lem env law a p) in
                let records = rs ++ (record { cid = m.block.cid; path = path } ∷ []) in
                let same : (m, records, s') ≡ x = cc in
                subst (λ y. AddedFolder s a y.0 y.1 y.2) same
                  (record {
                    valid = u.valid;
                    extends = u.extends;
                    attr = refl;
                    text = cid_of-IsText env law a;
                    got = got;
                    recorded =
                        All-append (λ (r : Record). IsStored s' r.cid) rs
                          (record { cid = m.block.cid; path = path } ∷ [])
                          (recorded-Extends s s' rs u.extends g) ((m, got), tt);
                  }))

  -- What the loop over the entries leaves: the links that were there, and one for each entry.
  pub record AddedEntries (s : State) (es : Entries) (a a' : Attributes) (rs : List Record)
      (s' : State) : Type 0 where
    pub valid : IsValid env.hashing env.db s'
    pub extends : Extends env.db s s'
    pub plain : IsPlain a'
    pub recorded : All (λ (r : Record). IsStored s' r.cid) rs
    pub kept :
        (name : Bytes) (l : Link)
        → find_link name a.links ≡ some l
        → find_link name a'.links ≡ some l
    pub below :
        (name : Bytes) (names : List Bytes) (d : Bytes)
        → find_link name a.links ≡ none
        → entry_at es name names ≡ some d
        → (l : Link) × (find_link name a'.links ≡ some l) × ReadsAt s' l.cid names d

  pub AddedEntries-nil :
      (s : State) (a : Attributes) (rs : List Record)
      → IsValid env.hashing env.db s
      → IsPlain a
      → All (λ (r : Record). IsStored s r.cid) rs
      → AddedEntries s no_entries a a rs s
  unfolding entry_at
  AddedEntries-nil s a rs v p g = record {
    valid = v;
    extends = Extends-refl env.db s;
    plain = p;
    recorded = g;
    kept = λ name l e. e;
    below = λ name names d e h. cc;
  }

  pub AddedEntries-cons :
      (s s' s'' : State) (nm : Bytes) (item : Item) (es : Entries) (a a' : Attributes) (n : Node)
      (rs rs' : List Record)
      → AddedPath s item n rs s'
      → AddedEntries s' es (add_link nm n a) a' rs' s''
      → AddedEntries s (entry nm item es) a a' rs' s''
  unfolding entry_at
  AddedEntries-cons s s' s'' nm item es a a' n rs rs' p b =
      let i : Link = record { name = nm; cid = n.block.cid } in
      record {
        valid = b.valid;
        extends = Extends-trans env.db s s' s'' p.extends b.extends;
        plain = b.plain;
        recorded = b.recorded;
        kept = λ name l e. b.kept name l (find_link-append_some name a.links i l e);
        below = λ name names d e h.
            let end = find_link-append_none name a.links i e in
            elim (Bool-cases (key_eq name nm)) [
              | inl here ↦ (
                i,
                b.kept name i (end ∙ rw (here) refl),
                ReadsAt-Extends s' s'' i.cid names d b.extends
                    (p.found names d (ground (arith, here, h))),
              )
              | inr off ↦ b.below name names d (end ∙ rw (off) refl) (ground (arith, off, h))
            ];
      }

  pub AddedPath-folder :
      (s s' s'' : State) (es : Entries) (a : Attributes) (n : Node) (rs rs' : List Record)
      → AddedEntries s es empty a rs s'
      → AddedFolder s' a n rs' s''
      → AddedPath s (folder es) n rs' s''
  unfolding file_at
  AddedPath-folder s s' s'' es a n rs rs' b f = record {
    valid = f.valid;
    extends = Extends-trans env.db s s' s'' b.extends f.extends;
    text = f.text;
    found = go;
    recorded = f.recorded;
  }
    where
      go :
          (names : List Bytes) (d : Bytes)
          → file_at (folder es) names ≡ some d
          → ReadsAt s'' n.block.cid names d
      go [] d e = cc
      go (name ∷ names) d e =
          let (l, at, r) = b.below name names d refl e in
          let r' = ReadsAt-Extends s' s'' l.cid names d f.extends r in
          record {
            node = r'.node;
            resolves =
                resolve_parts-some env s'' n.block.cid name names n l f.got
                  (ap (λ (x : Attributes). find_link name x.links) f.attr ∙ at)
                ∙ r'.resolves;
            reads = r'.reads;
          }
