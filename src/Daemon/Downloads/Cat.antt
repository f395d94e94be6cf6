-- ===== src/Daemon/Downloads/Cat.antt =====
-- `Cat` in the store that a completed download leaves.
use inu.Base.{
  ℕ, zero, suc, ◌+◌, ◌≤◌, ◌≡◌, refl, sym, ap, subst, ◌∙◌, false, List, [], ◌∷◌, ◌++◌, length, All,
  All-both, Any-All, some, ok, err, ◌>>=◌, >>=-eq-ok, arith, Bool-cases, inl, inr,
}
use inu.Key.{Key, IsKey, key_eq}
use inu.Key.Encoding.{IsBase32, marshal_b32, parse_cid, unmarshal_b32-marshal_b32, zero_key-IsKey}
use inu.Cid.{Bytes, Cid, IsHashing}
use inu.Http.{Text}
use inu.Store
use inu.Store.{Error, IsDb, write_failed}
use inu.Store.Laws.{IsValid, Cid-new_ok}
use inu.Merkle.{Node, Link}
use inu.Fs.{Env, find_link, split, resolve_path, resolve_parts, read_bytes, read_links, read_leaf}
use inu.Fs
use inu.Fs.Resolve.{fetch_first, resolve_parts-some}
use inu.Fs.Contents.{IsEnv}
use inu.Fs.Nodes.{guarded_env}
use inu.Daemon.{Network, start, store_error, cat, add, lift}
use inu.Daemon.Calls.{lift-ok}
use inu.Fs.Added.{Added, add_bytes_lem}
use inu.Fs.Resolve.{split-name, text-IsName}
use inu.Daemon.Files.{cat-Added}
use inu.Daemon.Downloads.{Group, Reaches}
use inu.Daemon.Downloads.Copied.{
  Serves, IsCopied, name, fetch-block, fetch-copy, announced-IsCopied,
}
use inu.Daemon.Downloads.Complete.{IsAnnounced, announced_all}

find_link-All :
    (P : Link → Type 0) (part : Bytes) (ls : List Link) (l : Link)
    → All P ls
    → find_link part ls ≡ some l
    → P l
find_link-All P part [] l h e = cc
find_link-All P part (k ∷ ls) l h e = elim (Bool-cases (key_eq part k.name)) [
  | inl eq ↦ let same : k ≡ l = ground (arith, eq, e) in subst P same h.0
  | inr ne ↦ find_link-All P part ls l h.1 (ground (arith, ne, e))
]

module _ {State World : Type 0} (env : Env State) (net : Network World) (public_ip : Text)
    (served : State) (hashing : IsHashing env.hashing) (base32 : IsBase32 env.hashing.base32)
    (v : IsValid env.hashing env.db served) where
  -- The key of a served block's name has that name.
  name_of_key :
      (c : Cid) (m : Node) (k : Key)
      → Fs.fetch env served c ≡ ok m
      → parse_cid env.hashing.base32 c ≡ ok k
      → name env net public_ip served k ≡ c
  unfolding marshal_b32
  name_of_key c m k e p =
      let (x, stored, _, _) = fetch-block env net public_ip served served c m e in
      let digest = env.hashing.sha256 x in
      let same : env.hashing.base32.encode digest ≡ c =
        ground (arith, sym (Cid-new_ok env.hashing x hashing) ∙ v.named c x stored) in
      let is_key : IsKey digest = record {
        size = hashing.length-sha256 x;
        bytes = hashing.sha256-bytes x;
      } in
      let read =
        unmarshal_b32-marshal_b32 env.hashing.base32 _ digest base32 zero_key-IsKey is_key in
      let key : digest ≡ k =
        ground (arith, sym read ∙ ap (parse_cid env.hashing.base32) same ∙ p) in
      ap env.hashing.base32.encode (sym key) ∙ same

  module _ (h : Group State World)
      (copied : All (IsCopied env net public_ip served h.store) h.announced)
      (linked : All
        (λ (a : Key × Node).
          All (λ (l : Link). IsAnnounced env net public_ip l.cid h) a.1.attr.links)
        h.announced) where
    abbrev IsFound : Cid → Type 0
    IsFound c = IsAnnounced env net public_ip c h

    fetch-IsFound :
        (c : Cid) (m : Node)
        → IsFound c
        → Fs.fetch env served c ≡ ok m
        → (Fs.fetch env h.store c ≡ ok m) × All (λ (l : Link). IsFound l.cid) m.attr.links
    fetch-IsFound c m a e =
        let (x, p, both) =
          Any-All (λ (a : Key × Node). parse_cid env.hashing.base32 c ≡ ok a.0) _ h.announced a
            (All-both _ _ h.announced copied linked) in
        let named = name_of_key c m x.0 e p in
        let node : x.1 ≡ m = ground (arith, sym both.0.0 ∙ ap (Fs.fetch env served) named ∙ e) in
        (
          fetch-copy env net public_ip served served h.store c m e (
              ap (env.db.select h.store) (sym named)
              ∙ both.0.1
              ∙ ap (λ (z : Node). some z.block.content) node),
          subst (λ (z : Node). All (λ (l : Link). IsFound l.cid) z.attr.links) node both.1,
        )

    resolve-IsFound :
        (c : Cid) (parts : List Bytes) (m : Node)
        → IsFound c
        → resolve_parts env served c parts ≡ ok m
        → (resolve_parts env h.store c parts ≡ ok m)
          × All (λ (l : Link). IsFound l.cid) m.attr.links
    unfolding resolve_parts
    resolve-IsFound c [] m a e = fetch-IsFound c m a e
    resolve-IsFound c (part ∷ parts) m a e =
        let (n, l, got, found) = fetch_first env served c part parts m e in
        let (here, links) = fetch-IsFound c n a got in
        let below = sym (resolve_parts-some env served c part parts n l got found) ∙ e in
        let (rest, last) =
          resolve-IsFound l.cid parts m
            (find_link-All (λ (k : Link). IsFound k.cid) part n.attr.links l links found) below in
        (resolve_parts-some env h.store c part parts n l here found ∙ rest, last)

    read_links_found :
        (read read' : Node → Store.Result Bytes)
        → ((m : Node) (d : Bytes)
            → All (λ (l : Link). IsFound l.cid) m.attr.links
            → read m ≡ ok d
            → read' m ≡ ok d)
        → (ls : List Link) (d : Bytes) → All (λ (l : Link). IsFound l.cid) ls
        → read_links env read served ls ≡ ok d
        → read_links env read' h.store ls ≡ ok d
    unfolding read_links
    read_links_found read read' keep [] d a e = e
    read_links_found read read' keep (l ∷ ls) d a e =
        let (m, hm, e') =
          >>=-eq-ok (Fs.fetch env served l.cid)
            (λ m. read m >>= λ chunk. read_links env read served ls >>= λ rest. ok (chunk ++ rest))
            e in
        let (chunk, hc, e'') =
          >>=-eq-ok (read m) (λ chunk. read_links env read served ls >>= λ rest. ok (chunk ++ rest))
            e' in
        let (rest, hr, e3) =
          >>=-eq-ok (read_links env read served ls) (λ rest. ok (chunk ++ rest)) e'' in
        let (got, links) = fetch-IsFound l.cid m a.0 hm in
        rw (got, keep m chunk links hc, read_links_found read read' keep ls rest a.1 hr) e3

    read_found :
        (f : ℕ) (n : Node) (d : Bytes)
        → All (λ (l : Link). IsFound l.cid) n.attr.links
        → read_bytes env f served n ≡ ok d
        → read_bytes env f h.store n ≡ ok d
    unfolding read_bytes
    read_found zero n d a e = cc
    read_found (suc f) n d a e = go (read_found f) n.attr.links a e
      where
        go :
            ((m : Node) (c : Bytes)
              → All (λ (l : Link). IsFound l.cid) m.attr.links
              → read_bytes env f served m ≡ ok c
              → read_bytes env f h.store m ≡ ok c)
            → (ls : List Link) → All (λ (l : Link). IsFound l.cid) ls
            → Path
                (Store.Result Bytes)
                (elim ls [
                  | [] ↦ read_leaf env n.attr.content
                  | l ∷ ls' ↦ read_links env (read_bytes env f served) served (l ∷ ls')
                ])
                (ok d)
            → Path
                (Store.Result Bytes)
                (elim ls [
                  | [] ↦ read_leaf env n.attr.content
                  | l ∷ ls' ↦ read_links env (read_bytes env f h.store) h.store (l ∷ ls')
                ])
                (ok d)
        go keep [] b u = u
        go keep (l ∷ ls) b u =
            read_links_found (read_bytes env f served) (read_bytes env f h.store) keep (l ∷ ls) d b
              u

    cat_found :
        (depth : ℕ) (c : Cid) (path : Bytes) (parts : List Bytes) (d : Bytes)
        → IsFound c
        → split path ≡ c ∷ parts
        → cat env depth served path ≡ ok d
        → cat env depth h.store path ≡ ok d
    unfolding cat resolve_path
    cat_found depth c path parts d a cut e =
        let at : (s : State) → resolve_path env s path ≡ resolve_parts env s c parts =
          λ s. rw (resolve_path, cut) refl in
        let (n, got, read) =
          >>=-eq-ok (lift store_error (resolve_path env served path))
            (λ n. lift store_error (read_bytes env depth served n)) e in
        let (found, links) =
          resolve-IsFound c parts n a (sym (at served) ∙ lift-ok store_error _ n got) in
        let copy = read_found depth n d links (lift-ok store_error _ d read) in
        rw (at h.store ∙ found, copy) refl

  -- Two daemons: from peers that answer what a daemon with valid blocks serves, a download that ends
  -- without an error, whatever the order of its steps, leaves a store in which `Cat` of the name, and of
  -- each path below it, prints the bytes that `Cat` prints at that daemon.
  pub cat_downloaded :
      (depth : ℕ) (c : Cid) (path : Bytes) (parts : List Bytes) (d : Bytes)
      (g h : Group State World)
      → IsDb env.db
      → Serves env net served
      → g.tasks ≡ start c ∷ []
      → g.announced ≡ []
      → Reaches env net public_ip g h
      → h.tasks ≡ []
      → h.failed ≡ false
      → split path ≡ c ∷ parts
      → cat env depth served path ≡ ok d
      → cat env depth h.store path ≡ ok d
  cat_downloaded depth c path parts d g h law serves one unknown r done f cut e =
      let (first, links) = announced_all env net public_ip c g h one unknown r done f in
      let copied = announced-IsCopied env net public_ip served c g h law serves one unknown r in
      cat_found h copied links depth c path parts d first cut e

-- One daemon adds bytes, into a store as for `fs.AddBytes` and without a write that would replace a block
-- by another content, and another one downloads the name of the reply from peers that answer what the
-- first then serves: when the download ends without an error, whatever the order of its steps, `Cat` of
-- the name, at a depth of at least two more than the number of the bytes, prints the bytes there.
pub add-cat_downloaded :
    {State World : Type 0} (env : Env State) (net : Network World) (public_ip : Text)
    (law : IsEnv env) (base32 : IsBase32 env.hashing.base32) (depth : ℕ) (s served : State)
    (d : Bytes) (c : Cid) (g h : Group State World)
    → IsValid env.hashing env.db s
    → add (guarded_env env) s d ≡ ok (c, served)
    → length d + 2 ≤ depth
    → Serves env net served
    → g.tasks ≡ start c ∷ []
    → g.announced ≡ []
    → Reaches env net public_ip g h
    → h.tasks ≡ []
    → h.failed ≡ false
    → cat env depth h.store c ≡ ok d
unfolding add
add-cat_downloaded env net public_ip law base32 depth s served d c g h v added deep serves one
      unknown r done f =
    elim (add_bytes_lem env law s d v) [
      | inl e ↦
          let failed : add (guarded_env env) s d ≡ err (store_error write_failed) = rw (e) refl in
          absurd (ground (arith, failed, added))
      | inr ((n, s'), _, ran, a) ↦
          let replied : add (guarded_env env) s d ≡ ok (n.block.cid, s') = rw (ran) refl in
          let store : s' ≡ served = ground (arith, replied, added) in
          let named : n.block.cid ≡ c = ground (arith, replied, added) in
          let a' = subst (λ t. Added env law s d (length d + 2) n t) store a in
          subst (λ k. cat env depth h.store k ≡ ok d) named
            (cat_downloaded env net public_ip served law.hashing base32 a'.valid depth n.block.cid
              n.block.cid [] d g h law.db serves
              (subst (λ k. g.tasks ≡ start k ∷ []) (sym named) one) unknown r done f
              (split-name n.block.cid (text-IsName n.block.cid a.text))
              (cat-Added env law s served d n depth a' deep))
    ]
