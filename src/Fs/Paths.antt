-- ===== src/Fs/Paths.antt =====
-- `AddPath` of fs/fs.go: the files of a directory are found again under their names.
use inu.Base.{◌+◌, ◌<◌, ◌≡◌, subst, List, [], ◌∷◌, ◌++◌, length, All, All-append}
use inu.Cid.{Bytes, IsText}
use inu.Store.Laws.{IsValid}
use inu.Store.Guard.{Follows, Follows_of_Outcome, Follows-bind, Follows-map, Follows_same}
use inu.Merkle.{Link, Attributes, Node, IsPlain, empty, add_link}
use inu.Fs.{
  Env, Item, Entries, Record, missing, unreadable, file, folder, no_entries, entry, add_path,
  add_entries,
}
use inu.Fs.Contents.{IsEnv}
use inu.Fs.Nodes.{guarded_env, plain}
use inu.Fs.Added.{Added, add_bytes_lem}
use inu.Fs.Folders.{
  HasNames, AllNamed, AddedPath, IsStored, recorded-Extends, AddedPath-file, AddedEntries,
  AddedEntries-nil, AddedEntries-cons, add_folder_lem, AddedPath-folder,
}

module _ {State : Type 0} (env : Env State) (law : IsEnv env) where
  IsPlain-add_link :
      (name : Bytes) (n : Node) (a : Attributes)
      → All (λ c. c < 128) name
      → IsText n.block.cid
      → IsPlain a
      → IsPlain (add_link name n a)
  IsPlain-add_link name n a h t p =
      All-append (λ (l : Link). All (λ c. c < 128) l.name × All (λ c. c < 128) l.cid) a.links
        (record { name = name; cid = n.block.cid } ∷ []) p ((h, plain env law n.block.cid t), tt)

  mutual
    unfolding add_path HasNames

    add_path_each :
        (s : State) (path : Bytes) (item : Item)
        → IsValid env.hashing env.db s
        → HasNames item
        → Follows
            (add_path (guarded_env env) s path item)
            (add_path env s path item)
            (λ x. AddedPath env law s item x.0 x.1 x.2)
    add_path_each s path missing v h = Follows_same _ _ λ x e. cc
    add_path_each s path unreadable v h = Follows_same _ _ λ x e. cc
    add_path_each s path (file d) v h =
        Follows-bind _ _ (λ x. Added env law s d (length d + 2) x.0 x.1) _ _ _
          (Follows_of_Outcome _ _ _ (add_bytes_lem env law s d v))
          λ (n, s') a. Follows_same _ _ λ x e.
            let rs = record { cid = n.block.cid; path = path } ∷ [] in
            let same : (n, rs, s') ≡ x = cc in
            subst (λ y. AddedPath env law s (file d) y.0 y.1 y.2) same
              (AddedPath-file env law s s' d n path a)
    add_path_each s path (folder es) v h =
        Follows-bind _ _ (λ x. AddedEntries env law s es empty x.0 x.1 x.2) _ _ _
          (add_entries_each s path es empty [] v tt h tt)
          λ (a, rs, s') b.
            let run = add_folder_lem env law s' path a rs b.valid b.plain b.recorded in
            Follows-map _ _ _ _ run (λ x f. AddedPath-folder env law s s' x.2 es a x.0 rs x.1 b f)

    add_entries_each :
        (s : State) (path : Bytes) (es : Entries) (a : Attributes) (rs : List Record)
        → IsValid env.hashing env.db s
        → IsPlain a
        → AllNamed es
        → All (λ (r : Record). IsStored env law s r.cid) rs
        → Follows
            (add_entries (guarded_env env) s path es a rs)
            (add_entries env s path es a rs)
            (λ x. AddedEntries env law s es a x.0 x.1 x.2)
    add_entries_each s path no_entries a rs v p h g = Follows_same _ _ λ x e.
        let same : (a, rs, s) ≡ x = cc in
        subst (λ y. AddedEntries env law s no_entries a y.0 y.1 y.2) same
          (AddedEntries-nil env law s a rs v p g)
    add_entries_each s path (entry name item es) a rs v p h g =
        Follows-bind _ _ (λ x. AddedPath env law s item x.0 x.1 x.2) _ _ _
          (add_path_each s (path ++ (47 ∷ name)) item v h.1)
          λ (n, rs', s') c.
            let all =
              All-append (λ (r : Record). IsStored env law s' r.cid) rs rs'
                (recorded-Extends env law s s' rs c.extends g) c.recorded in
            Follows-map _ _ _ _
              (add_entries_each s' path es (add_link name n a) (rs ++ rs') c.valid
                (IsPlain-add_link name n a h.0 c.text p) h.2 all)
              (λ x b. AddedEntries-cons env law s s' x.2 name item es a x.0 n rs' x.1 c b)

  -- `AddPath`, into a store as for `AddBytes`, of a directory whose names JSON keeps: if it returns, and
  -- no write replaces a block by another content, then for each file below the path, `resolvePath`
  -- from the name of the new node finds a node under the file's names, and `ReadBytes` of that node
  -- returns the bytes of the file. The block of each record is stored, and all blocks stay.
  pub add_path_lem :
      (s : State) (path : Bytes) (item : Item)
      → IsValid env.hashing env.db s
      → HasNames item
      → Follows
          (add_path (guarded_env env) s path item)
          (add_path env s path item)
          (λ x. AddedPath env law s item x.0 x.1 x.2)
  add_path_lem = add_path_each
