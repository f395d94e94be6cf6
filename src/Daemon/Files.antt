-- ===== src/Daemon/Files.antt =====
-- What a daemon adds and what it prints, and what `Upload` announces.
use mathlib.Core.List.{Mem, Mem-prop, mem-cons, not-mem-nil}
use mathlib.Core.Logic.Or
use inu.Base.{
  ℕ, ◌+◌, ◌≤◌, ◌≡◌, ◌⊎◌, inl, inr, Option-cases, true, refl, sym, ap, subst, ◌∙◌, List, [], ◌∷◌,
  length, ok, err, arith,
}
use inu.Key.{Key}
use inu.Key.Encoding.{parse_cid}
use inu.Cid.{Bytes, Cid}
use inu.Store
use inu.Store.{write_failed, Block, valid}
use inu.Key.Number.{key_eq_refl}
use inu.Store.Laws.{IsValid, Extends}
use inu.Merkle.{Node}
use inu.Fs.{Env, resolve_path, resolve_parts}
use inu.Fs.Contents.{IsEnv}
use inu.Fs.Nodes.{guarded_env}
use inu.Fs.Added.{Added, add_bytes_lem}
use inu.Fs.Folders.{fetch_stored}
use inu.Fs.Resolve.{text-IsName, resolve_path-path_of}
use inu.Fs.Dag.{dag-resolve_parts}
use inu.Daemon.Calls.{next-ok, lift-ok, call-ok}
use inu.Daemon.{Network, store_error, serve_block, add, cat, put_keys, upload}

module _ {State : Type 0} (env : Env State) (law : IsEnv env) where
  -- `Cat` of an added node.
  pub cat-Added :
      (s s' : State) (d : Bytes) (n : Node) (depth : ℕ)
      → Added env law s d (length d + 2) n s'
      → length d + 2 ≤ depth
      → cat env depth s' n.block.cid ≡ ok d
  unfolding cat resolve_parts
  cat-Added s s' d n depth a h =
      let found =
        resolve_path-path_of env s' n.block.cid [] (text-IsName n.block.cid a.text) tt
        ∙ fetch_stored env law s' n a.stored a.parses in
      rw (found, a.reads depth h) refl

  -- `Cat` of the name that `AddBytes` replied, into a store as for `fs.AddBytes`: the bytes that were
  -- added. The other outcome is a write that would replace a block by another content.
  pub cat-add :
      (s : State) (d : Bytes) (depth : ℕ)
      → IsValid env.hashing env.db s
      → length d + 2 ≤ depth
      → (add (guarded_env env) s d ≡ err (store_error write_failed))
        ⊎ ((c : Cid) × (s' : State) × (add env s d ≡ ok (c, s'))
            × (cat env depth s' c ≡ ok d)
            × Extends env.db s s')
  unfolding add
  cat-add s d depth v h = elim (add_bytes_lem env law s d v) [
    | inl e ↦ inl (rw (e) refl)
    | inr ((n, s'), ran, _, a) ↦
        inr (n.block.cid, s', rw (ran) refl, cat-Added s s' d n depth a h, a.extends)
  ]

module _ {State : Type 0} (env : Env State) where
  -- What a daemon answers to a peer is the block that was asked for, and the peer's check of it passes,
  -- when the store has each block under the name of its content.
  pub serve_block-valid :
      (s : State) (c : Cid) (b : Block)
      → IsValid env.hashing env.db s
      → serve_block env s c ≡ ok b
      → (b.cid ≡ c) × (valid env.hashing b ≡ ok true)
  unfolding serve_block Store.get valid
  serve_block-valid s c b v e = elim (Option-cases (env.db.select s c)) [
    | inl free ↦ absurd (ground (arith, free, e))
    | inr (bytes, h) ↦
        let same : record { cid = c; content = bytes } ≡ b = ground (arith, h, e) in
        let name = v.named c bytes h in
        subst (λ (z : Block). (z.cid ≡ c) × (valid env.hashing z ≡ ok true)) same
          (refl, rw (name) (ap ok (key_eq_refl c)))
  ]

-- The keys that the network has been told of: a call of `PutKey` that succeeds adds its key.
pub record Observes {World : Type 0} (net : Network World) (announced : World → List Key)
    : Type 0 where
  pub told : (w w' : World) (k : Key) → net.put_key w k ≡ (w', ok tt) → Mem k (announced w')
  pub keeps :
      (w w' : World) (k j : Key)
      → net.put_key w k ≡ (w', ok tt)
      → Mem j (announced w)
      → Mem j (announced w')

module _ {State World : Type 0} (env : Env State) (net : Network World)
    (announced : World → List Key) (o : Observes net announced) where
  abbrev IsAnnounced : World → Cid → Type 0
  IsAnnounced w c = (k : Key) → parse_cid env.hashing.base32 c ≡ ok k → Mem k (announced w)

  put_keys_keeps :
      (w w' : World) (cs : List Cid) (j : Key)
      → put_keys env net w cs ≡ (w', ok tt)
      → Mem j (announced w)
      → Mem j (announced w')
  unfolding put_keys
  put_keys_keeps w w' [] j e m = subst (λ v. Mem j (announced v)) (ap (λ z. z.0) e) m
  put_keys_keeps w w' (c ∷ cs) j e m =
      let (v, k, parsed, e') = next-ok _ _ w' tt e in
      let (v', x, put, e'') = next-ok _ _ w' tt e' in
      let v_same : w ≡ v = ap (λ z. z.0) parsed in
      put_keys_keeps v' w' cs j e''
        (o.keeps v v' k j (call-ok _ v' x put) (subst (λ u. Mem j (announced u)) v_same m))

  put_keys_lem :
      (w w' : World) (cs : List Cid) (c : Cid)
      → put_keys env net w cs ≡ (w', ok tt)
      → Mem c cs
      → IsAnnounced w' c
  unfolding put_keys
  put_keys_lem w w' [] c e m k p = absurd (not-mem-nil m)
  put_keys_lem w w' (d ∷ cs) c e m k p =
      let (v, j, parsed, e') = next-ok _ _ w' tt e in
      let (v', x, put, e'') = next-ok _ _ w' tt e' in
      let told = o.told v v' j (call-ok _ v' x put) in
      Or.elim Mem-prop (mem-cons.0 m)
        (λ same.
          let at : parse_cid env.hashing.base32 d ≡ ok j = lift-ok _ _ j (ap (λ z. z.1) parsed) in
          let key : j ≡ k =
            ground (arith, sym at ∙ ap (parse_cid env.hashing.base32) (sym same) ∙ p) in
          put_keys_keeps v' w' cs k e'' (subst (λ i. Mem i (announced v')) key told))
        (λ m'. put_keys_lem v' w' cs c e'' m' k p)

  -- `Upload` of a path that it can resolve, when it succeeds, has told the network of the block of
  -- every node that `resolvePath` finds below the path's node.
  pub upload-announced :
      (depth : ℕ) (s : State) (w w' : World) (path : Bytes) (count : ℕ) (root m : Node)
      (parts : List Bytes)
      → upload env net depth s w path ≡ (w', ok count)
      → resolve_path env s path ≡ ok root
      → resolve_parts env s root.block.cid parts ≡ ok m
      → (k : Key) → parse_cid env.hashing.base32 m.block.cid ≡ ok k
      → Mem k (announced w')
  unfolding upload
  upload-announced depth s w w' path count root m parts e at found k p =
      let (v, n, got, e') = next-ok _ _ w' count e in
      let (v', d, listed, e'') = next-ok _ _ w' count e' in
      let (v'', x, told, done) = next-ok _ _ w' count e'' in
      let same : n ≡ root = ground (arith, sym (lift-ok _ _ n (ap (λ z. z.1) got)) ∙ at) in
      let all = lift-ok _ _ d (ap (λ z. z.1) listed) in
      let mem =
        dag-resolve_parts env depth s n.block.cid d.0 d.1 parts m all
          (subst (λ (r : Node). resolve_parts env s r.block.cid parts ≡ ok m) (sym same) found) in
      let final : v'' ≡ w' = ap (λ z. z.0) done in
      subst (λ u. Mem k (announced u)) final (put_keys_lem v' v'' d.0 m.block.cid told mem k p)
