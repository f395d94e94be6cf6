-- ===== src/Daemon/Downloads/Copied.antt =====
-- What a completed download has copied, when the peers answer from one store.
use inu.Base.{
  ◌≡◌, sym, ap, ◌∙◌, [], ◌∷◌, All, none, some, ok, err, panic, out_of_fuel, arith, Option-cases,
  Bool-cases, inl, inr,
}
use inu.Key.{Key, key_eq}
use inu.Key.Number.{key_eq_iff}
use inu.Key.Encoding.{marshal_b32}
use inu.Cid.{Bytes, Cid}
use inu.Http.{Text}
use inu.Store
use inu.Store.{Block, IsDb, put, valid, get, write_failed}
use inu.Merkle.{Node, parse_block}
use inu.Fs.{Env, find_link, split, resolve_path, resolve_parts, read_bytes, read_links, read_leaf}
use inu.Fs
use inu.Daemon.{
  Network, Task, start, fetch, save, announce, fetch_node, store_error, Peer, serve_block,
}
use inu.Daemon.Calls.{lift-ok, fetch_node-block}
use inu.Daemon.Downloads.Steps.{IsKept, announced-known}
use inu.Daemon.Downloads.{Group, Reaches}

-- Every peer that answers a request of a block answers what a daemon with this store serves.
pub record Serves {State World : Type 0} (env : Env State) (net : Network World) (served : State)
    : Type 0 where
  pub get_block-serve :
      (w w' : World) (p : Peer) (k : Key) (b : Block)
      → net.get_block w p k ≡ (w', ok b)
      → serve_block env served (marshal_b32 env.hashing.base32 k) ≡ ok b

module _ {State World : Type 0} (env : Env State) (net : Network World) (public_ip : Text)
    (served : State) where
  abbrev pub name : Key → Cid
  name k = marshal_b32 env.hashing.base32 k

  -- The node of a key in the served store.
  abbrev pub IsOriginal : Key → Node → Type 0
  IsOriginal k m = Fs.fetch env served (name k) ≡ ok m

  abbrev pub IsCopied : State → Key × Node → Type 0
  IsCopied s a = IsOriginal a.0 a.1 × (env.db.select s (name a.0) ≡ some a.1.block.content)

  abbrev IsReady : State → Task → Type 0
  IsReady s (start c) = Unit
  IsReady s (fetch k) = Unit
  IsReady s (save k m) = IsOriginal k m
  IsReady s (announce k m) = IsCopied s (k, m)

  pub fetch-block :
      (s : State) (c : Cid) (m : Node)
      → Fs.fetch env s c ≡ ok m
      → (x : Bytes) × (env.db.select s c ≡ some x)
        × (m.block ≡ record { cid = c; content = x })
        × (parse_block env.nodes (record { cid = c; content = x }) ≡ ok m)
  unfolding Fs.fetch get parse_block
  fetch-block s c m e = elim (Option-cases (env.db.select s c)) [
    | inl free ↦ absurd (ground (arith, free, e))
    | inr (x, h) ↦ elim (Option-cases (env.nodes.unmarshal x)) [
      | inl bad ↦ absurd (ground (arith, h, bad, e))
      | inr (a, g) ↦
          let same : record { attr = a; block = record { cid = c; content = x } } ≡ m =
            ground (arith, h, g, e) in
          (x, h, sym (ap (λ (z : Node). z.block) same), rw (parse_block, g) (ap ok same))
    ]
  ]

  -- A copy of a node's block is read as the node.
  pub fetch-copy :
      (s s' : State) (c : Cid) (m : Node)
      → Fs.fetch env s c ≡ ok m
      → env.db.select s' c ≡ some m.block.content
      → Fs.fetch env s' c ≡ ok m
  unfolding Fs.fetch get
  fetch-copy s s' c m e h =
      let (x, _, whole, parses) = fetch-block s c m e in
      let at : env.db.select s' c ≡ some x = h ∙ ap (λ (b : Block). some b.content) whole in
      rw (Fs.fetch, get, at) parses

  fetch_node-IsOriginal :
      Serves env net served
      → (w w' : World) (k : Key) (m : Node) → fetch_node env net public_ip w k ≡ (w', ok m)
      → IsOriginal k m
  unfolding serve_block Fs.fetch
  fetch_node-IsOriginal law w w' k m e =
      let (v, u, p, b, got, parsed) = fetch_node-block env net public_ip w w' k m e in
      let answered =
        lift-ok store_error (get env.db served (name k)) b (law.get_block-serve v u p k b got) in
      rw (answered) parsed

  Grows : State → State → Type 0
  Grows s s' = (a : Key × Node) → IsCopied s a → IsCopied s' a

  put-copies :
      (s s' : State) (k : Key) (m : Node)
      → IsDb env.db
      → put env.db s m.block ≡ ok s'
      → IsOriginal k m
      → Grows s s' × IsCopied s' (k, m)
  unfolding put Grows
  put-copies s s' k m law e o = elim (Option-cases (env.db.replace s m.block.cid m.block.content)) [
    | inl full ↦ absurd (ground (arith, full, e))
    | inr (t, wrote) ↦
        let same : t ≡ s' = ground (arith, wrote, e) in
        let at = λ (j : Cid).
          law.select-replace s s' m.block.cid j m.block.content (wrote ∙ ap some same) in
        let (x, _, whole, _) = fetch-block served (name k) m o in
        let named : m.block.cid ≡ name k = ap (λ (z : Block). z.cid) whole in
        (
          λ a (o', h). (
            o',
            elim (Bool-cases (key_eq m.block.cid (name a.0))) [
              | inl eq ↦
                  let key : name k ≡ name a.0 =
                    sym named ∙ (key_eq_iff m.block.cid (name a.0)).0 eq in
                  let node : ok m ≡ ok a.1 = sym o ∙ ap (Fs.fetch env served) key ∙ o' in
                  at (name a.0)
                  ∙ rw (eq) (
                      ap
                        (λ (z : Store.Result Node). elim z [
                          | ok n ↦ some n.block.content
                          | err u ↦ none
                          | panic ↦ none
                          | out_of_fuel ↦ none
                        ])
                        node)
              | inr ne ↦ at (name a.0) ∙ rw (ne) h
            ],
          ),
          (o, at (name k) ∙ ground (arith, key_eq_iff m.block.cid (name k), named)),
        )
  ]

  IsReady-later : (s s' : State) (t : Task) → Grows s s' → IsReady s t → IsReady s' t
  unfolding Grows
  IsReady-later s s' (start c) f h = tt
  IsReady-later s s' (fetch k) f h = tt
  IsReady-later s s' (save k m) f h = h
  IsReady-later s s' (announce k m) f h = f (k, m) h

  IsCopied-kept :
      IsDb env.db → Serves env net served → IsKept env net public_ip IsReady IsCopied Grows
  unfolding Grows
  IsCopied-kept law serves = record {
    start_ready = λ s c. tt;
    fetch_ready = λ s k. tt;
    fetched = λ s w w' k m e. fetch_node-IsOriginal serves w w' k m e;
    saved = λ s s' k m e h. put-copies s s' k m law e h;
    announced = λ s k m h. h;
    same = λ s a h. h;
    ready_later = IsReady-later;
    known_later = λ s s' a f h. f a h;
  }

  -- What was announced is a node of the served store, whose block the daemon's store has.
  pub announced-IsCopied :
      (c : Cid) (g h : Group State World)
      → IsDb env.db
      → Serves env net served
      → g.tasks ≡ start c ∷ []
      → g.announced ≡ []
      → Reaches env net public_ip g h
      → All (IsCopied h.store) h.announced
  announced-IsCopied c g h law serves one unknown r =
      announced-known env net public_ip IsReady IsCopied Grows c g h (IsCopied-kept law serves) one
        unknown r
