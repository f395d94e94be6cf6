-- ===== src/Daemon/Downloads/Held.antt =====
-- What the steps of a group of downloads keep, so that it announces what its store has.
use inu.Base.{◌≡◌, ◌≢◌, ap, ◌∙◌, none, some, ok, arith, Option-cases, inl, inr}
use inu.Key.{Key}
use inu.Key.Number.{key_eq_iff}
use inu.Key.Encoding.{marshal_b32}
use inu.Http.{Text}
use inu.Store.{Block, IsDb, put}
use inu.Merkle.{Node, parse_block}
use inu.Fs.{Env}
use inu.Daemon.{Network, Task, start, fetch, save, announce, fetch_node, Peer}
use inu.Daemon.Calls.{fetch_node-block}
use inu.Daemon.Downloads.Steps.{IsKept}

-- A peer that answers a request of a block with the block of that name.
pub record IsHonest {State World : Type 0} (env : Env State) (net : Network World) : Type 0 where
  pub cid-get_block :
      (w w' : World) (p : Peer) (k : Key) (b : Block)
      → net.get_block w p k ≡ (w', ok b)
      → b.cid ≡ marshal_b32 env.hashing.base32 k

module _ {State World : Type 0} (env : Env State) (net : Network World) (public_ip : Text) where
  abbrev pub IsHeld : State → Key → Type 0
  IsHeld s k = env.db.select s (marshal_b32 env.hashing.base32 k) ≢ none

  abbrev pub IsReady : State → Task → Type 0
  IsReady s (start c) = Unit
  IsReady s (fetch k) = Unit
  IsReady s (save k m) = m.block.cid ≡ marshal_b32 env.hashing.base32 k
  IsReady s (announce k m) = IsHeld s k

  put_holds :
      (s s' : State) (b : Block) (k : Key)
      → IsDb env.db
      → put env.db s b ≡ ok s'
      → (IsHeld s k → IsHeld s' k) × (b.cid ≡ marshal_b32 env.hashing.base32 k → IsHeld s' k)
  unfolding put
  put_holds s s' b k law e = elim (Option-cases (env.db.replace s b.cid b.content)) [
    | inl full ↦ absurd (ground (arith, full, e))
    | inr (t, wrote) ↦
        let same : t ≡ s' = ground (arith, wrote, e) in
        let j = marshal_b32 env.hashing.base32 k in
        let at = law.select-replace s s' b.cid j b.content (wrote ∙ ap some same) in
        (
          (λ held gone. ground (arith, at, gone, held)),
          λ h gone. ground (arith, at, gone, key_eq_iff b.cid j, h),
        )
  ]

  parse_block-block : (b : Block) (m : Node) → parse_block env.nodes b ≡ ok m → m.block ≡ b
  unfolding parse_block
  parse_block-block b m e = elim (Option-cases (env.nodes.unmarshal b.content)) [
    | inl bad ↦ absurd (ground (arith, bad, e))
    | inr (a, g) ↦ ground (arith, g, e)
  ]

  -- A node that `download` gets from an honest peer has the name that was asked for.
  fetch_node-named :
      IsHonest env net
      → (w w' : World) (k : Key) (m : Node) → fetch_node env net public_ip w k ≡ (w', ok m)
      → m.block.cid ≡ marshal_b32 env.hashing.base32 k
  fetch_node-named law w w' k m e =
      let (v, u, p, b, got, parsed) = fetch_node-block env net public_ip w w' k m e in
      ap (λ (z : Block). z.cid) (parse_block-block b m parsed) ∙ law.cid-get_block v u p k b got

  unfoldable pub Grows : State → State → Type 0
  Grows s s' = (k : Key) → IsHeld s k → IsHeld s' k

  IsReady-later : (s s' : State) (t : Task) → Grows s s' → IsReady s t → IsReady s' t
  unfolding Grows
  IsReady-later s s' (start c) f h = tt
  IsReady-later s s' (fetch k) f h = tt
  IsReady-later s s' (save k m) f h = h
  IsReady-later s s' (announce k m) f h = f k h

  pub IsHeld-kept :
      IsDb env.db
      → IsHonest env net
      → IsKept env net public_ip IsReady (λ s (a : Key × Node). IsHeld s a.0) Grows
  unfolding Grows
  IsHeld-kept law honest = record {
    start_ready = λ s c. tt;
    fetch_ready = λ s k. tt;
    fetched = λ s w w' k m e. fetch_node-named honest w w' k m e;
    saved = λ s s' k m e h.
        (λ j. (put_holds s s' m.block j law e).0, (put_holds s s' m.block k law e).1 h);
    announced = λ s k m h. h;
    same = λ s j held. held;
    ready_later = IsReady-later;
    known_later = λ s s' a f h. f a.0 h;
  }
