-- ===== src/Daemon.antt =====
-- daemon.go: what a daemon does with its store and with the network. The calls of dht/ and the block
-- of a peer are behind `Network`.
pub mod Calls
pub mod Files
pub mod Downloads
pub mod Service
use inu.Base.{
  ℕ, zero, suc, Bool, true, false, List, [], ◌∷◌, ◌++◌, map, length, ◌==◌, if◌then◌else◌, Option,
  none, some, Run, ok, err, panic, out_of_fuel, ◌>>=◌,
}
use inu.Key.{Key, key_eq}
use inu.Key.Encoding.{Base32, parse_cid}
use inu.Key.Encoding
use inu.Cid.{Bytes, Cid}
use inu.Store
use inu.Store.{Block, valid, put}
use inu.Merkle.{Node, Link, parse_block}
use inu.Fs.{Env, Item, Record, add_bytes, add_path, resolve_path, read_bytes, dag}
use inu.Http
use inu.Http.{Text}

pub record Peer : Type 0 where
  pub ip : Text
  pub port : ℕ

pub data Error : Type 0 where
  store_error : Store.Error → Error
  key_error : Encoding.Error → Error
  http_error : Http.Error → Error
  no_peers bad_block : Error

abbrev pub Result {ℓ} : Type ℓ → Type ℓ
Result = Run Error

-- An error of a part is the error of the daemon.
abbrev pub lift {ℓ} : {E : Type 0} {A : Type ℓ} → (E → Error) → Run E A → Result A
lift f (ok x) = ok x
lift f (err e) = err (f e)
lift f panic = panic
lift f out_of_fuel = out_of_fuel

-- `dht.Client`, and the answer of a peer to the request of a block: its JSON is decoded already.
pub record Network (World : Type 0) : Type 0 where
  pub find_peers : World → Key → World × Http.Result (List Peer)
  pub put_key : World → Key → World × Http.Result (Unit {0})
  pub get_block : World → Peer → Key → World × Http.Result Block

-- The first occurrence of the address in the list, which is taken out.
unfoldable pub remove_own : Text → List Peer → List Peer
remove_own public_ip [] = []
remove_own public_ip (p ∷ ps) =
    let rest = remove_own public_ip ps in if key_eq public_ip p.ip then ps else p ∷ rest

abbrev pub first_peer : List Peer → Result Peer
first_peer [] = err no_peers
first_peer (p ∷ ps) = ok p

module _ {State : Type 0} (env : Env State) where
  -- `AddBytes`, with the reply.
  unfoldable pub add : State → Bytes → Result (Cid × State)
  unfolding add_bytes
  add s bytes = do (n, s') ← lift store_error (add_bytes env s bytes); ok (n.block.cid, s')

  -- `AddPath`, with the reply.
  unfoldable pub add_item : State → Bytes → Item → Result (List Record × State)
  unfolding add_path
  add_item s path item = do
    (n, records, s') ← lift store_error (add_path env s path item)
    ok (records, s')

  -- `Cat`, with the depth that is left.
  unfoldable pub cat : ℕ → State → Bytes → Result Bytes
  unfolding resolve_path read_bytes
  cat depth s path = do
    n ← lift store_error (resolve_path env s path)
    lift store_error (read_bytes env depth s n)

  -- The handler of `/block/{cid}`.
  unfoldable pub serve_block : State → Cid → Result Block
  unfolding Store.get
  serve_block s c = lift store_error (Store.get env.db s c)

-- A call that changed the world: its value goes on, and an error ends the caller.
unfoldable pub next :
    {World A B : Type 0} → World × Result A → (World → A → World × Result B) → World × Result B
next (w, ok x) f = f w x
next (w, err e) f = (w, err e)
next (w, panic) f = (w, panic)
next (w, out_of_fuel) f = (w, out_of_fuel)

unfoldable pub call : {World A : Type 0} → World × Http.Result A → World × Result A
call (w, r) = (w, lift http_error r)

-- A block whose name is not that of its content is refused.
abbrev pub checked : Bool → Block → Result Block
checked true b = ok b
checked false b = err bad_block

-- What a call of `download` has left to do: to parse the name of a link, to get the block, to
-- store it, and to announce it.
pub data Task : Type 0 where
  start : Cid → Task
  fetch : Key → Task
  save : Key → Node → Task
  announce : Key → Node → Task

module _ {State World : Type 0} (env : Env State) (net : Network World) where
  -- The loop of `Upload`.
  unfoldable pub put_keys : World → List Cid → World × Result (Unit {0})
  put_keys w [] = (w, ok tt)
  put_keys w (c ∷ cs) =
      next (w, lift key_error (parse_cid env.hashing.base32 c))
        λ w k. next (call (net.put_key w k)) λ w _. put_keys w cs

  unfoldable pub upload : ℕ → State → World → Bytes → World × Result ℕ
  unfolding resolve_path dag put_keys
  upload depth s w path =
      next (w, lift store_error (resolve_path env s path))
        λ w n.
          next (w, lift store_error (dag env depth s n.block.cid))
            λ w d. next (put_keys w d.0) λ w _. (w, ok (length d.0))

  -- The steps 1 to 4 of `download`.
  unfoldable pub fetch_node : Text → World → Key → World × Result Node
  unfolding valid parse_block remove_own
  fetch_node public_ip w k = next (call (net.find_peers w k)) λ w peers.
      next (w, first_peer (remove_own public_ip peers))
        λ w p. next (call (net.get_block w p k)) λ w b. (
          w,
          do
            ok_name ← lift store_error (valid env.hashing b)
            b' ← checked ok_name b
            lift store_error (parse_block env.nodes b'),
        )

  -- One step of a task: the store that it leaves, and the tasks that take its place.
  unfoldable pub run : Text → Task → State → World → World × Result (State × List Task)
  unfolding fetch_node put
  run public_ip (start c) s w =
      (w, do k ← lift key_error (parse_cid env.hashing.base32 c); ok (s, fetch k ∷ []))
  run public_ip (fetch k) s w = next (fetch_node public_ip w k) λ w m. (w, ok (s, save k m ∷ []))
  run public_ip (save k m) s w =
      (w, do s' ← lift store_error (put env.db s m.block); ok (s', announce k m ∷ []))
  run public_ip (announce k m) s w =
      next (call (net.put_key w k)) λ w _. (w, ok (s, map (λ l. start l.cid) m.attr.links))
