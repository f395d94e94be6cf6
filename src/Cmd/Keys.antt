-- ===== src/Cmd/Keys.antt =====
-- cmd/inu/key.go and cmd/inu/dht.go: the commands that print keys, and the ones that run a node.
pub mod Printed
use inu.Base.{
  ℕ, ◌^◌, Bool, true, false, List, [], ◌∷◌, Option, none, some, Run, ok, err, panic, out_of_fuel,
  ◌>>=◌,
}
use inu.Key.{Key, parse_uint64}
use inu.Key.Encoding.{Base32, marshal_b32, parse_cid}
use inu.Http.{Text}
use inu.Asn.{TrieNode}
use inu.Config.{NodeConfig, Addresses, parse_uint}
use inu.Cmd.{
  Error, Result, bad_number, rand_failed, bootstrap_failed, stop_failed, key_error, lift, or_err,
}

abbrev pub or_panic {ℓ} : {A : Type ℓ} → Option A → Result A
or_panic none = panic
or_panic (some x) = ok x

-- `key uint`: the text that it prints.
unfoldable pub key_uint : Base32 → Text → Result Text
unfolding parse_uint parse_uint64 marshal_b32
key_uint b arg = do
  n ← or_err bad_number (parse_uint (2 ^ 64) arg)
  k ← or_panic (parse_uint64 n)
  ok (marshal_b32 b k)

-- `key rand`, with the bytes that `rand.Read` gives.
unfoldable pub key_rand : Base32 → Option Key → Result Text
unfolding marshal_b32
key_rand b bytes = do k ← or_err rand_failed bytes; ok (marshal_b32 b k)

-- A node that runs: its start, the call of `Bootstrap`, the wait for a signal, and its stop.
pub record Nodes (World : Type 0) : Type 0 where
  pub start : World → NodeConfig × Addresses × TrieNode → World × Bool
  pub bootstrap : World → Key → Text → World × Bool
  pub wait : World → World
  pub stop : World → World × Bool

module _ {World : Type 0} (nodes : Nodes World) where
  -- `<-done()` and `n.Stop()`
  abbrev pub run_down : World × Bool → World × Result (Unit {0})
  run_down (w, true) = (w, ok tt)
  run_down (w, false) = (w, err stop_failed)

  abbrev pub wait_and_stop : World → World × Result (Unit {0})
  wait_and_stop w = run_down (nodes.stop (nodes.wait w))

  -- A node that could not start is a panic.
  abbrev pub after_start :
      World × Bool → (World → World × Result (Unit {0})) → World × Result (Unit {0})
  after_start (w, true) f = f w
  after_start (w, false) f = (w, panic)

  abbrev pub run_node :
      World
      → Result (NodeConfig × Addresses × TrieNode)
      → (World → World × Result (Unit {0}))
      → World × Result (Unit {0})
  run_node w (ok n) f = after_start (nodes.start w n) f
  run_node w (err e) f = (w, err e)
  run_node w panic f = (w, panic)
  run_node w out_of_fuel f = (w, out_of_fuel)

  -- `dht start`, with what `parseNode` returned.
  unfoldable pub dht_start :
      World → Result (NodeConfig × Addresses × TrieNode) → World × Result (Unit {0})
  dht_start w parsed = run_node w parsed wait_and_stop

  abbrev pub after_bootstrap : World × Bool → World × Result (Unit {0})
  after_bootstrap (w, true) = wait_and_stop w
  after_bootstrap (w, false) = (w, err bootstrap_failed)

  abbrev pub join_at : World → Text → Result Key → World × Result (Unit {0})
  join_at w address (ok k) = after_bootstrap (nodes.bootstrap w k address)
  join_at w address (err e) = (w, err e)
  join_at w address panic = (w, panic)
  join_at w address out_of_fuel = (w, out_of_fuel)

  -- `dht join`: the node is started before the id of the contact is read.
  unfoldable pub dht_join :
      Base32
      → Text
      → Text
      → World
      → Result (NodeConfig × Addresses × TrieNode)
      → World × Result (Unit {0})
  dht_join b id address w parsed =
      run_node w parsed λ w. join_at w address (lift key_error (parse_cid b id))
