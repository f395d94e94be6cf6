-- ===== src/Tests/Handlers.antt =====
-- Runs and instances for the handlers of dht/node.go.
use inu.Base.{◌≡◌, refl, some, arith}
use inu.Key.{set_bytes}
use inu.Key.Encoding.{unmarshal_b32, marshal_b32}
use inu.Asn.{new_node}
use inu.Routing.Table.New.{high_key}
use inu.Node.{read_key}
use inu.Node.Handlers.{Node, handle_find_peers}
use inu.Node.Handlers.FindPeers.{Served, handle_find_peers-Served}
use inu.Tests.Keys.{padded, small_key, small_key-IsKey}
use inu.Tests.Stores.{two_peers, two_peers-IsValid}
use inu.Tests.Tables.{start, start-Covers}

abbrev node : Node
node = record { rt = start; peer_store = two_peers; asn_trie = new_node }

one_text : read_key padded (marshal_b32 padded (small_key 1)) ≡ some (small_key 1)
unfolding unmarshal_b32 marshal_b32
one_text = refl

handle_find_peers-Served_example :
    Served padded node
      (marshal_b32 padded (small_key 1))
      (small_key 1)
      (small_key 3)
      (λ p. 25)
      (handle_find_peers padded node (marshal_b32 padded (small_key 1)) (small_key 3) (λ p. 25))
handle_find_peers-Served_example =
    handle_find_peers-Served padded node (marshal_b32 padded (small_key 1)) (small_key 1)
      (small_key 3) (λ p. 25) (set_bytes (high_key 2)) one_text (small_key-IsKey 1 (omega arith))
      two_peers-IsValid start-Covers
