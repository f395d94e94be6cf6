-- ===== src/Node/Handlers.antt =====
-- Handlers of dht/node.go. A handler is one step of the node: the JSON of a request and of a reply
-- is a parameter, and the calls of the network that a handler starts run after it.
pub mod FindPeers
use inu.Base.{
  ℕ, Bool, true, false, List, [], ◌∷◌, Option, none, some, Run, ok, err, panic, out_of_fuel, ◌>>=◌,
  ℤ, pos, negsuc, int_eq, ltb, length, take, if◌then◌else◌,
}
use inu.Key.{Key}
use inu.Key.Encoding.{Base32}
use inu.Contact.{Contact}
use inu.Asn.{TrieNode, Addr, match, Result}
use inu.PeerStore.{Peer, PeerStore, Time, get, put}
use inu.PeerStore
use inu.Routing.Table.{RoutingTable, find_closest_nodes}
use inu.Node.{Verdict, bad_request, serve, read_key, Target, Netip, parse_ip}

pub record FindPeersResp : Type 0 where
  pub found : Bool
  pub peers : List Peer
  pub contacts : List Contact

-- The fields of `Node` that the handlers use.
pub record Node : Type 0 where
  pub rt : RoutingTable
  pub peer_store : PeerStore
  pub asn_trie : TrieNode

-- `src` is the id that the caller gave for itself.
unfoldable pub handle_find_node : Base32 → Node → List ℕ → Key → Verdict (List Contact)
handle_find_node b n text src = elim (read_key b text) [
  | none ↦ bad_request
  | some k ↦ serve (find_closest_nodes n.rt k src)
]

abbrev pub resp_of : List Contact → Run PeerStore.Error (List Peer) → FindPeersResp
resp_of cs (ok ps) = record { found = true; peers = ps; contacts = [] }
resp_of cs (err e) = record { found = false; peers = []; contacts = cs }
resp_of cs panic = record { found = false; peers = []; contacts = cs }
resp_of cs out_of_fuel = record { found = false; peers = []; contacts = cs }

-- `now p` is the reading of the clock for the stored peer `p`.
unfoldable pub handle_find_peers :
    Base32 → Node → List ℕ → Key → (Peer → ℕ) → Node × Verdict FindPeersResp
handle_find_peers b n text src now = elim (read_key b text) [
  | none ↦ (n, bad_request)
  | some k ↦
      let (store, r) = get n.peer_store k now in
      (record n { peer_store = store }, serve (resp_of (find_closest_nodes n.rt k src) r))
]

-- The decoded body, if it decodes.
unfoldable pub handle_store : Node → Option (Key × List Peer) → Node × Verdict (Unit {0})
handle_store n none = (n, bad_request)
handle_store n (some (k, ps)) = (record n { peer_store = put n.peer_store k ps }, serve tt)

-- The request passed `validateUpload`. The new peer goes on to the network after the reply.
unfoldable pub handle_key_put : Node → Target → Time → Result (Node × List Peer)
handle_key_put n (k, port, ip) now = do
  (asn, _) ← match n.asn_trie ip
  let ps = record { ip = ip; port = port; asn = asn; published = now } ∷ []
  ok (record n { peer_store = put n.peer_store k ps }, ps)

-- The comparison that `handleKeyGet` sorts with.
abbrev pub by_asn : ℤ → Peer → Peer → ℤ
by_asn asn a b = if int_eq asn a.asn then negsuc 0 else pos 1

abbrev pub first_peers : ℕ → List Peer → List Peer
first_peers k ps = if ltb k (length ps) then take k ps else ps

-- What `handleKeyGet` answers: a status, with `serve none` for 404, or at most `k` peers. `find_peers` is `FindPeers` of the node,
-- and `sort` is `slices.SortStableFunc` with the test that puts a peer of the caller's number first.
unfoldable pub handle_key_get :
    Base32
    → Netip
    → TrieNode
    → ℕ
    → ((Peer → Peer → ℤ) → List Peer → List Peer)
    → List ℕ
    → List ℕ
    → (Key → Option (List Peer))
    → Result (Verdict (Option (List Peer)))
handle_key_get b net trie k sort text remote_addr find_peers = elim (read_key b text) [
  | none ↦ ok bad_request
  | some key ↦ elim (parse_ip net remote_addr) [
    | none ↦ ok bad_request
    | some ip ↦ do
      (asn, _) ← match trie ip
      elim (find_peers key) [
        | none ↦ ok (serve none)
        | some ps ↦ ok (serve (some (first_peers k (sort (by_asn asn) ps))))
      ]
  ]
]

-- The source of a call: the contact of the header goes on to the next handler, and to the table.
unfoldable pub parse_src : Option Contact → Verdict Contact
parse_src none = bad_request
parse_src (some c) = serve c
