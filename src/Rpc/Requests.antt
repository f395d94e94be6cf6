-- ===== src/Rpc/Requests.antt =====
-- The requests of dht/rpc.go before the checks of dht/node.go that receive them.
use inu.Base.{◌≡◌, ◌≢◌, sym, ◌∙◌, arith}
use inu.Key.{Key, zero_key, key_eq, IsKey}
use inu.Key.Encoding.{Base32, IsBase32, zero_key-IsKey, marshal_b32, unmarshal_b32-marshal_b32}
use inu.Contact.{Contact}
use inu.Node.{serve, auth_swarm_key}
use inu.Node.Requests.{auth_swarm_key-serve}
use inu.Http.{Text, header_of, inu_swarm}
use inu.Rpc.{Json, new_rpc, get_request, post_request}

-- Every request of a node passes the check of the swarm key at a node with the same key.
pub auth_swarm_key-request :
    (b : Base32) (j : Json) (c : Contact) (swarm_key : Key) (address endpoint text : Text)
    → IsBase32 b
    → IsKey swarm_key
    → let rpc = new_rpc b j c swarm_key in
      (auth_swarm_key b swarm_key (header_of inu_swarm (get_request rpc address endpoint).headers)
        ≡ serve tt)
      × (auth_swarm_key b swarm_key
            (header_of inu_swarm (post_request rpc address endpoint text).headers)
          ≡ serve tt)
unfolding key_eq
auth_swarm_key-request b j c swarm_key address endpoint text law k =
    let passes =
      (auth_swarm_key-serve b swarm_key (marshal_b32 b swarm_key)).1
        (unmarshal_b32-marshal_b32 b zero_key swarm_key law zero_key-IsKey k) in
    (passes, passes)

-- And a node with another swarm key does not serve them.
pub auth_swarm_key-stranger :
    (b : Base32) (j : Json) (c : Contact) (own other : Key) (address endpoint : Text)
    → IsBase32 b
    → IsKey own
    → own ≢ other
    → auth_swarm_key b other
        (header_of inu_swarm (get_request (new_rpc b j c own) address endpoint).headers)
      ≢ serve tt
unfolding key_eq
auth_swarm_key-stranger b j c own other address endpoint law k differ e =
    let read = (auth_swarm_key-serve b other (marshal_b32 b own)).0 e in
    let same : own ≡ other =
      ground (arith, sym (unmarshal_b32-marshal_b32 b zero_key own law zero_key-IsKey k) ∙ read) in
    differ same
