-- ===== src/Rpc.antt =====
-- dht/rpc.go: the calls that a node makes to others. JSON is a parameter.
pub mod Requests
use inu.Base.{
  ℕ, String, List, [], ◌∷◌, ◌++◌, Option, none, some, Run, ok, err, panic, out_of_fuel, ◌>>=◌,
}
use inu.Key.{Key}
use inu.Key.Encoding.{Base32, marshal_b32}
use inu.Contact.{Contact}
use inu.PeerStore.{Peer}
use inu.Node.Handlers.{FindPeersResp}
use inu.Http.{
  Text, Request, Response, Http, Result, get, post, body_of, decoded, https, inu_src, inu_swarm,
}

-- `text_of` gives the characters of an address.
pub record Json : Type 0 where
  pub text_of : String → Text
  pub marshal_contact : Contact → Text
  pub marshal_pair : Key → List Peer → Text
  pub unmarshal_contacts : Text → Option (List Contact)
  pub unmarshal_peers : Text → Option FindPeersResp

pub record RpcClient : Type 0 where
  pub src_header : Text
  pub swarm_header : Text

-- "rpc/ping"
abbrev pub rpc_ping : Text
rpc_ping = 114 ∷ 112 ∷ 99 ∷ 47 ∷ 112 ∷ 105 ∷ 110 ∷ 103 ∷ []

-- "rpc/store"
abbrev pub rpc_store : Text
rpc_store = 114 ∷ 112 ∷ 99 ∷ 47 ∷ 115 ∷ 116 ∷ 111 ∷ 114 ∷ 101 ∷ []

-- "rpc/find-node/"
abbrev pub rpc_find_node : Text
rpc_find_node = 114 ∷ 112 ∷ 99 ∷ 47 ∷ 102 ∷ 105 ∷ 110 ∷ 100 ∷ 45 ∷ 110 ∷ 111 ∷ 100 ∷ 101 ∷ 47 ∷ []

-- "rpc/find-peers/"
abbrev pub rpc_find_peers : Text
rpc_find_peers =
    114 ∷ 112 ∷ 99 ∷ 47 ∷ 102 ∷ 105 ∷ 110 ∷ 100 ∷ 45 ∷ 112 ∷ 101 ∷ 101 ∷ 114 ∷ 115 ∷ 47 ∷ []

-- `newRpc`; a contact always has a JSON text.
abbrev pub new_rpc : Base32 → Json → Contact → Key → RpcClient
new_rpc b j c swarm_key = record {
  src_header = j.marshal_contact c;
  swarm_header = marshal_b32 b swarm_key;
}

abbrev pub headers_of : RpcClient → List (Text × Text)
headers_of rpc = (inu_src, rpc.src_header) ∷ (inu_swarm, rpc.swarm_header) ∷ []

abbrev pub url_of : Text → Text → Text
url_of address endpoint = https ++ (address ++ (47 ∷ endpoint))

-- The request of `postJSON`, with the marshalled data.
abbrev pub post_request : RpcClient → Text → Text → Text → Request
post_request rpc address endpoint text = record {
  method = post;
  url = url_of address endpoint;
  headers = headers_of rpc;
  body = text;
}

-- The request of `getJSON`.
abbrev pub get_request : RpcClient → Text → Text → Request
get_request rpc address endpoint = record {
  method = get;
  url = url_of address endpoint;
  headers = headers_of rpc;
  body = [];
}

module _ {World : Type 0} (http : Http World) (b : Base32) (j : Json) (rpc : RpcClient) where
  unfoldable pub post_json : World → Text → Text → Text → World × Result Text
  post_json w address endpoint text =
      let (w', answer) = http.send w (post_request rpc address endpoint text) in
      (w', body_of answer)

  unfoldable pub get_json : World → Text → Text → World × Result Text
  get_json w address endpoint =
      let (w', answer) = http.send w (get_request rpc address endpoint) in (w', body_of answer)

  unfoldable pub ping : World → Contact → World × Result (Unit {0})
  unfolding get_json
  ping w dst =
      let (w', body) = get_json w (j.text_of dst.address) rpc_ping in (w', do _ ← body; ok tt)

  unfoldable pub store : World → Contact → Key → List Peer → World × Result (Unit {0})
  unfolding post_json
  store w dst k ps =
      let (w', body) = post_json w (j.text_of dst.address) rpc_store (j.marshal_pair k ps) in
      (w', do _ ← body; ok tt)

  unfoldable pub find_node : World → Contact → Key → World × Result (List Contact)
  unfolding get_json
  find_node w dst k =
      let (w', body) = get_json w (j.text_of dst.address) (rpc_find_node ++ marshal_b32 b k) in
      (w', do text ← body; decoded (j.unmarshal_contacts text))

  unfoldable pub find_peers : World → Contact → Key → World × Result FindPeersResp
  unfolding get_json
  find_peers w dst k =
      let (w', body) = get_json w (j.text_of dst.address) (rpc_find_peers ++ marshal_b32 b k) in
      (w', do text ← body; decoded (j.unmarshal_peers text))
