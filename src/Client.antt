-- ===== src/Client.antt =====
-- dht/client.go: how a daemon finds and announces peers. JSON is a parameter, and so is the node that
-- `rand.Intn` chooses.
pub mod Uploads
use inu.Base.{
  ℕ, Bool, true, false, List, [], ◌∷◌, ◌++◌, Option, none, some, if◌then◌else◌, Run, ok, err, panic,
  out_of_fuel, ◌>>=◌,
}
use inu.Key.{Key, zero_key, key_eq}
use inu.Key.Encoding.{Base32, marshal_b32}
use inu.PeerStore.{Peer}
use inu.Http.{Text, Request, Http, Result, get, put, body_of, decoded, https, inu_upload}

pub record ClientConfig : Type 0 where
  pub port : ℕ
  pub nodes : List Text
  pub upload_key : Key

pub record Json : Type 0 where
  pub marshal_port : ℕ → Text
  pub unmarshal_peers : Text → Option (List Peer)

-- `c.config.Nodes[rand.Intn(len(c.config.Nodes))]`: no node is a panic. `pick` is the choice.
abbrev pub choose : (ℕ → List Text → Text) → ℕ → List Text → Result Text
choose pick seed [] = panic
choose pick seed (n ∷ ns) = ok (pick seed (n ∷ ns))

-- "/key/"
abbrev pub key_path : Text
key_path = 47 ∷ 107 ∷ 101 ∷ 121 ∷ 47 ∷ []

abbrev pub url_of : Base32 → Text → Key → Text
url_of b address k = https ++ (address ++ (key_path ++ marshal_b32 b k))

-- The end of `FindPeers`.
abbrev pub some_peers : List Peer → Result (List Peer)
some_peers [] = panic
some_peers (p ∷ ps) = ok (p ∷ ps)

abbrev pub upload_header : Base32 → Key → List (Text × Text)
upload_header b upload_key =
    if key_eq upload_key zero_key then [] else (inu_upload, marshal_b32 b upload_key) ∷ []

abbrev pub get_request : Base32 → Text → Key → Request
get_request b address k = record { method = get; url = url_of b address k; headers = []; body = [] }

abbrev pub put_request : Base32 → Json → ClientConfig → Text → Key → Request
put_request b j config address k = record {
  method = put;
  url = url_of b address k;
  headers = upload_header b config.upload_key;
  body = j.marshal_port config.port;
}

module _ {World : Type 0} (http : Http World) (b : Base32) (j : Json) (config : ClientConfig) where
  -- The request goes to the chosen node.
  abbrev pub send_to : World → Result Text → (Text → Request) → World × Result Text
  send_to w (ok address) request =
      let (w', answer) = http.send w (request address) in (w', body_of answer)
  send_to w (err e) request = (w, err e)
  send_to w panic request = (w, panic)
  send_to w out_of_fuel request = (w, out_of_fuel)

  unfoldable pub find_peers : (ℕ → List Text → Text) → World → ℕ → Key → World × Result (List Peer)
  find_peers pick w seed k =
      let (w', body) =
        send_to w (choose pick seed config.nodes) (λ address. get_request b address k) in
      (w', do text ← body; ps ← decoded (j.unmarshal_peers text); some_peers ps)

  unfoldable pub put_key : (ℕ → List Text → Text) → World → ℕ → Key → World × Result (Unit {0})
  put_key pick w seed k =
      let (w', body) =
        send_to w (choose pick seed config.nodes) (λ address. put_request b j config address k) in
      (w', do _ ← body; ok tt)
