-- ===== src/Tests/Requests.antt =====
-- Runs and instances for the checks of dht/node.go.
use inu.Base.{ℕ, arith, Option, ◌≡◌, refl, Bool, [], ◌∷◌, none, some}
use inu.Key.{Key, key_eq}
use inu.Key.Encoding.{unmarshal_b32, marshal_b32}
use inu.Asn.{v4, is4}
use inu.Node.{Netip, parse_ip, Upload, Target, serve, unauthorized, validate_upload}
use inu.Node.Requests.{Accepted, validate_upload-Accepted}
use inu.Tests.Keys.{padded, padded-IsBase32, small_key, small_key-IsKey}
use inu.Contact.{Contact}
use inu.Http.{Text}
use inu.Rpc
use inu.Rpc.{new_rpc, get_request, post_request}
use inu.Client
use inu.Client.{ClientConfig, put_request}
use inu.Client.Uploads
use inu.Client.Uploads.{validate_upload-put_request}

abbrev any_host : Netip
any_host = record { parse_addr = λ s. some (v4 s); parse_addr_port = λ s. none }

abbrev knows_nine : Key → Bool
knows_nine k = key_eq k (small_key 9)

abbrev upload_of : ℕ → Upload
upload_of n = record {
  key = marshal_b32 padded (small_key n);
  port = some 4000;
  remote_addr = 10 ∷ 0 ∷ 0 ∷ 1 ∷ [];
  header = [];
}

abbrev target : Target
target = (small_key 9, 4000, v4 (10 ∷ 0 ∷ 0 ∷ 1 ∷ []))

accepts_known :
    validate_upload padded any_host (small_key 1) knows_nine (upload_of 9) ≡ serve target
unfolding validate_upload unmarshal_b32 marshal_b32 key_eq is4
accepts_known = refl

refuses_unknown :
    validate_upload padded any_host (small_key 1) knows_nine (upload_of 8) ≡ unauthorized
unfolding validate_upload unmarshal_b32 marshal_b32 key_eq is4
refuses_unknown = refl

validate_upload-Accepted_example :
    Accepted padded any_host (small_key 1) knows_nine (upload_of 9) target
validate_upload-Accepted_example =
    validate_upload-Accepted padded any_host (small_key 1) knows_nine (upload_of 9) target
      accepts_known

abbrev any_contact : Contact
any_contact = record { id = small_key 2; address = "10.0.0.1:3000" }

abbrev json : Rpc.Json
json = record {
  text_of = λ a. [];
  marshal_contact = λ c. c.id;
  marshal_pair = λ k ps. k;
  unmarshal_contacts = λ t. none;
  unmarshal_peers = λ t. none;
}

abbrev ports : Client.Json
ports = record { marshal_port = λ p. p ∷ []; unmarshal_peers = λ t. none }

abbrev read_port : Text → Option ℕ
read_port [] = none
read_port (p ∷ t) = some p

abbrev config : ClientConfig
config = record { port = 6000; nodes = []; upload_key = small_key 7 }

validate_upload-put_request_example :
    validate_upload padded any_host (small_key 7) knows_nine (
      Uploads.upload_of read_port
        (marshal_b32 padded (small_key 3))
        (10 ∷ 0 ∷ 0 ∷ 1 ∷ [])
        (put_request padded ports config [] (small_key 3)))
    ≡ serve (small_key 3, 6000, v4 (10 ∷ 0 ∷ 0 ∷ 1 ∷ []))
unfolding is4 parse_ip
validate_upload-put_request_example =
    validate_upload-put_request padded any_host ports read_port knows_nine config []
      (10 ∷ 0 ∷ 0 ∷ 1 ∷ []) (small_key 3) (v4 (10 ∷ 0 ∷ 0 ∷ 1 ∷ [])) padded-IsBase32
      (small_key-IsKey 7 (omega arith)) (small_key-IsKey 3 (omega arith)) refl refl
