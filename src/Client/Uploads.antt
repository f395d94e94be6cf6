-- ===== src/Client/Uploads.antt =====
-- The requests of dht/client.go before `validateUpload` of dht/node.go.
use inu.Base.{
  ℕ, ◌≡◌, ◌≢◌, refl, ap, ◌∙◌, Bool, [], ◌∷◌, length, Option, some, arith, Bool-cases, inl, inr,
}
use inu.Key.{Key, zero_key, key_eq, IsKey}
use inu.Key.Number.{key_eq_refl}
use inu.Key.Encoding.{Base32, IsBase32, zero_key-IsKey, marshal_b32, unmarshal_b32-marshal_b32}
use inu.Asn.{Addr}
use inu.Node.{Netip, Upload, serve, read_key, key_of, parse_ip, check_upload_key, validate_upload}
use inu.Http.{Text, Request, header_of, inu_upload}
use inu.Client.{ClientConfig, Json, put_request, upload_header}

-- The request as the node reads it: the router gives it the key of the path, and JSON the port.
abbrev pub upload_of : (Text → Option ℕ) → Text → Text → Request → Upload
upload_of unmarshal_port key remote_addr r = record {
  key = key;
  port = unmarshal_port r.body;
  remote_addr = remote_addr;
  header = header_of inu_upload r.headers;
}

read_key-marshal :
    (b : Base32) (k : Key) → IsBase32 b → IsKey k → read_key b (marshal_b32 b k) ≡ some k
read_key-marshal b k law h = ap key_of (unmarshal_b32-marshal_b32 b zero_key k law zero_key-IsKey h)

not_empty : (b : Base32) (k : Key) → IsBase32 b → IsKey k → marshal_b32 b k ≢ []
unfolding marshal_b32
not_empty b k law h e = omega (arith, law.length-encode k h.bytes h.size, ap length e)

check_upload_key-lem :
    (b : Base32) (u : Key) (found : Bool) (header : Text) (t : Key × ℕ × Addr)
    → header ≢ []
    → read_key b header ≡ some u
    → check_upload_key b u found header t ≡ serve t
unfolding check_upload_key
check_upload_key-lem b u found [] t h e = absurd (h refl)
check_upload_key-lem b u found (c ∷ header) t h e = ground (arith, e, key_eq_refl u)

checked :
    (b : Base32) (net : Netip) (u : Key) (find_peers : Key → Bool) (r : Upload) (k : Key) (port : ℕ)
    (ip : Addr)
    → read_key b r.key ≡ some k
    → r.port ≡ some port
    → parse_ip net r.remote_addr ≡ some ip
    → validate_upload b net u find_peers r
      ≡ check_upload_key b u (find_peers k) r.header (k, port, ip)
unfolding validate_upload
checked b net u find_peers r k port ip e h g = rw (e, h, g, validate_upload) refl

-- The header that `PutKey` sends.
sent : Base32 → Key → Text
sent b u = header_of inu_upload (upload_header b u)

sent_lem :
    (b : Base32) (u : Key) (found : Bool) (t : Key × ℕ × Addr)
    → IsBase32 b
    → IsKey u
    → check_upload_key b u found (sent b u) t ≡ serve t
unfolding sent check_upload_key key_eq
sent_lem b u found t law h = elim (Bool-cases (key_eq u zero_key)) [
  | inl free ↦ rw (free, check_upload_key, free) refl
  | inr closed ↦ rw (closed) (
      check_upload_key-lem b u found (marshal_b32 b u) t (not_empty b u law h)
        (read_key-marshal b u law h))
]

-- The PUT request of `PutKey` passes the checks of an upload at a node with the same upload key,
-- the zero key for none included, and whether or not the network knows the key: the node gets the
-- key, the port of the configuration and the address of the sender, if that is an IPv4 address and
-- the codecs read back what they write.
pub validate_upload-put_request :
    (b : Base32) (net : Netip) (j : Json) (unmarshal_port : Text → Option ℕ)
    (find_peers : Key → Bool) (config : ClientConfig) (address remote_addr : Text) (k : Key)
    (ip : Addr)
    → IsBase32 b
    → IsKey config.upload_key
    → IsKey k
    → unmarshal_port (j.marshal_port config.port) ≡ some config.port
    → parse_ip net remote_addr ≡ some ip
    → validate_upload b net config.upload_key find_peers
        (upload_of unmarshal_port (marshal_b32 b k) remote_addr (put_request b j config address k))
      ≡ serve (k, config.port, ip)
unfolding sent
validate_upload-put_request b net j unmarshal_port find_peers config address remote_addr k ip law u
      h port at =
    checked b net config.upload_key find_peers
      (upload_of unmarshal_port (marshal_b32 b k) remote_addr (put_request b j config address k)) k
      config.port ip (read_key-marshal b k law h) port at
    ∙ sent_lem b config.upload_key (find_peers k) (k, config.port, ip) law u
