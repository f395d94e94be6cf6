-- ===== src/Node.antt =====
-- dht/node.go: the checks that stand before its handlers. `netip`, the JSON decoder of
-- the body and the search of the network are parameters.
pub mod Router
pub mod Requests
pub mod Handlers
use inu.Base.{
  ℕ, Bool, true, false, List, [], ◌∷◌, Option, none, some, if◌then◌else◌, ok, err, panic,
  out_of_fuel,
}
use inu.Key.{Key, zero_key, key_eq}
use inu.Key.Encoding.{Base32, Result, unmarshal_b32}
use inu.Asn.{Addr, is4}

-- The status that a check answers with, or what it hands to the next handler.
pub data Verdict {ℓ} (A : Type ℓ) : Type ℓ where
  bad_request unauthorized : Verdict A
  serve : A → Verdict A

-- `netip.ParseAddr`, and the address of `netip.ParseAddrPort`.
pub record Netip : Type 0 where
  pub parse_addr : List ℕ → Option Addr
  pub parse_addr_port : List ℕ → Option Addr

-- An address that was parsed and is an IPv4 address.
abbrev pub only_ipv4 : Option Addr → Option Addr
only_ipv4 none = none
only_ipv4 (some a) = if is4 a then some a else none

-- `none` is the error "invalid ip".
unfoldable pub parse_ip : Netip → List ℕ → Option Addr
unfolding is4
parse_ip net s = elim (only_ipv4 (net.parse_addr s)) [
  | some a ↦ some a
  | none ↦ only_ipv4 (net.parse_addr_port s)
]

abbrev pub key_of : Result Key → Option Key
key_of (ok k) = some k
key_of (err e) = none
key_of panic = none
key_of out_of_fuel = none

-- The result of `k.UnmarshalB32(s)` with `k := Key{}`.
abbrev pub read_key : Base32 → List ℕ → Option Key
read_key b s = key_of (unmarshal_b32 b zero_key s)

abbrev pub swarm_verdict : Key → Option Key → Verdict (Unit {0})
swarm_verdict swarm_key none = bad_request
swarm_verdict swarm_key (some k) = if key_eq k swarm_key then serve tt else unauthorized

unfoldable pub auth_swarm_key : Base32 → Key → List ℕ → Verdict (Unit {0})
auth_swarm_key b swarm_key header = swarm_verdict swarm_key (read_key b header)

-- A PUT request as `validateUpload` reads it: the key in the path, the port that the body decodes
-- to, the address of the sender and the header `Inu-Upload`, which is empty when it is not set.
pub record Upload : Type 0 where
  pub key : List ℕ
  pub port : Option ℕ
  pub remote_addr : List ℕ
  pub header : List ℕ

-- The values that it puts into the request's context.
abbrev pub Target : Type 0
Target = Key × ℕ × Addr

-- The last check: `found` tells whether `FindPeers` returned peers of the key.
abbrev pub known : Bool → Target → Verdict Target
known found t = if found then serve t else unauthorized

-- The check of the upload key.
unfoldable pub check_upload_key : Base32 → Key → Bool → List ℕ → Target → Verdict Target
check_upload_key b upload_key found [] t =
    if key_eq upload_key zero_key then serve t else known found t
check_upload_key b upload_key found (c ∷ header) t =
    if key_eq upload_key zero_key then serve t else elim (read_key b (c ∷ header)) [
      | none ↦ bad_request
      | some k ↦ if key_eq k upload_key then serve t else known found t
    ]

unfoldable pub validate_upload : Base32 → Netip → Key → (Key → Bool) → Upload → Verdict Target
unfolding check_upload_key parse_ip
validate_upload b net upload_key find_peers r = elim (read_key b r.key) [
  | none ↦ bad_request
  | some k ↦ elim r.port [
    | none ↦ bad_request
    | some port ↦ elim (parse_ip net r.remote_addr) [
      | none ↦ bad_request
      | some ip ↦ check_upload_key b upload_key (find_peers k) r.header (k, port, ip)
    ]
  ]
]
