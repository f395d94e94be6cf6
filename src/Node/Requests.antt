-- ===== src/Node/Requests.antt =====
-- What passes the checks of dht/node.go.
use inu.Base.{
  ℕ, ◌≡◌, ◌↔◌, ◌⊎◌, inl, inr, ◌≢◌, subst, refl, ap, ◌∙◌, Bool, true, List, [], ◌∷◌, Option, none,
  some, ok, err, panic, out_of_fuel, arith, Bool-cases, Option-cases,
}
use inu.Key.{Key, zero_key, key_eq}
use inu.Key.Number.{key_eq_iff}
use inu.Key.Encoding.{Result, Base32, unmarshal_b32}
use inu.Asn.{Addr, v4, v6, invalid, is4}
use inu.Node.{
  serve, Netip, only_ipv4, parse_ip, key_of, swarm_verdict, read_key, auth_swarm_key, Upload,
  Target, check_upload_key, validate_upload,
}

swarm_verdict_lem :
    (swarm_key : Key) (r : Result Key)
    → (swarm_verdict swarm_key (key_of r) ≡ serve tt) ↔ (r ≡ ok swarm_key)
swarm_verdict_lem swarm_key (ok k) = ground (arith, key_eq_iff k swarm_key)
swarm_verdict_lem swarm_key (err e) = ground arith
swarm_verdict_lem swarm_key panic = ground arith
swarm_verdict_lem swarm_key out_of_fuel = ground arith

-- The middleware for the calls between nodes lets a request pass just when its header is read as a
-- key, and that key is the swarm key.
pub auth_swarm_key-serve :
    (b : Base32) (swarm_key : Key) (header : List ℕ)
    → (auth_swarm_key b swarm_key header ≡ serve tt)
      ↔ (unmarshal_b32 b zero_key header ≡ ok swarm_key)
unfolding auth_swarm_key
auth_swarm_key-serve b swarm_key header =
    swarm_verdict_lem swarm_key (unmarshal_b32 b zero_key header)

only_ipv4-v4 : (o : Option Addr) (a : Addr) → only_ipv4 o ≡ some a → (buf : List ℕ) × (a ≡ v4 buf)
unfolding is4
only_ipv4-v4 none a e = cc
only_ipv4-v4 (some (v4 buf)) a e = (buf, ground (arith, e))
only_ipv4-v4 (some (v6 buf)) a e = cc
only_ipv4-v4 (some invalid) a e = cc

parse_ip-v4 :
    (net : Netip) (s : List ℕ) (a : Addr) → parse_ip net s ≡ some a → (buf : List ℕ) × (a ≡ v4 buf)
unfolding parse_ip
parse_ip-v4 net s a e = elim (Option-cases (only_ipv4 (net.parse_addr s))) [
  | inl h ↦ only_ipv4-v4 (net.parse_addr_port s) a (ground (arith, h, e))
  | inr (x, h) ↦ only_ipv4-v4 (net.parse_addr s) a (ground (arith, h, e))
]

-- Who may upload: anyone when no upload key is set, who shows the upload key, and, with no key or
-- with another one, who adds a key that the network knows.
abbrev pub Allowed : Base32 → Key → Bool → List ℕ → Type 0
Allowed b upload_key found header =
    (upload_key ≡ zero_key)
    ⊎ (((header ≢ []) × (read_key b header ≡ some upload_key))
        ⊎ (((header ≡ []) ⊎ ((j : Key) × (read_key b header ≡ some j))) × (found ≡ true)))

-- A request that is well formed, from an IPv4 address, and allowed.
pub record Accepted (b : Base32) (net : Netip) (upload_key : Key) (find_peers : Key → Bool)
    (r : Upload) (t : Target) : Type 0 where
  pub key : read_key b r.key ≡ some t.0
  pub port : r.port ≡ some t.1
  pub ip : parse_ip net r.remote_addr ≡ some t.2
  pub ipv4 : (buf : List ℕ) × (t.2 ≡ v4 buf)
  pub allowed : Allowed b upload_key (find_peers t.0) r.header

check_lem :
    (b : Base32) (upload_key : Key) (found : Bool) (header : List ℕ) (t u : Target)
    → check_upload_key b upload_key found header t ≡ serve u
    → (t ≡ u) × Allowed b upload_key found header
unfolding check_upload_key
check_lem b upload_key found [] t u e = elim (Bool-cases (key_eq upload_key zero_key)) [
  | inl z ↦ (ground (arith, e, z), inl ((key_eq_iff upload_key zero_key).0 z))
  | inr z ↦ elim (Bool-cases found) [
    | inl f ↦ (ground (arith, e, z, f), inr (inr (inl refl, f)))
    | inr f ↦ absurd (ground (arith, e, z, f))
  ]
]
check_lem b upload_key found (c ∷ header) t u e = elim (Bool-cases (key_eq upload_key zero_key)) [
  | inl z ↦ (ground (arith, e, z), inl ((key_eq_iff upload_key zero_key).0 z))
  | inr z ↦ elim (Option-cases (read_key b (c ∷ header))) [
    | inl n ↦ absurd (ground (arith, e, z, n))
    | inr (k, n) ↦ elim (Bool-cases (key_eq k upload_key)) [
      | inl s ↦ (
        ground (arith, e, z, n, s),
        inr (inl (λ h. cc, n ∙ ap some ((key_eq_iff k upload_key).0 s))),
      )
      | inr s ↦ elim (Bool-cases found) [
        | inl f ↦ (ground (arith, e, z, n, s, f), inr (inr (inr (k, n), f)))
        | inr f ↦ absurd (ground (arith, e, z, n, s, f))
      ]
    ]
  ]
]

-- `validateUpload` hands on only a request that is well formed, from an IPv4 address, and allowed:
-- no upload key is set, or the request shows it, or it shows another one or none and the network
-- knows the key; and it hands on what it read.
pub validate_upload-Accepted :
    (b : Base32) (net : Netip) (upload_key : Key) (find_peers : Key → Bool) (r : Upload)
    (t : Target)
    → validate_upload b net upload_key find_peers r ≡ serve t
    → Accepted b net upload_key find_peers r t
unfolding validate_upload
validate_upload-Accepted b net upload_key find_peers r t e =
    elim (Option-cases (read_key b r.key)) [
      | inl n ↦ absurd (ground (arith, e, n))
      | inr (k, hk) ↦ elim (Option-cases r.port) [
        | inl n ↦ absurd (ground (arith, e, hk, n))
        | inr (port, hp) ↦ elim (Option-cases (parse_ip net r.remote_addr)) [
          | inl n ↦ absurd (ground (arith, e, hk, hp, n))
          | inr (ip, hi) ↦
              let ran : check_upload_key b upload_key (find_peers k) r.header (k, port, ip)
                  ≡ serve t =
                ground (arith, e, hk, hp, hi) in
              let (same, allowed) =
                check_lem b upload_key (find_peers k) r.header (k, port, ip) t ran in
              let v = parse_ip-v4 net r.remote_addr ip hi in
              subst (Accepted b net upload_key find_peers r) same
                (record { key = hk; port = hp; ip = hi; ipv4 = v; allowed = allowed })
        ]
      ]
    ]
