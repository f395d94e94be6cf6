-- ===== src/Cmd/Daemons.antt =====
-- What `parseDaemonConfig` of cmd/inu/peer.go returns.
use inu.Base.{
  ◌^◌, ℕ, ◌<◌, ◌≡◌, ◌≢◌, ◌⊎◌, refl, List, [], ◌∷◌, Option, none, some, ok, arith, >>=-eq-ok, inl,
  inr, subst,
}
use inu.Http.{Text}
use inu.Config.{DaemonConfig, default_daemon_config, parse_uint16}
use inu.Config.Decimal.{parse_uint-lt}
use inu.Cmd.{
  System, Environment, Result, with_file, override, or_err, set_nodes, set_rpc_port,
  parse_daemon_config, bad_port, node_config, set_node_id,
}

-- The value of a variable, or else what was there.
abbrev pub chosen : Text → Text → Text
chosen [] old = old
chosen (x ∷ text) old = x ∷ text

-- A variable that is read, and its value in the configuration.
abbrev pub IsRead : {A : Type 0} → Text → (Text → Option A) → A → A → Type 0
IsRead text read old new = ((text ≡ []) × (new ≡ old)) ⊎ ((text ≢ []) × (read text ≡ some new))

-- What the variables make of a configuration.
pub record Overridden (sys : System) (env : Environment) (c d : DaemonConfig) : Type 0 where
  pub store_path : d.store_path ≡ chosen env.store_path c.store_path
  pub public_ip : d.public_ip ≡ chosen env.public_ip c.public_ip
  pub host : d.host ≡ c.host
  pub client_port : d.client.port ≡ c.client.port
  pub upload_key : d.client.upload_key ≡ c.client.upload_key
  pub nodes : IsRead env.dht_nodes sys.decode_nodes c.client.nodes d.client.nodes
  pub rpc_port : IsRead env.rpc_port parse_uint16 c.rpc_port d.rpc_port

override-ok :
    {C : Type 0} (text : Text) (f : Text → C → Result C) (c d : C)
    → override text f c ≡ ok d
    → ((text ≡ []) × (c ≡ d)) ⊎ ((text ≢ []) × (f text c ≡ ok d))
override-ok [] f c d e = inl (refl, ground (arith, e))
override-ok (x ∷ text) f c d e = inr ((λ z. cc), e)

or_err-ok : {A : Type 0} (e : inu.Cmd.Error) (o : Option A) (x : A) → or_err e o ≡ ok x → o ≡ some x
or_err-ok e none x h = cc
or_err-ok e (some y) x h = ground (arith, h)

set_nodes-ok :
    (sys : System) (text : Text) (c d : DaemonConfig)
    → set_nodes sys text c ≡ ok d
    → (ns : List Text) × (sys.decode_nodes text ≡ some ns)
      × (record c { client = record c.client { nodes = ns } } ≡ d)
set_nodes-ok sys text c d e =
    let (ns, read, done) =
      >>=-eq-ok (or_err inu.Cmd.bad_json (sys.decode_nodes text))
        (λ ns. ok (record c { client = record c.client { nodes = ns } })) e in
    (ns, or_err-ok _ _ ns read, ground (arith, done))

set_rpc_port-ok :
    (text : Text) (c d : DaemonConfig)
    → set_rpc_port text c ≡ ok d
    → (p : ℕ) × (parse_uint16 text ≡ some p) × (record c { rpc_port = p } ≡ d)
set_rpc_port-ok text c d e =
    let (p, read, done) =
      >>=-eq-ok (or_err bad_port (parse_uint16 text)) (λ p. ok (record c { rpc_port = p })) e in
    (p, or_err-ok _ _ p read, ground (arith, done))

nodes-IsRead :
    (sys : System) (text : Text) (c d : DaemonConfig)
    → override text (set_nodes sys) c ≡ ok d
    → (ns : List Text) × IsRead text sys.decode_nodes c.client.nodes ns
      × (record c { client = record c.client { nodes = ns } } ≡ d)
nodes-IsRead sys text c d e = elim (override-ok text (set_nodes sys) c d e) [
  | inl (unset, same) ↦ (c.client.nodes, inl (unset, refl), same)
  | inr (is_set, set) ↦
      let (ns, read, done) = set_nodes-ok sys text c d set in (ns, inr (is_set, read), done)
]

port-IsRead :
    (text : Text) (c d : DaemonConfig)
    → override text set_rpc_port c ≡ ok d
    → (p : ℕ) × IsRead text parse_uint16 c.rpc_port p × (record c { rpc_port = p } ≡ d)
port-IsRead text c d e = elim (override-ok text set_rpc_port c d e) [
  | inl (unset, same) ↦ (c.rpc_port, inl (unset, refl), same)
  | inr (is_set, set) ↦
      let (p, read, done) = set_rpc_port-ok text c d set in (p, inr (is_set, read), done)
]

store_read :
    (text : Text) (c d : DaemonConfig)
    → override text (λ t c. ok (record c { store_path = t })) c ≡ ok d
    → record c { store_path = chosen text c.store_path } ≡ d
store_read [] c d e = ground (arith, e)
store_read (x ∷ text) c d e = ground (arith, e)

ip_read :
    (text : Text) (c d : DaemonConfig)
    → override text (λ t c. ok (record c { public_ip = t })) c ≡ ok d
    → record c { public_ip = chosen text c.public_ip } ≡ d
ip_read [] c d e = ground (arith, e)
ip_read (x ∷ text) c d e = ground (arith, e)

-- A configuration that `parseDaemonConfig` returns is the one of the file, or else the default one,
-- with each variable that is set in the place of its field: the store's path and the public IP as they
-- stand, the nodes as their JSON reads and the port as the number of 16 bits that it spells.
pub parse_daemon_config-Overridden :
    (sys : System) (env : Environment) (path : Text) (d : DaemonConfig)
    → parse_daemon_config sys env path ≡ ok d
    → (c : DaemonConfig) × (with_file sys sys.decode_daemon path default_daemon_config ≡ ok c)
      × Overridden sys env c d
unfolding parse_daemon_config
parse_daemon_config-Overridden sys env path d e =
    let (c, filed, e1) =
      >>=-eq-ok (with_file sys sys.decode_daemon path default_daemon_config) _ e in
    let (c1, r1, e2) = >>=-eq-ok (override env.dht_nodes (set_nodes sys) c) _ e1 in
    let (c2, r2, e3) =
      >>=-eq-ok (override env.store_path (λ text c. ok (record c { store_path = text })) c1) _ e2 in
    let (c3, r3, r4) =
      >>=-eq-ok (override env.public_ip (λ text c. ok (record c { public_ip = text })) c2) _ e3 in
    let (ns, nodes, h1) = nodes-IsRead sys env.dht_nodes c c1 r1 in
    let h2 = store_read env.store_path c1 c2 r2 in
    let h3 = ip_read env.public_ip c2 c3 r3 in
    let (p, port, h4) = port-IsRead env.rpc_port c3 d r4 in
    let told = λ (z : DaemonConfig).
      IsRead env.rpc_port parse_uint16 z.rpc_port p
      → Overridden sys env c (record z { rpc_port = p }) in
    let named =
      λ (z : DaemonConfig). told (record z { public_ip = chosen env.public_ip z.public_ip }) in
    let stored =
      λ (z : DaemonConfig). named (record z { store_path = chosen env.store_path z.store_path }) in
    let all : stored (record c { client = record c.client { nodes = ns } }) = λ port. record {
      store_path = refl;
      public_ip = refl;
      host = refl;
      client_port = refl;
      upload_key = refl;
      nodes = nodes;
      rpc_port = port;
    } in
    (
      c,
      filed,
      subst (Overridden sys env c) h4 (subst told h3 (subst named h2 (subst stored h1 all)) port),
    )

-- Every port that `parseDaemonConfig` returns has 16 bits, when JSON reads 16 bits into a port.
pub parse_daemon_config-small :
    (sys : System) (env : Environment) (path : Text) (d : DaemonConfig)
    → ((text : Text) (c c' : DaemonConfig)
        → sys.decode_daemon text c ≡ some c'
        → (c'.client.port < 65536) × (c'.rpc_port < 65536))
    → parse_daemon_config sys env path ≡ ok d
    → (d.client.port < 65536) × (d.rpc_port < 65536)
parse_daemon_config-small sys env path d law e =
    let (c, filed, o) = parse_daemon_config-Overridden sys env path d e in
    let (port, rpc) = with_file_small sys path c law filed in
    (
      omega (arith, o.client_port, port),
      elim o.rpc_port [
        | inl (unset, same) ↦ omega (arith, same, rpc)
        | inr (is_set, read) ↦ parse_uint-lt (2 ^ 16) env.rpc_port d.rpc_port read
      ],
    )
  where
    with_file_small :
        (sys : System) (path : Text) (c : DaemonConfig)
        → ((text : Text) (c c' : DaemonConfig)
            → sys.decode_daemon text c ≡ some c'
            → (c'.client.port < 65536) × (c'.rpc_port < 65536))
        → with_file sys sys.decode_daemon path default_daemon_config ≡ ok c
        → (c.client.port < 65536) × (c.rpc_port < 65536)
    with_file_small sys [] c law e =
        let same : default_daemon_config ≡ c = ground (arith, e) in
        subst (λ z. (z.client.port < 65536) × (z.rpc_port < 65536)) same (omega arith, omega arith)
    with_file_small sys (x ∷ path) c law e =
        let (text, read, parsed) =
          >>=-eq-ok (or_err inu.Cmd.bad_file (sys.read_file (x ∷ path))) _ e in
        law text default_daemon_config c (or_err-ok _ _ c parsed)
