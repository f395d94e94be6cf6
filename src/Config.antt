-- ===== src/Config.antt =====
-- The configurations of dht/node.go, dht/client.go and daemon.go, what `NewNode` and `NewDaemon` make
-- of them, and the decimal numbers of addresses and of ports. A duration is its nanoseconds.
pub mod Decimal
use inu.Base.{
  ℕ, zero, suc, ◌+◌, ◌*◌, ◌-◌, ◌/◌, ◌%◌, ◌^◌, Bool, true, false, ◌&&◌, List, [], ◌∷◌, ◌++◌, Option,
  none, some, ltb, leb, if◌then◌else◌, Run, ok, panic, ℤ, pos,
}
use inu.Key.{Key, zero_key}
use inu.Http.{Text}
use inu.Client.{ClientConfig}

-- `%d` of a number, which has at most as many digits as it counts, and one for 0.
unfoldable pub digits : ℕ → ℕ → Text
digits zero n = []
digits (suc f) n =
    let front = digits f (n / 10) in
    if ltb n 10 then (48 + n) ∷ [] else front ++ ((48 + n % 10) ∷ [])

unfoldable pub decimal : ℕ → Text
unfolding digits
decimal n = digits (suc n) n

abbrev pub is_digit : ℕ → Bool
is_digit c = leb 48 c && leb c 57

-- The loop of `strconv.ParseUint` in base 10, without its overflow.
unfoldable pub parse_digits : ℕ → Text → Option ℕ
parse_digits n [] = some n
parse_digits n (c ∷ s) =
    let rest = parse_digits (10 * n + (c - 48)) s in if is_digit c then rest else none

abbrev pub below : ℕ → Option ℕ → Option ℕ
below limit none = none
below limit (some n) = if ltb n limit then some n else none

-- `strconv.ParseUint` in base 10, with the first number that has too many bits: no text, another
-- character and a number out of range are errors.
unfoldable pub parse_uint : ℕ → Text → Option ℕ
unfolding parse_digits
parse_uint limit [] = none
parse_uint limit (c ∷ s) = below limit (parse_digits 0 (c ∷ s))

abbrev pub parse_uint16 : Text → Option ℕ
parse_uint16 s = parse_uint (2 ^ 16) s

-- `fmt.Sprintf("%s:%d", host, port)`
abbrev pub address_of : Text → ℕ → Text
address_of host port = host ++ (58 ∷ decimal port)

abbrev pub hours : ℕ → ℤ
hours n = pos (n * (3600 * 1000000000))

-- "0.0.0.0"
abbrev pub any_host : Text
any_host = 48 ∷ 46 ∷ 48 ∷ 46 ∷ 48 ∷ 46 ∷ 48 ∷ []

pub record NodeConfig : Type 0 where
  pub host : Text
  pub alt_host : Text
  pub port : ℕ
  pub id : Key
  pub alpha : ℤ
  pub k : ℤ
  pub republish_dur : ℤ
  pub refresh_dur : ℤ
  pub expiry : ℤ
  pub swarm_key : Key
  pub upload_key : Key

abbrev pub default_node_config : NodeConfig
default_node_config = record {
  host = any_host;
  alt_host = [];
  port = 3000;
  id = zero_key;
  alpha = pos 3;
  k = pos 20;
  republish_dur = hours 1;
  refresh_dur = hours 1;
  expiry = hours 24;
  swarm_key = zero_key;
  upload_key = zero_key;
}

abbrev pub with_host : Text → NodeConfig → NodeConfig
with_host h c = record c { host = h }

abbrev pub with_port : ℕ → NodeConfig → NodeConfig
with_port p c = record c { port = p }

abbrev pub with_id : Key → NodeConfig → NodeConfig
with_id k c = record c { id = k }

-- What `NewNode` computes of the configuration: the address of the contact, and that of the server.
pub record Addresses : Type 0 where
  pub contact : Text
  pub server : Text

abbrev pub contact_host : Text → Text → Text
contact_host host [] = host
contact_host host (c ∷ alt) = c ∷ alt

unfoldable pub new_node : NodeConfig → Addresses
unfolding decimal
new_node c = record {
  contact = address_of (contact_host c.host c.alt_host) c.port;
  server = address_of c.host c.port;
}

abbrev pub default_client_config : ClientConfig
default_client_config = record {
  port = 6000;
  nodes = address_of default_node_config.host default_node_config.port ∷ [];
  upload_key = zero_key;
}

pub record DaemonConfig : Type 0 where
  pub client : ClientConfig
  pub store_path : Text
  pub host : Text
  pub public_ip : Text
  pub rpc_port : ℕ

abbrev pub default_daemon_config : DaemonConfig
default_daemon_config = record {
  client = default_client_config;
  -- "inu.db"
  store_path = 105 ∷ 110 ∷ 117 ∷ 46 ∷ 100 ∷ 98 ∷ [];
  host = any_host;
  public_ip = [];
  rpc_port = default_client_config.port + 1000;
}

-- The addresses that a daemon listens on: the one for peers, and the one of `Start` for the commands.
pub record Listeners : Type 0 where
  pub public : Text
  pub private : Text

-- `NewDaemon`, which panics without a public IP.
unfoldable pub new_daemon : {E : Type 0} → DaemonConfig → Run E Listeners
unfolding decimal
new_daemon c = elim c.public_ip [
  | [] ↦ panic
  | d ∷ ip ↦
      ok (record {
        public = address_of c.host c.client.port;
        private = address_of c.host c.rpc_port;
      })
]
