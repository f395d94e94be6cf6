-- ===== src/Tests/Commands.antt =====
-- The commands and the interface at inputs that meet the hypotheses.
use inu.Base.{
  ℕ, suc, ◌-◌, ◌≡◌, ◌⊎◌, refl, ap, sym, List, [], ◌∷◌, none, some, true, false, ok, err, panic,
  arith, pos, if◌then◌else◌, ◌==◌,
}
use inu.KeyMap.{KeyMap}
use inu.Cid.{Bytes, Cid}
use inu.Key.{Key}
use inu.Store.{write_failed}
use inu.Fs.{missing}
use inu.Fs.Nodes.{guarded_env}
use inu.Daemon.{store_error}
use inu.Api.{Api, Dialer, api_add_bytes, api_cat, server}
use inu.Api.Service.{Served, local, api_cat-api_add_bytes}
use inu.Asn.{v4, match, new_node}
use inu.Asn.Match.{longest}
use inu.Config.{DaemonConfig, default_daemon_config, parse_uint, parse_digits}
use inu.Cmd.{System, Environment, update_asns, parse_daemon_config, with_file}
use inu.Cmd.Asns.{Entry, bits_of, last_of, leads, match-update_asns}
use inu.Cmd.Daemons.{Overridden, parse_daemon_config-Overridden}
use inu.Cmd.Peers
use inu.Cmd.Peers.{run_api_func}
use inu.Cmd.Peers.Stops.{Counts, Unstopped, run_api_func-Settled}
use inu.Tests.Codecs.{env, env-IsEnv, empty-IsValid}
use inu.Tests.Daemons.{net}
use inu.Http.{Text}
use inu.Key.{set_bytes}
use inu.Config.{default_node_config, decimal}
use inu.Cmd.{override, set_node_id}
use inu.Cmd.Keys.{key_uint}
use inu.Cmd.Keys.Printed.{set_node_id-key_uint}
use inu.Tests.Keys.{padded, padded-IsBase32}

abbrev S : Type 0
S = Served (KeyMap Bytes) (List Key)

abbrev empty_daemon : S
empty_daemon = record { store = []; world = [] }

api_cat-api_add_bytes_example :
    (api_add_bytes
        (local (guarded_env env) net 4 (λ t. missing) (λ s w c. (s, w, ok tt)))
        empty_daemon
        (7 ∷ 8 ∷ [])
      ≡ (empty_daemon, err (server (store_error write_failed))))
    ⊎ ((c : Cid) × (store : KeyMap Bytes) × (api_add_bytes
            (local env net 4 (λ t. missing) (λ s w c. (s, w, ok tt)))
            empty_daemon
            (7 ∷ 8 ∷ [])
          ≡ (record empty_daemon { store = store }, ok c))
        × (api_cat
              (local env net 4 (λ t. missing) (λ s w c. (s, w, ok tt)))
              (record empty_daemon { store = store })
              c
            ≡ (record empty_daemon { store = store }, ok (7 ∷ 8 ∷ []))))
api_cat-api_add_bytes_example =
    api_cat-api_add_bytes env env-IsEnv net 4 (λ t. missing) (λ s w c. (s, w, ok tt)) empty_daemon
      (7 ∷ 8 ∷ []) empty-IsValid (omega arith)

-- A system with one line of a table: a prefix of 8 bits, whose text is its first byte.
abbrev sys : System
sys = record {
  read_file = λ path. none;
  stdin = none;
  decode_node = λ text c. none;
  decode_daemon = λ text c. none;
  decode_nodes = λ text. some (text ∷ []);
  read_table = λ text. none;
  parse_prefix = λ text. elim text [
    | [] ↦ none
    | b ∷ t ↦ some (record { addr = v4 (b ∷ 0 ∷ 0 ∷ 0 ∷ []); bits = pos 8 })
  ];
  atoi = λ text. elim text [ [] ↦ none | b ∷ t ↦ some (pos b) ];
}

abbrev ten : Entry
ten = record { buf = 10 ∷ 0 ∷ 0 ∷ 0 ∷ []; bits = 8; asn = pos 3 }

match-update_asns_example :
    (t : inu.Asn.TrieNode) × (update_asns sys new_node ((10 ∷ [], 3 ∷ []) ∷ []) ≡ ok t)
    × (match t (v4 (10 ∷ 1 ∷ 2 ∷ 3 ∷ [])) ≡ (
        if leads (ten ∷ []) (bits_of (10 ∷ 1 ∷ 2 ∷ 3 ∷ []) 0 32)
        then panic
        else ok (
            longest
              (λ q. last_of (ten ∷ []) q (pos 0))
              (bits_of (10 ∷ 1 ∷ 2 ∷ 3 ∷ []) 0 32)
              (pos 0, false))))
match-update_asns_example =
    match-update_asns sys ((10 ∷ [], 3 ∷ []) ∷ []) (ten ∷ []) (10 ∷ 1 ∷ 2 ∷ 3 ∷ [])
      (record { prefix = refl; number = refl; size = refl; short = omega arith }, tt) refl

-- Variables for the public IP and for the port 7001.
abbrev vars : Environment
vars = record {
  node_id = [];
  node_alt_host = [];
  dht_nodes = [];
  store_path = [];
  public_ip = 49 ∷ [];
  rpc_port = 55 ∷ 48 ∷ 48 ∷ 49 ∷ [];
}

parse_daemon_config-Overridden_example :
    (c : DaemonConfig) × (with_file sys sys.decode_daemon [] default_daemon_config ≡ ok c)
    × Overridden sys vars c (record default_daemon_config { public_ip = 49 ∷ []; rpc_port = 7001 })
unfolding parse_daemon_config parse_uint parse_digits
parse_daemon_config-Overridden_example =
    parse_daemon_config-Overridden sys vars []
      (record default_daemon_config { public_ip = 49 ∷ []; rpc_port = 7001 }) refl

-- A world that is the number of daemons.
abbrev counting : Peers.System ℕ
counting = record {
  listen = λ w port. (w, w == 0);
  close_listener = λ w. (w, true);
  start = λ w d. (suc w, true);
  stop = λ w. (w - 1, ok tt);
}

abbrev dialing : Dialer ℕ
dialing = record { dial = λ w address. (w, none); close = λ w c. (w, true) }

abbrev asking : ℕ → Api ℕ → ℕ × Peers.Result (Unit {0})
asking w api = (w, ok tt)

counting-Counts : Counts counting dialing asking (λ w. w)
counting-Counts = record {
  started = λ w v d e. ap (λ z. z.0) (sym e);
  ended = λ w v d e. cc;
  stopped = λ w v e. ap (λ z. z.0) (sym e);
  listens = λ w port. refl;
  closes = λ w. refl;
  dials = λ w address. refl;
  asks = λ w api. refl;
}

abbrev asked : ℕ × Peers.Result (Unit {0})
asked =
    run_api_func counting dialing asking 0
      (ok (record default_daemon_config { public_ip = 49 ∷ [] }))

run_api_func-Settled_example :
    (asked.0 ≡ 0) ⊎ Unstopped counting dialing asking (λ w. w) counting-Counts 0 asked
run_api_func-Settled_example =
    run_api_func-Settled counting dialing asking (λ w. w) counting-Counts 0
      (ok (record default_daemon_config { public_ip = 49 ∷ [] }))

set_node_id-key_uint_example :
    (text : Text) × (k : Key) × (key_uint padded (decimal 258) ≡ ok text)
    × (override text (set_node_id padded) default_node_config
        ≡ ok (record default_node_config { id = k }))
    × (set_bytes k ≡ 258)
set_node_id-key_uint_example =
    set_node_id-key_uint padded 258 default_node_config padded-IsBase32 (omega arith)
