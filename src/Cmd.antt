-- ===== src/Cmd.antt =====
-- cmd/inu/: how the commands come to their configuration, and what `dht start` does with the table of
-- autonomous systems. The file system, the environment, JSON and csv are parameters.
pub mod Asns
pub mod Daemons
pub mod Peers
pub mod Keys
use inu.Base.{
  ℕ, ◌≡◌, Bool, true, false, List, [], ◌∷◌, Option, none, some, ltb, leb, if◌then◌else◌, ◌==◌, Run,
  ok, err, panic, out_of_fuel, ◌>>=◌, ℤ,
}
use inu.Key.{Key, key_eq}
use inu.Key.Encoding.{Base32, parse_cid}
use inu.Key.Encoding
use inu.Http.{Text}
use inu.Asn
use inu.Asn.{TrieNode, Prefix, new_node}
use inu.Config.{
  NodeConfig, DaemonConfig, Addresses, default_node_config, default_daemon_config, parse_uint,
  parse_uint16,
}
use inu.Config

pub data Error : Type 0 where
  bad_file bad_json bad_port bad_table bad_prefix bad_number rand_failed bootstrap_failed
        stop_failed :
      Error
  key_error : Encoding.Error → Error
  trie_error : Asn.Error → Error

abbrev pub Result {ℓ} : Type ℓ → Type ℓ
Result = Run Error

-- What the commands ask of the system and of the libraries: `none` is an error. A decoder of JSON
-- fills in the configuration that it is given.
pub record System : Type 0 where
  pub read_file : Text → Option Text
  pub stdin : Option Text
  pub decode_node : Text → NodeConfig → Option NodeConfig
  pub decode_daemon : Text → DaemonConfig → Option DaemonConfig
  pub decode_nodes : Text → Option (List Text)
  pub read_table : Text → Option (List (Text × Text))
  pub parse_prefix : Text → Option Prefix
  pub atoi : Text → Option ℤ

-- The variables that the commands read; no text is an unset one.
pub record Environment : Type 0 where
  pub node_id : Text
  pub node_alt_host : Text
  pub dht_nodes : Text
  pub store_path : Text
  pub public_ip : Text
  pub rpc_port : Text

abbrev pub or_err {ℓ} : {A : Type ℓ} → Error → Option A → Result A
or_err e none = err e
or_err e (some x) = ok x

abbrev pub lift {ℓ} : {E : Type 0} {A : Type ℓ} → (E → Error) → Run E A → Result A
lift f (ok x) = ok x
lift f (err e) = err (f e)
lift f panic = panic
lift f out_of_fuel = out_of_fuel

-- The configuration file over the defaults; no path is no file.
abbrev pub with_file : {C : Type 0} → System → (Text → C → Option C) → Text → C → Result C
with_file sys decode [] c = ok c
with_file sys decode (x ∷ path) c = do
  text ← or_err bad_file (sys.read_file (x ∷ path))
  or_err bad_json (decode text c)

-- A variable over the configuration, when it is set.
abbrev pub override : {C : Type 0} → Text → (Text → C → Result C) → C → Result C
override [] f c = ok c
override (x ∷ text) f c = f (x ∷ text) c

abbrev pub set_node_id : Base32 → Text → NodeConfig → Result NodeConfig
set_node_id b text c = do k ← lift key_error (parse_cid b text); ok (record c { id = k })

-- The first two parts of `parseNode`: the file, and the variables over it.
unfoldable pub node_config : Base32 → System → Environment → Text → Result NodeConfig
node_config b sys env path = do
  c ← with_file sys sys.decode_node path default_node_config
  c' ← override env.node_id (set_node_id b) c
  override env.node_alt_host (λ text c. ok (record c { alt_host = text })) c'

-- A turn of the loop over the table: `UpdateASN` of its prefix.
unfoldable pub update_asn : System → TrieNode → Text × Text → Result TrieNode
update_asn sys t l = do
  p ← or_err bad_prefix (sys.parse_prefix l.0)
  asn ← or_err bad_number (sys.atoi l.1)
  lift trie_error (Asn.insert t p asn)

unfoldable pub update_asns : System → TrieNode → List (Text × Text) → Result TrieNode
unfolding update_asn
update_asns sys t [] = ok t
update_asns sys t (l ∷ ls) = do t' ← update_asn sys t l; update_asns sys t' ls

-- The file of the table; `-` is the standard input.
abbrev pub table_text : System → Text → Option Text
table_text sys path = if key_eq path (45 ∷ []) then sys.stdin else sys.read_file path

abbrev pub load_asns : System → Text → TrieNode → Result TrieNode
load_asns sys [] t = ok t
load_asns sys (x ∷ path) t = do
  text ← or_err bad_file (table_text sys (x ∷ path))
  ls ← or_err bad_table (sys.read_table text)
  update_asns sys t ls

-- `parseNode`: the addresses of the node, and its trie.
unfoldable pub parse_node :
    Base32 → System → Environment → Text → Text → Result (NodeConfig × Addresses × TrieNode)
unfolding node_config update_asns Config.new_node
parse_node b sys env path asn_path = do
  c ← node_config b sys env path
  t ← load_asns sys asn_path new_node
  ok (c, Config.new_node c, t)

abbrev pub set_nodes : System → Text → DaemonConfig → Result DaemonConfig
set_nodes sys text c = do
  ns ← or_err bad_json (sys.decode_nodes text)
  ok (record c { client = record c.client { nodes = ns } })

abbrev pub set_rpc_port : Text → DaemonConfig → Result DaemonConfig
set_rpc_port text c = do p ← or_err bad_port (parse_uint16 text); ok (record c { rpc_port = p })

-- `parseDaemonConfig`
unfoldable pub parse_daemon_config : System → Environment → Text → Result DaemonConfig
unfolding parse_uint
parse_daemon_config sys env path = do
  c ← with_file sys sys.decode_daemon path default_daemon_config
  c1 ← override env.dht_nodes (set_nodes sys) c
  c2 ← override env.store_path (λ text c. ok (record c { store_path = text })) c1
  c3 ← override env.public_ip (λ text c. ok (record c { public_ip = text })) c2
  override env.rpc_port set_rpc_port c3

-- `statusLevel`: the level of the log of an answer with the code.
pub data Level : Type 0 where
  info warn error : Level

unfoldable pub status_level : ℤ → Level
status_level (ℤ.negsuc n) = warn
status_level (ℤ.pos n) =
    if n == 0 then warn else if ltb n 400 then info else if ltb n 500 then info else error
