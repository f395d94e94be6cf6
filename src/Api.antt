-- ===== src/Api.antt =====
-- api.go: the calls of a daemon's private interface over `net/rpc`. The client of `net/rpc` and the
-- dialer are parameters; the service that the daemon registers is here, with a name for each method.
pub mod Service
use inu.Base.{
  ℕ, ◌≡◌, Bool, List, [], ◌∷◌, ◌++◌, Option, none, some, if◌then◌else◌, Run, ok, err, panic,
  out_of_fuel, ◌>>=◌,
}
use inu.Key.{key_eq}
use inu.Cid.{Bytes, Cid}
use inu.Http.{Text}
use inu.Fs.{Env, Item, Record}
use inu.Daemon
use inu.Daemon.{Network}
use inu.Config.{DaemonConfig, address_of}

-- What goes over the connection: the one argument of a method, and its reply.
pub data Args : Type 0 where
  bytes : Bytes → Args
  text : Text → Args

pub data Reply : Type 0 where
  one_cid : Cid → Reply
  records : List Record → Reply
  data_of : Bytes → Reply
  count : ℕ → Reply
  nothing : Reply

pub data Error : Type 0 where
  -- The method returned an error.
  server : Daemon.Error → Error
  -- The connection failed, the method is not known or the reply has another type.
  transport : Error

abbrev pub Result {ℓ} : Type ℓ → Type ℓ
Result = Run Error

-- `rpc.Client`: a call by the name of its method.
pub record Client (World : Type 0) : Type 0 where
  pub call : World → Text → Args → World × Result Reply

-- "Daemon.AddBytes", "Daemon.AddPath", "Daemon.Cat", "Daemon.Upload" and "Daemon.Download"
pub data Method : Type 0 where
  add_bytes add_path cat upload download : Method

abbrev pub daemon_dot : Text
daemon_dot = 68 ∷ 97 ∷ 101 ∷ 109 ∷ 111 ∷ 110 ∷ 46 ∷ []

unfoldable pub method_name : Method → Text
method_name add_bytes = daemon_dot ++ (65 ∷ 100 ∷ 100 ∷ 66 ∷ 121 ∷ 116 ∷ 101 ∷ 115 ∷ [])
method_name add_path = daemon_dot ++ (65 ∷ 100 ∷ 100 ∷ 80 ∷ 97 ∷ 116 ∷ 104 ∷ [])
method_name cat = daemon_dot ++ (67 ∷ 97 ∷ 116 ∷ [])
method_name upload = daemon_dot ++ (85 ∷ 112 ∷ 108 ∷ 111 ∷ 97 ∷ 100 ∷ [])
method_name download = daemon_dot ++ (68 ∷ 111 ∷ 119 ∷ 110 ∷ 108 ∷ 111 ∷ 97 ∷ 100 ∷ [])

-- The value that the method's type of reply holds.
abbrev pub cid_of : Reply → Result Cid
cid_of (one_cid c) = ok c
cid_of (records rs) = err transport
cid_of (data_of d) = err transport
cid_of (count n) = err transport
cid_of nothing = err transport

abbrev pub records_of : Reply → Result (List Record)
records_of (one_cid c) = err transport
records_of (records rs) = ok rs
records_of (data_of d) = err transport
records_of (count n) = err transport
records_of nothing = err transport

abbrev pub bytes_of : Reply → Result Bytes
bytes_of (one_cid c) = err transport
bytes_of (records rs) = err transport
bytes_of (data_of d) = ok d
bytes_of (count n) = err transport
bytes_of nothing = err transport

abbrev pub count_of : Reply → Result ℕ
count_of (one_cid c) = err transport
count_of (records rs) = err transport
count_of (data_of d) = err transport
count_of (count n) = ok n
count_of nothing = err transport

module _ {World : Type 0} (client : Client World) where
  -- A call whose reply is read as the method's type.
  abbrev pub call_as : {A : Type 0} → (Reply → Result A) → World → Method → Args → World × Result A
  call_as read w m args = let (w', r) = client.call w (method_name m) args in (w', r >>= read)

  unfoldable pub api_add_bytes : World → Bytes → World × Result Cid
  unfolding method_name
  api_add_bytes w d = call_as cid_of w add_bytes (bytes d)

  unfoldable pub api_add_path : World → Text → World × Result (List Record)
  unfolding method_name
  api_add_path w path = call_as records_of w add_path (text path)

  unfoldable pub api_cat : World → Text → World × Result Bytes
  unfolding method_name
  api_cat w path = call_as bytes_of w cat (text path)

  unfoldable pub api_upload : World → Text → World × Result ℕ
  unfolding method_name
  api_upload w path = call_as count_of w upload (text path)

  unfoldable pub api_download : World → Cid → World × Result (Unit {0})
  unfolding method_name
  api_download w c =
      let (w', r) = client.call w (method_name download) (text c) in (w', r >>= λ _. ok tt)

-- `tls.Dialer`, which gives the client of a connection.
pub record Dialer (World : Type 0) : Type 0 where
  pub dial : World → Text → World × Option (Client World)
  pub close : World → Client World → World × Bool

pub record Api (World : Type 0) : Type 0 where
  pub port : ℕ
  pub client : Client World

abbrev pub connected : {World : Type 0} → ℕ → Option (Client World) → Result (Api World)
connected port none = err transport
connected port (some c) = ok (record { port = port; client = c })

module _ {World : Type 0} (dialer : Dialer World) where
  unfoldable pub new_api : World → Text → ℕ → World × Result (Api World)
  new_api w host port = let (w', c) = dialer.dial w (address_of host port) in (w', connected port c)

  -- `NewAPIFromConfig`
  unfoldable pub new_api_from_config : World → DaemonConfig → World × Result (Api World)
  unfolding new_api
  new_api_from_config w c = new_api w c.host c.rpc_port

  -- `Close`: a connection is there in every client that `NewAPI` gives.
  unfoldable pub close : World → Api World → World × Bool
  close w api = dialer.close w api.client
