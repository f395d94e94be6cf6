-- ===== src/Api/Service.antt =====
-- The service that daemon.go registers, and the calls of api.go that reach it.
use inu.Base.{
  ℕ, ◌+◌, ◌≤◌, ◌≡◌, ◌⊎◌, ◌∙◌, refl, ap, inl, inr, length, Option, none, some, if◌then◌else◌, Run,
  ok, err, panic, out_of_fuel, ◌>>=◌,
}
use inu.Key.{key_eq}
use inu.Cid.{Bytes, Cid}
use inu.Http.{Text}
use inu.Store.{write_failed}
use inu.Store.Laws.{IsValid}
use inu.Fs.{Env, Item}
use inu.Fs.Contents.{IsEnv}
use inu.Fs.Nodes.{guarded_env}
use inu.Daemon
use inu.Daemon.{Network, store_error}
use inu.Daemon.Files.{cat-add}
use inu.Api.{
  Args, bytes, text, Reply, one_cid, records, data_of, count, nothing, Error, server, transport,
  Result, Client, Method, method_name, add_bytes, add_path, cat, upload, download, api_add_bytes,
  api_cat,
}

-- What a daemon holds: its store, and the network that it talks to.
pub record Served (State World : Type 0) : Type 0 where
  pub store : State
  pub world : World

-- An error of the method is the error of the call; a panic of the daemon ends the connection.
abbrev pub answered {ℓ} : {A : Type ℓ} → Daemon.Result A → Result A
answered (ok x) = ok x
answered (err e) = err (server e)
answered panic = err transport
answered out_of_fuel = out_of_fuel

abbrev pub kept :
    {State World : Type 0}
    → Served State World
    → Run Error (Reply × State)
    → Served State World × Result Reply
kept s (ok (r, store)) = (record s { store = store }, ok r)
kept s (err e) = (s, err e)
kept s panic = (s, panic)
kept s out_of_fuel = (s, out_of_fuel)

-- The paths that the daemon's system answers on, the depth of its graphs, and how a download ends.
module _ {State World : Type 0} (env : Env State) (net : Network World) (depth : ℕ)
    (item_at : Text → Item)
    (fetch : State → World → Cid → State × World × Daemon.Result (Unit {0})) where
  abbrev pub serve_text : Method → Served State World → Text → Served State World × Result Reply
  serve_text add_bytes s t = (s, err transport)
  serve_text add_path s t = kept s (do
    (rs, store) ← answered (Daemon.add_item env s.store t (item_at t))
    ok (records rs, store))
  serve_text cat s t = (s, do d ← answered (Daemon.cat env depth s.store t); ok (data_of d))
  serve_text upload s t =
      let (w, r) = Daemon.upload env net depth s.store s.world t in
      (record s { world = w }, do n ← answered r; ok (count n))
  serve_text download s t =
      let (store, w, r) = fetch s.store s.world t in
      (record { store = store; world = w }, do _ ← answered r; ok nothing)

  abbrev pub serve_bytes : Method → Served State World → Bytes → Served State World × Result Reply
  serve_bytes add_bytes s d =
      kept s (do (c, store) ← answered (Daemon.add env s.store d); ok (one_cid c, store))
  serve_bytes add_path s d = (s, err transport)
  serve_bytes cat s d = (s, err transport)
  serve_bytes upload s d = (s, err transport)
  serve_bytes download s d = (s, err transport)

  abbrev pub serve_args : Method → Served State World → Args → Served State World × Result Reply
  serve_args m s (bytes d) = serve_bytes m s d
  serve_args m s (text t) = serve_text m s t

  -- The methods of `Daemon` by their names.
  unfoldable pub method_of : Text → Option Method
  unfolding method_name key_eq
  method_of name =
      if key_eq name (method_name add_bytes)
      then some add_bytes
      else if key_eq name (method_name add_path)
      then some add_path
      else if key_eq name (method_name cat)
      then some cat
      else if key_eq name (method_name upload)
      then some upload
      else if key_eq name (method_name download)
      then some download
      else none

  abbrev pub serve_method :
      Option Method → Served State World → Args → Served State World × Result Reply
  serve_method none s args = (s, err transport)
  serve_method (some m) s args = serve_args m s args

  unfoldable pub serve : Served State World → Text → Args → Served State World × Result Reply
  unfolding method_of
  serve s name args = serve_method (method_of name) s args

  -- A client whose calls reach the daemon.
  abbrev pub local : Client (Served State World)
  local = record { call = serve }

  named : (m : Method) → method_of (method_name m) ≡ some m
  unfolding method_of method_name key_eq
  named add_bytes = refl
  named add_path = refl
  named cat = refl
  named upload = refl
  named download = refl

  -- A call over the connection is the method of the daemon.
  serve-method_name :
      (m : Method) (s : Served State World) (args : Args)
      → serve s (method_name m) args ≡ serve_args m s args
  unfolding serve
  serve-method_name m s args = ap (λ o. serve_method o s args) (named m)

module _ {State World : Type 0} (env : Env State) (net : Network World) (depth : ℕ)
    (item_at : Text → Item)
    (fetch : State → World → Cid → State × World × Daemon.Result (Unit {0})) where
  added :
      (s : Served State World) (d : Bytes) (c : Cid) (store : State)
      → Daemon.add env s.store d ≡ ok (c, store)
      → api_add_bytes (local env net depth item_at fetch) s d ≡ (record s { store = store }, ok c)
  unfolding api_add_bytes
  added s d c store e =
      let here : serve_args env net depth item_at fetch add_bytes s (bytes d)
          ≡ (record s { store = store }, ok (one_cid c)) =
        rw (e) refl in
      rw (serve-method_name env net depth item_at fetch add_bytes s (bytes d) ∙ here) refl

  refused :
      (s : Served State World) (d : Bytes) (x : Daemon.Error)
      → Daemon.add env s.store d ≡ err x
      → api_add_bytes (local env net depth item_at fetch) s d ≡ (s, err (server x))
  unfolding api_add_bytes
  refused s d x e =
      let here : serve_args env net depth item_at fetch add_bytes s (bytes d)
          ≡ (s, err (server x)) =
        rw (e) refl in
      rw (serve-method_name env net depth item_at fetch add_bytes s (bytes d) ∙ here) refl

  printed :
      (s : Served State World) (path : Text) (d : Bytes)
      → Daemon.cat env depth s.store path ≡ ok d
      → api_cat (local env net depth item_at fetch) s path ≡ (s, ok d)
  unfolding api_cat
  printed s path d e =
      let here : serve_args env net depth item_at fetch cat s (text path) ≡ (s, ok (data_of d)) =
        rw (e) refl in
      rw (serve-method_name env net depth item_at fetch cat s (text path) ∙ here) refl

module _ {State World : Type 0} (env : Env State) (law : IsEnv env) (net : Network World)
    (depth : ℕ) (item_at : Text → Item)
    (fetch : State → World → Cid → State × World × Daemon.Result (Unit {0})) where
  abbrev here : Client (Served State World)
  here = local env net depth item_at fetch

  abbrev careful : Client (Served State World)
  careful = local (guarded_env env) net depth item_at fetch

  -- Over a connection to a daemon, into a store as for `fs.AddBytes`: `AddBytes` gives a name, and `Cat`
  -- of the name, at a depth of at least two more than the number of the bytes, gives the bytes back; the
  -- network is left as it was. The other outcome is the error of a write that would replace a block by
  -- another content.
  pub api_cat-api_add_bytes :
      (s : Served State World) (d : Bytes)
      → IsValid env.hashing env.db s.store
      → length d + 2 ≤ depth
      → (api_add_bytes careful s d ≡ (s, err (server (store_error write_failed))))
        ⊎ ((c : Cid) × (store : State) × (api_add_bytes here s d
              ≡ (record s { store = store }, ok c))
            × (api_cat here (record s { store = store }) c ≡ (record s { store = store }, ok d)))
  api_cat-api_add_bytes s d v h = elim (cat-add env law s.store d depth v h) [
    | inl e ↦
        inl (refused (guarded_env env) net depth item_at fetch s d (store_error write_failed) e)
    | inr (c, store, ran, back, _) ↦ inr (
      c,
      store,
      added env net depth item_at fetch s d c store ran,
      printed env net depth item_at fetch (record s { store = store }) c d back,
    )
  ]
