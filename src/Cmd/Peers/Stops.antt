-- ===== src/Cmd/Peers/Stops.antt =====
-- A command leaves no daemon behind.
use inu.Base.{
  ℕ, suc, ◌≡◌, ◌⊎◌, inl, inr, refl, sym, ap, subst, ◌∙◌, ◌-◌, Run, Bool, true, false, Option, none,
  some, ok, err, panic, out_of_fuel, arith,
}
use inu.Http.{Text}
use inu.Daemon.Service.{StopError}
use inu.Config.{DaemonConfig, Listeners, new_daemon, address_of}
use inu.Api.{Dialer, Api, Client, new_api, new_api_from_config, connected}
use inu.Cmd.Peers.{
  System, Result, after_close, after_listen, daemon_offline, with_api, ask, ask_own, ask_when,
  after_stop, ask_started, run_api_func,
}

-- How many daemons run: a command starts and stops them by these calls only. A start that ends the
-- program leaves none, and a stop that returns no error leaves one less; of another stop nothing is known.
pub record Counts {World : Type 0} (sys : System World) (dialer : Dialer World)
    (fn : World → Api World → World × Result (Unit {0})) (running : World → ℕ) : Type 0 where
  pub started :
      (w v : World) (d : Listeners) → sys.start w d ≡ (v, true) → running v ≡ suc (running w)
  pub ended : (w v : World) (d : Listeners) → sys.start w d ≡ (v, false) → running v ≡ running w
  pub stopped : (w v : World) → sys.stop w ≡ (v, ok tt) → running v ≡ running w - 1
  pub listens : (w : World) (port : ℕ) → running (sys.listen w port).0 ≡ running w
  pub closes : (w : World) → running (sys.close_listener w).0 ≡ running w
  pub dials : (w : World) (address : Text) → running (dialer.dial w address).0 ≡ running w
  pub asks : (w : World) (api : Api World) → running (fn w api).0 ≡ running w

-- A `Stop` that does not return without an error, and what it makes of the command: its error is dropped,
-- its panic is the command's.
abbrev Fails : Run StopError (Unit {0}) → Result (Unit {0}) → Type 0
Fails (ok x) r = ⊥
Fails (err e) r = Unit
Fails panic r = r ≡ panic
Fails out_of_fuel r = r ≡ out_of_fuel

module _ {World : Type 0} (sys : System World) (dialer : Dialer World)
    (fn : World → Api World → World × Result (Unit {0})) (running : World → ℕ)
    (law : Counts sys dialer fn running) where
  ask-running : (w : World) (c : DaemonConfig) → running (ask sys dialer fn w c).0 ≡ running w
  unfolding ask new_api_from_config new_api
  ask-running w c =
      go (dialer.dial w (address_of c.host c.rpc_port)) (law.dials w (address_of c.host c.rpc_port))
    where
      go :
          (r : World × Option (Client World))
          → running r.0 ≡ running w
          → running (with_api sys fn (r.0, connected c.rpc_port r.1)).0 ≡ running w
      go (v, none) e = e
      go (v, some client) e = law.asks v _ ∙ e

  -- The `Stop` of the daemon that the command started did not return without an error.
  pub record Unstopped (before : ℕ) (r : World × Result (Unit {0})) : Type 0 where
    pub at_stop : World
    pub one_more : running at_stop ≡ suc before
    pub last_world : r.0 ≡ (sys.stop at_stop).0
    pub fails : Fails (sys.stop at_stop).1 r.1

  abbrev Settled : ℕ → World × Result (Unit {0}) → Type 0
  Settled before r = (running r.0 ≡ before) ⊎ Unstopped before r

  after_stop-Settled :
      (n : ℕ) (v : World) (r : Result (Unit {0})) (s : World × Run StopError (Unit {0}))
      → running v ≡ suc n
      → sys.stop v ≡ s
      → Settled n (after_stop sys r s)
  after_stop-Settled n v r (u, ok x) e p = inl (omega (arith, law.stopped v u p, e))
  after_stop-Settled n v r (u, err x) e p = inr (record {
    at_stop = v;
    one_more = e;
    last_world = ap (λ z. z.0) (sym p);
    fails = subst (λ z. Fails z.1 r) (sym p) tt;
  })
  after_stop-Settled n v r (u, panic) e p = inr (record {
    at_stop = v;
    one_more = e;
    last_world = ap (λ z. z.0) (sym p);
    fails = subst (λ z. Fails z.1 panic) (sym p) refl;
  })
  after_stop-Settled n v r (u, out_of_fuel) e p = inr (record {
    at_stop = v;
    one_more = e;
    last_world = ap (λ z. z.0) (sym p);
    fails = subst (λ z. Fails z.1 out_of_fuel) (sym p) refl;
  })

  ask_started-Settled :
      (w : World) (c : DaemonConfig) (d : Listeners) (r : World × Bool)
      → sys.start w d ≡ r
      → Settled (running w) (ask_started sys dialer fn r c)
  ask_started-Settled w c d (v, false) e = inl (law.ended w v d e)
  ask_started-Settled w c d (v, true) e =
      let asked = ask sys dialer fn v c in
      after_stop-Settled (running w) asked.0 asked.1 (sys.stop asked.0)
        (ask-running v c ∙ law.started w v d e) refl

  ask_own-Settled :
      (w : World) (c : DaemonConfig) (d : Result Listeners)
      → Settled (running w) (ask_own sys dialer fn w c d)
  unfolding ask_own
  ask_own-Settled w c (ok d) = ask_started-Settled w c d (sys.start w d) refl
  ask_own-Settled w c (err e) = inl refl
  ask_own-Settled w c panic = inl refl
  ask_own-Settled w c out_of_fuel = inl refl

  -- A command, however it ends, its errors and panics included, leaves as many daemons running as there
  -- were, where these are counted as for `Counts`: one that it started for itself it has stopped. Else the
  -- last thing it did was a `Stop` of its own daemon that did not return without an error, and the command
  -- panics if this `Stop` does.
  pub run_api_func-Settled :
      (w : World) (c : Result DaemonConfig)
      → (running (run_api_func sys dialer fn w c).0 ≡ running w)
        ⊎ Unstopped (running w) (run_api_func sys dialer fn w c)
  unfolding run_api_func daemon_offline
  run_api_func-Settled w (err e) = inl refl
  run_api_func-Settled w panic = inl refl
  run_api_func-Settled w out_of_fuel = inl refl
  run_api_func-Settled w (ok c) = go (sys.listen w c.rpc_port) (law.listens w c.rpc_port)
    where
      closed :
          (r : World × Bool)
          → running r.0 ≡ running w
          → Settled (running w) (ask_when sys dialer fn (after_close sys r) c)
      closed (v, true) e =
          subst (λ n. Settled n (ask_own sys dialer fn v c (new_daemon c))) e
            (ask_own-Settled v c (new_daemon c))
      closed (v, false) e = inl (ask-running v c ∙ e)

      go :
          (r : World × Bool)
          → running r.0 ≡ running w
          → Settled (running w) (ask_when sys dialer fn (after_listen sys r) c)
      go (v, true) e = closed (sys.close_listener v) (law.closes v ∙ e)
      go (v, false) e = inl (ask-running v c ∙ e)
