-- ===== src/Cmd/Peers.antt =====
-- cmd/inu/peer.go: the commands that ask a daemon, one that runs already or one of their own.
pub mod Shown
pub mod Stops
pub mod Asked
use inu.Base.{
  ℕ, Bool, true, false, List, [], ◌∷◌, ◌++◌, Option, none, some, if◌then◌else◌, Run, ok, err, panic,
  out_of_fuel, ◌>>=◌, ◌==◌,
}
use inu.Http.{Text}
use inu.Fs.{Record}
use inu.Config.{DaemonConfig, Listeners, new_daemon}
use inu.Api.{Dialer, Api, new_api_from_config}
use inu.Api
use inu.Daemon.Service.{StopError}

pub data Error : Type 0 where
  config_error : Error
  api_error : Api.Error → Error
  abs_failed write_failed : Error
  -- `os.Exit(1)`, which ends the program.
  exited : Error

abbrev pub Result {ℓ} : Type ℓ → Type ℓ
Result = Run Error

-- What a command does to the system: whether it can listen on a port and close again, and the
-- `Start` and `Stop` of its own daemon. `Start` that does not return is `os.Exit(1)`; the goroutines that it
-- has begun are the system's.
pub record System (World : Type 0) : Type 0 where
  pub listen : World → ℕ → World × Bool
  pub close_listener : World → World × Bool
  pub start : World → Listeners → World × Bool
  pub stop : World → World × Run StopError (Unit {0})

abbrev pub api_result {ℓ} : {A : Type ℓ} → Run Api.Error A → Result A
api_result (ok x) = ok x
api_result (err e) = err (api_error e)
api_result panic = panic
api_result out_of_fuel = out_of_fuel

module _ {World : Type 0} (sys : System World) where
  -- `daemonOffline`; `none` is the error of `Close`.
  abbrev pub after_close : World × Bool → World × Option Bool
  after_close (w, true) = (w, some true)
  after_close (w, false) = (w, none)

  abbrev pub after_listen : World × Bool → World × Option Bool
  after_listen (w, true) = after_close (sys.close_listener w)
  after_listen (w, false) = (w, some false)

  unfoldable pub daemon_offline : World → ℕ → World × Option Bool
  daemon_offline w port = after_listen (sys.listen w port)

  -- The body of `runApiFunc` behind the start of a daemon.
  abbrev pub with_api :
      (World → Api World → World × Result (Unit {0}))
      → World × Api.Result (Api World)
      → World × Result (Unit {0})
  with_api fn (w, ok api) = fn w api
  with_api fn (w, err e) = (w, err (api_error e))
  with_api fn (w, panic) = (w, panic)
  with_api fn (w, out_of_fuel) = (w, out_of_fuel)

  -- `defer d.Stop()`: its error is dropped, and its panic ends the command.
  abbrev pub after_stop :
      Result (Unit {0}) → World × Run StopError (Unit {0}) → World × Result (Unit {0})
  after_stop r (w, ok x) = (w, r)
  after_stop r (w, err e) = (w, r)
  after_stop r (w, panic) = (w, panic)
  after_stop r (w, out_of_fuel) = (w, out_of_fuel)

  abbrev pub and_stop : World × Result (Unit {0}) → World × Result (Unit {0})
  and_stop (w, r) = after_stop r (sys.stop w)

  module _ (dialer : Dialer World) (fn : World → Api World → World × Result (Unit {0})) where
    unfoldable pub ask : World → DaemonConfig → World × Result (Unit {0})
    unfolding new_api_from_config
    ask w c = with_api fn (new_api_from_config dialer w c)

    abbrev pub ask_started : World × Bool → DaemonConfig → World × Result (Unit {0})
    ask_started (w, true) c = and_stop (ask w c)
    ask_started (w, false) c = (w, err exited)

    unfoldable pub ask_own : World → DaemonConfig → Result Listeners → World × Result (Unit {0})
    unfolding ask
    ask_own w c (ok d) = ask_started (sys.start w d) c
    ask_own w c (err e) = (w, err e)
    ask_own w c panic = (w, panic)
    ask_own w c out_of_fuel = (w, out_of_fuel)

    abbrev pub ask_when : World × Option Bool → DaemonConfig → World × Result (Unit {0})
    ask_when (w, none) c = ask w c
    ask_when (w, some false) c = ask w c
    ask_when (w, some true) c = ask_own w c (new_daemon c)

    -- `runApiFunc`, with what `parseDaemonConfig` returned.
    unfoldable pub run_api_func : World → Result DaemonConfig → World × Result (Unit {0})
    unfolding daemon_offline ask_own new_daemon
    run_api_func w (ok c) = ask_when (daemon_offline w c.rpc_port) c
    run_api_func w (err e) = (w, err e)
    run_api_func w panic = (w, panic)
    run_api_func w out_of_fuel = (w, out_of_fuel)

-- `strings.TrimPrefix` and `strings.TrimSuffix`.
abbrev pub or_whole : Option Text → Text → Text
or_whole none s = s
or_whole (some t) s = t

unfoldable pub cut_prefix : Text → Text → Option Text
cut_prefix [] s = some s
cut_prefix (c ∷ p) [] = none
cut_prefix (c ∷ p) (d ∷ s) = let rest = cut_prefix p s in if c == d then rest else none

abbrev pub trim_prefix : Text → Text → Text
trim_prefix p s = or_whole (cut_prefix p s) s

unfoldable pub reversed : Text → Text → Text
reversed [] s = s
reversed (c ∷ t) s = reversed t (c ∷ s)

unfoldable pub trim_suffix : Text → Text → Text
unfolding cut_prefix reversed
trim_suffix p s = reversed (trim_prefix (reversed p []) (reversed s [])) []

-- The path that `add` prints of a record, where `arg` is the argument and `abs` its absolute path.
unfoldable pub shown : Text → Text → Record → Text
unfolding trim_suffix
shown abs arg r = trim_prefix (trim_suffix arg abs) r.path
