-- ===== src/Daemon/Service.antt =====
-- `Start` and `Stop` of daemon.go: the listeners of a daemon, and the goroutine that accepts the
-- connections of the commands. The system's answers are inputs.
pub mod Quiet
use inu.Base.{
  ℕ, zero, suc, ◌≡◌, Bool, true, false, Option, none, some, if◌then◌else◌, Run, ok, err, panic,
}

-- Where the goroutine stands: not begun, in `Accept`, and after its loop.
pub data Accepting : Type 0 where
  not_begun waiting ended : Accepting

pub record Service : Type 0 where
  pub store_open : Bool
  pub public_open : Bool
  -- The private listener, and whether the field `privateL` has it.
  pub private_open : Bool
  pub private_set : Bool
  pub accepting : Accepting
  pub served : ℕ

pub data StopError : Type 0 where
  store_failed public_failed : StopError

-- What `NewDaemon` gives, with its store open.
abbrev pub new_service : Service
new_service = record {
  store_open = true;
  public_open = false;
  private_open = false;
  private_set = false;
  accepting = not_begun;
  served = 0;
}

-- `Start`, by whether the two addresses can be listened on; `none` is `os.Exit(1)`.
unfoldable pub start : Bool → Bool → Service → Option Service
start false private_free s = none
start true false s = none
start true true s = some (record s { public_open = true; private_open = true })

-- A step of the goroutine: it sets the field, it accepts a connection, and an error of `Accept` from a
-- closed listener ends its loop.
abbrev pub accept_from : Accepting → Service → Option Service
accept_from not_begun s = some (record s { private_set = true; accepting = waiting })
accept_from waiting s =
    some (
      if s.private_open then record s { served = suc s.served } else record s { accepting = ended })
accept_from ended s = none

abbrev pub accept : Service → Option Service
accept s = accept_from s.accepting s

-- `d.privateL.Close()`: a nil listener panics.
abbrev pub close_private : Service → Service × Run StopError (Unit {0})
close_private s = if s.private_set then (record s { private_open = false }, ok tt) else (s, panic)

-- `Stop`, by whether the store and the public server close without an error.
unfoldable pub stop : Bool → Bool → Service → Service × Run StopError (Unit {0})
stop false public_closes s = (s, err store_failed)
stop true false s = (record s { store_open = false }, err public_failed)
stop true true s = close_private (record s { store_open = false; public_open = false })

-- What the goroutine can come to.
pub data Accepts (s : Service) : Service → Type 0 where
  rest : Accepts s s
  turn : (t u : Service) → Accepts s t → accept t ≡ some u → Accepts s u
