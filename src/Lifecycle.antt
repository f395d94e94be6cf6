-- ===== src/Lifecycle.antt =====
-- `Start` and `Stop` of dht/node.go: any number of goroutines call `Stop` at once, and each reading or
-- writing of the three atomic flags is a step.
pub mod Once
use inu.Base.{ℕ, zero, suc, ◌+◌, ◌≡◌, Bool, true, false, List, [], ◌∷◌, ◌++◌, if◌then◌else◌}

pub record Flags : Type 0 where
  pub started : Bool
  pub in_shutdown : Bool
  pub shutdown : Bool
  -- How many times the channels and the server were closed.
  pub closed : ℕ

-- Where a call of `Stop` stands: before the check of `started`, of `shutdown`, of `inShutdown`, at the
-- work of closing, before the deferred write, in the waiting loop; and returned, from a node that was
-- not started or from one that was.
pub data Call : Type 0 where
  entered was_started was_running closing ending waiting idle returned : Call

-- One step of a call.
unfoldable pub step : Call → Flags → Call × Flags
step entered g = (if g.started then was_started else idle, g)
step was_started g = (if g.shutdown then returned else was_running, g)
step was_running g = (if g.in_shutdown then waiting else closing, record g { in_shutdown = true })
step closing g = (ending, record g { closed = suc g.closed })
step ending g = (returned, record g { shutdown = true })
step waiting g = (if g.shutdown then returned else waiting, g)
step idle g = (idle, g)
step returned g = (returned, g)

pub record Running : Type 0 where
  pub flags : Flags
  pub calls : List Call

unfoldable pub move : List Call → Call → List Call → Running → Running
unfolding step
move front t back r =
    let (t', g) = step t r.flags in record { flags = g; calls = front ++ (t' ∷ back) }

-- What the goroutines can come to: a listener that started, a new call, or a step of a call.
pub data Runs (r : Running) : Running → Type 0 where
  rest : Runs r r
  start : (s : Running) → Runs r s → Runs r (record s { flags = record s.flags { started = true } })
  call : (s : Running) → Runs r s → Runs r (record s { calls = entered ∷ s.calls })
  turn :
      (s : Running) (front back : List Call) (t : Call)
      → Runs r s
      → s.calls ≡ front ++ (t ∷ back)
      → Runs r (move front t back s)

-- `NewNode`
abbrev pub new_node : Running
new_node = record {
  flags = record { started = false; in_shutdown = false; shutdown = false; closed = 0 };
  calls = [];
}
