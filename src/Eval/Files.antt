-- ===== src/Eval/Files.antt =====
-- The mutex of `AllocateFile` in cmd/evaluate/eval.go, which its two goroutines share: one makes files
-- and offers them, one removes those that are returned.
pub mod Stuck
use inu.Base.{ℕ, ◌≡◌, Bool, true, false, Option, none, some}

-- Where a goroutine stands: outside of the mutex, before the lock of a change of the map, inside, before
-- the lock of `cleanup`, at the removal of the files, at the deferred call of `cleanup`, and returned.
pub data Place : Type 0 where
  outside locking inside cleaning removing leaving returned : Place

-- A channel is ready for a goroutine outside of the mutex: its own one, or that of the context.
pub data Ready : Type 0 where
  own cancelled : Ready

-- `mu.Lock()`: a goroutine waits while the mutex is locked.
abbrev pub lock : Bool → Place → Option (Place × Bool)
lock true p = none
lock false p = some (p, true)

-- A step of a goroutine, with the mutex behind it; `none` is a goroutine that cannot take a step. The
-- deferred call is `mu.Lock` too.
unfoldable pub place_step : Ready → Place → Bool → Option (Place × Bool)
place_step own outside locked = some (locking, locked)
place_step cancelled outside locked = some (cleaning, locked)
place_step r locking locked = lock locked inside
place_step r inside locked = some (outside, false)
place_step r cleaning locked = lock locked removing
place_step r removing locked = some (leaving, locked)
place_step r leaving locked = lock locked returned
place_step r returned locked = none

pub record Files : Type 0 where
  pub maker : Place
  pub remover : Place
  pub locked : Bool

abbrev pub new_files : Files
new_files = record { maker = locking; remover = outside; locked = false }

-- What the goroutines can come to.
pub data FileRuns (f : Files) : Files → Type 0 where
  rest : FileRuns f f
  makes :
      (g : Files) (r : Ready) (p : Place) (l : Bool)
      → FileRuns f g
      → place_step r g.maker g.locked ≡ some (p, l)
      → FileRuns f (record g { maker = p; locked = l })
  removes :
      (g : Files) (r : Ready) (p : Place) (l : Bool)
      → FileRuns f g
      → place_step r g.remover g.locked ≡ some (p, l)
      → FileRuns f (record g { remover = p; locked = l })
