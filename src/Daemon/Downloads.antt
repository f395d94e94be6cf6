-- ===== src/Daemon/Downloads.antt =====
-- The downloads of daemon.go: any number of calls of `download`, whose steps the scheduler orders.
pub mod Cat
pub mod Complete
pub mod Copied
pub mod Held
pub mod Log
pub mod Ordered
pub mod Steps
pub mod Told
use inu.Base.{ℕ, Bool, true, false, List, [], ◌∷◌, ◌++◌, ◌≡◌, Run, ok, err, panic, out_of_fuel}
use inu.Key.{Key}
use inu.Http.{Text}
use inu.Merkle.{Node}
use inu.Fs.{Env}
use inu.Daemon.{Network, Result, Task, start, fetch, save, announce, run}

-- The group of `Download`: the tasks that have not returned, whether one of them returned an error,
-- and, to speak of it, the nodes whose last step returned; Told compares them with the calls of `PutKey`.
pub record Group (State World : Type 0) : Type 0 where
  pub store : State
  pub world : World
  pub tasks : List Task
  pub failed : Bool
  pub announced : List (Key × Node)

abbrev pub after_announce : Task → List (Key × Node) → List (Key × Node)
after_announce (start c) known = known
after_announce (fetch k) known = known
after_announce (save k m) known = known
after_announce (announce k m) known = (k, m) ∷ known

module _ {State World : Type 0} where
  -- What is left of the group when the task has taken its step beside the others. An error ends the
  -- task only.
  unfoldable pub finish :
      Task → List Task → Group State World → World × Result (State × List Task) → Group State World
  finish t others g (w, ok (s, ts)) = record {
    store = s;
    world = w;
    tasks = ts ++ others;
    failed = g.failed;
    announced = after_announce t g.announced;
  }
  finish t others g (w, err e) = record g { world = w; tasks = others; failed = true }
  finish t others g (w, panic) = record g { world = w; tasks = others; failed = true }
  finish t others g (w, out_of_fuel) = record g { world = w; tasks = others; failed = true }

module _ {State World : Type 0} (env : Env State) (net : Network World) (public_ip : Text) where
  unfoldable pub turn : Task → List Task → Group State World → Group State World
  unfolding finish run
  turn t others g = finish t others g (run env net public_ip t g.store g.world)

  -- The groups that the scheduler can come to.
  pub data Reaches (g : Group State World) : Group State World → Type 0 where
    stay : Reaches g g
    more :
        (front back : List Task) (t : Task) (h : Group State World)
        → Reaches g h
        → h.tasks ≡ front ++ (t ∷ back)
        → Reaches g (turn t (front ++ back) h)
