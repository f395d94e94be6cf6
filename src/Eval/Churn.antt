-- ===== src/Eval/Churn.antt =====
-- The nodes of `ctlChurn` in cmd/evaluate/inuctl/main.go, which go on and off the network by turns.
pub mod Alternate
use inu.Base.{
  ℕ, zero, suc, ◌≡◌, Bool, true, false, not, List, [], ◌∷◌, Option, none, some, if◌then◌else◌,
}

-- A goroutine waits for its next duration, online or offline, starts its node, tries to join, has returned
-- or panicked.
pub data Phase : Type 0 where
  up down starting joining returned panicked : Phase

-- What ends a step: the duration is over, the node listens, it joined, that failed, or the context is
-- done.
pub data Event : Type 0 where
  elapsed started joined failed done : Event

pub record ChurnNode : Type 0 where
  pub phase : Phase
  -- Whether the node listens, and how often it was made anew.
  pub online : Bool
  pub made : ℕ

-- `churnA` begins with a node that `mustStart` has started, and `churnB` with one that it has not.
abbrev pub churn_a : ChurnNode
churn_a = record { phase = up; online = true; made = 2 }

abbrev pub churn_b : ChurnNode
churn_b = record { phase = down; online = false; made = 1 }

-- `n.mustStop()`
abbrev pub must_stop : ChurnNode → ChurnNode
must_stop n = record n { phase = down; online = false }

-- The first part of `n.mustStart(ctx)`: the node is made anew.
abbrev pub must_start : ChurnNode → ChurnNode
must_start n = record n { phase = starting; made = suc n.made }

-- The next step of `churnA` and `churnB` after an event; another event is one of another step. When the
-- context is done, `mustStart` returns, and the wait behind it too where the node does not listen.
abbrev pub step_from : Phase → Event → ChurnNode → ChurnNode
step_from up elapsed n = must_stop n
step_from up started n = n
step_from up joined n = n
step_from up failed n = n
step_from up done n = record n { phase = returned }
step_from down elapsed n = must_start n
step_from down started n = n
step_from down joined n = n
step_from down failed n = n
step_from down done n = record n { phase = returned }
step_from starting elapsed n = n
step_from starting started n = record n { phase = joining; online = true }
step_from starting joined n = n
step_from starting failed n = record n { phase = panicked }
step_from starting done n = record n { phase = returned }
step_from joining elapsed n = n
step_from joining started n = n
step_from joining joined n = record n { phase = up }
step_from joining failed n = n
step_from joining done n = record n { phase = up }
step_from returned e n = n
step_from panicked e n = n

unfoldable pub churn : List Event → ChurnNode → ChurnNode
churn [] n = n
churn (e ∷ es) n = churn es (step_from n.phase e n)
