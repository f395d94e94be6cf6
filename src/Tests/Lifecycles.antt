-- ===== src/Tests/Lifecycles.antt =====
-- One call of `Stop` on a node that has started.
use inu.Base.{◌≤◌, ◌≡◌, refl, true, List, [], ◌∷◌, ◌++◌}
use inu.Lifecycle.{
  Call, entered, was_started, was_running, closing, ending, returned, step, Running, move, Runs,
  rest, start, call, turn, new_node,
}
use inu.Lifecycle.Once.{closed_once}

abbrev stopped : Running
stopped = record {
  flags = record { started = true; in_shutdown = true; shutdown = true; closed = 1 };
  calls = returned ∷ [];
}

stopped_run : Runs new_node stopped
unfolding move step
stopped_run =
    let called = call _ (start new_node rest) in
    let one = turn _ [] [] entered called refl in
    let two = turn _ [] [] was_started one refl in
    let three = turn _ [] [] was_running two refl in
    let four = turn _ [] [] closing three refl in turn _ [] [] ending four refl

closed_once_example :
    (stopped.flags.closed ≤ 1)
    × ((front back : List Call)
        → stopped.calls ≡ front ++ (returned ∷ back)
        → stopped.flags.closed ≡ 1)
closed_once_example = closed_once stopped stopped_run
