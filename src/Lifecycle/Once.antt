-- ===== src/Lifecycle/Once.antt =====
-- However calls of `Stop` in dht/node.go interleave, a node is shut down once.
use inu.Base.{ℕ, ◌+◌, ◌≤◌, ◌<◌, ◌≡◌, refl, ap, ◌∙◌, Bool, true, false, List, [], ◌∷◌, ◌++◌, arith}
use inu.Lifecycle.{
  Flags, Call, entered, was_started, was_running, closing, ending, waiting, idle, returned, step,
  Running, move, Runs, rest, start, call, turn, new_node,
}

-- The sum of a weight over the calls.
unfoldable total : (Call → ℕ) → List Call → ℕ
total f [] = 0
total f (t ∷ ts) = f t + total f ts

total-append : (f : Call → ℕ) (xs ys : List Call) → total f (xs ++ ys) ≡ total f xs + total f ys
unfolding total
total-append f [] ys = omega arith
total-append f (x ∷ xs) ys = omega (arith, total-append f xs ys)

abbrev bit : Bool → ℕ
bit true = 1
bit false = 0

abbrev is_closing : Call → ℕ
is_closing closing = 1
is_closing _ = 0

abbrev is_ending : Call → ℕ
is_ending ending = 1
is_ending _ = 0

abbrev is_returned : Call → ℕ
is_returned returned = 1
is_returned _ = 0

-- One call has won the flag `inShutdown`, if it is set: it is at work, or has done it.
pub record IsOnce (r : Running) : Type 0 where
  one :
      total is_closing r.calls + total is_ending r.calls + bit r.flags.shutdown
      ≡ bit r.flags.in_shutdown
  done : total is_ending r.calls + bit r.flags.shutdown ≡ r.flags.closed
  after : 0 < total is_returned r.calls → r.flags.shutdown ≡ true

-- The sums with one call taken out.
total-at :
    (f : Call → ℕ) (front back : List Call) (t : Call)
    → total f (front ++ (t ∷ back)) ≡ f t + (total f front + total f back)
unfolding total
total-at f front back t = omega (arith, total-append f front (t ∷ back))

abbrev flags_of : Bool → Bool → Bool → ℕ → Flags
flags_of a b d n = record { started = a; in_shutdown = b; shutdown = d; closed = n }

-- The counts with a call and the sums over the other calls.
record Counts (t : Call) (g : Flags) (c e r : ℕ) : Type 0 where
  one : is_closing t + c + (is_ending t + e) + bit g.shutdown ≡ bit g.in_shutdown
  done : is_ending t + e + bit g.shutdown ≡ g.closed
  after : 0 < is_returned t + r → g.shutdown ≡ true

step-Counts :
    (t : Call) (a b d : Bool) (n c e r : ℕ)
    → Counts t (flags_of a b d n) c e r
    → Counts (step t (flags_of a b d n)).0 (step t (flags_of a b d n)).1 c e r
unfolding step
step-Counts entered true b d n c e r h = record { one = h.one; done = h.done; after = h.after }
step-Counts entered false b d n c e r h = record { one = h.one; done = h.done; after = h.after }
step-Counts was_started a b true n c e r h = record {
  one = h.one;
  done = h.done;
  after = λ p. refl;
}
step-Counts was_started a b false n c e r h = record { one = h.one; done = h.done; after = h.after }
step-Counts was_running a true d n c e r h = record { one = h.one; done = h.done; after = h.after }
step-Counts was_running a false d n c e r h = record {
  one = omega (arith, h.one);
  done = h.done;
  after = h.after;
}
step-Counts closing a b d n c e r h = record {
  one = omega (arith, h.one);
  done = omega (arith, h.done);
  after = h.after;
}
step-Counts ending a true true n c e r h = absurd (omega (arith, h.one))
step-Counts ending a true false n c e r h = record {
  one = omega (arith, h.one);
  done = omega (arith, h.done);
  after = λ p. refl;
}
step-Counts ending a false d n c e r h = absurd (omega (arith, h.one))
step-Counts waiting a b true n c e r h = record { one = h.one; done = h.done; after = λ p. refl }
step-Counts waiting a b false n c e r h = record { one = h.one; done = h.done; after = h.after }
step-Counts idle a b d n c e r h = h
step-Counts returned a b d n c e r h = h

move-IsOnce :
    (front back : List Call) (t : Call) (r : Running)
    → r.calls ≡ front ++ (t ∷ back)
    → IsOnce r
    → IsOnce (move front t back r)
unfolding move
move-IsOnce front back t r e h =
    let g = r.flags in
    let c = total is_closing front + total is_closing back in
    let d = total is_ending front + total is_ending back in
    let f = total is_returned front + total is_returned back in
    let closing_at = ap (total is_closing) e ∙ total-at is_closing front back t in
    let ending_at = ap (total is_ending) e ∙ total-at is_ending front back t in
    let returned_at = ap (total is_returned) e ∙ total-at is_returned front back t in
    let counts : Counts t g c d f = record {
      one = omega (arith, h.one, closing_at, ending_at);
      done = omega (arith, h.done, ending_at);
      after = λ p. h.after (omega (arith, p, returned_at));
    } in
    let t' = (step t g).0 in
    let next = step-Counts t g.started g.in_shutdown g.shutdown g.closed c d f counts in
    record {
      one =
          omega
            (arith, next.one, total-at is_closing front back t', total-at is_ending front back t');
      done = omega (arith, next.done, total-at is_ending front back t');
      after = λ p. next.after (omega (arith, p, total-at is_returned front back t'));
    }

Runs-IsOnce : (r s : Running) → IsOnce r → Runs r s → IsOnce s
unfolding total
Runs-IsOnce r s h rest = h
Runs-IsOnce r _ h (start s runs) =
    let o = Runs-IsOnce r s h runs in record { one = o.one; done = o.done; after = o.after }
Runs-IsOnce r _ h (call s runs) =
    let o = Runs-IsOnce r s h runs in
    record {
      one = omega (arith, o.one);
      done = omega (arith, o.done);
      after = λ p. o.after (omega (arith, p));
    }
Runs-IsOnce r _ h (turn s front back t runs e) =
    move-IsOnce front back t s e (Runs-IsOnce r s h runs)

new_node-IsOnce : IsOnce new_node
unfolding total
new_node-IsOnce = record { one = refl; done = refl; after = λ p. absurd (omega (arith, p)) }

-- However any number of calls of `Stop` and a `Start` of a new node interleave, the channels and the
-- server are closed at most once; and when a call has returned from a node that it saw started,
-- they are closed.
pub closed_once :
    (r : Running)
    → Runs new_node r
    → (r.flags.closed ≤ 1)
      × ((front back : List Call) → r.calls ≡ front ++ (returned ∷ back) → r.flags.closed ≡ 1)
closed_once r runs =
    let o = Runs-IsOnce new_node r new_node-IsOnce runs in
    let most : r.flags.closed ≤ 1 = bounded r.flags.in_shutdown (omega (arith, o.one, o.done)) in
    (
      most,
      λ front back e.
          let some_returned : 0 < total is_returned r.calls =
            omega (arith, ap (total is_returned) e, total-at is_returned front back returned) in
          omega (arith, most, o.done, ap bit (o.after some_returned)),
    )
  where
    bounded : (b : Bool) → r.flags.closed ≤ bit b → r.flags.closed ≤ 1
    bounded true h = h
    bounded false h = omega (arith, h)
