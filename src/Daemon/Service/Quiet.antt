-- ===== src/Daemon/Service/Quiet.antt =====
-- `Stop` of daemon.go against the goroutine that accepts connections.
use inu.Base.{
  ℕ, suc, ◌≡◌, ◌≢◌, ◌⊎◌, inl, inr, refl, sym, ap, subst, ◌∙◌, Bool, true, false, some, ok, panic,
  arith, Bool-cases,
}
use inu.Daemon.Service.{
  Accepting, not_begun, waiting, ended, Service, new_service, start, accept_from, stop, Accepts,
  rest, turn,
}

abbrev begun : Accepting → Bool
begun not_begun = false
begun waiting = true
begun ended = true

-- The field is set when the goroutine has begun.
abbrev IsBegun : Service → Type 0
IsBegun s = s.private_set ≡ begun s.accepting

accept_from-IsBegun :
    (a : Accepting) (s t : Service)
    → s.accepting ≡ a
    → IsBegun s
    → accept_from a s ≡ some t
    → IsBegun t
accept_from-IsBegun not_begun s t e h r =
    let same : record s { private_set = true; accepting = waiting } ≡ t = ground (arith, r) in
    subst IsBegun same refl
accept_from-IsBegun waiting s t e h r =
    let set : s.private_set ≡ true = h ∙ ap begun e in
    elim (Bool-cases s.private_open) [
      | inl open_still ↦
          let same : record s { served = suc s.served } ≡ t = ground (arith, r, open_still) in
          subst IsBegun same h
      | inr closed ↦
          let same : record s { accepting = ended } ≡ t = ground (arith, r, closed) in
          subst IsBegun same set
    ]
accept_from-IsBegun ended s t e h r = cc

Accepts-IsBegun : (s t : Service) → IsBegun s → Accepts s t → IsBegun t
Accepts-IsBegun s t h rest = h
Accepts-IsBegun s u h (turn t _ r e) =
    accept_from-IsBegun t.accepting t u refl (Accepts-IsBegun s t h r) e

-- A closed listener, with the goroutine in its loop or behind it, and how many connections it served.
abbrev IsQuiet : ℕ → Service → Type 0
IsQuiet n s = (s.private_open ≡ false) × (s.private_set ≡ true) × (s.served ≡ n)

accept_from-IsQuiet :
    (n : ℕ) (a : Accepting) (s t : Service)
    → s.accepting ≡ a
    → IsQuiet n s
    → accept_from a s ≡ some t
    → IsQuiet n t
accept_from-IsQuiet n not_begun s t e h r =
    let same : record s { private_set = true; accepting = waiting } ≡ t = ground (arith, r) in
    subst (IsQuiet n) same (h.0, refl, h.2)
accept_from-IsQuiet n waiting s t e h r =
    let same : record s { accepting = ended } ≡ t = ground (arith, r, h.0) in
    subst (IsQuiet n) same (h.0, h.1, h.2)
accept_from-IsQuiet n ended s t e h r = cc

Accepts-IsQuiet : (n : ℕ) (s t : Service) → IsQuiet n s → Accepts s t → IsQuiet n t
Accepts-IsQuiet n s t h rest = h
Accepts-IsQuiet n s u h (turn t _ r e) =
    accept_from-IsQuiet n t.accepting t u refl (Accepts-IsQuiet n s t h r) e

-- A daemon that listens on both addresses, at any time after `Start`: when the goroutine has begun,
-- `Stop` closes the listener without an error and no further connection is served, whatever the
-- goroutine still does; when it has not, `Stop` panics on the nil listener. The store and the public
-- server close without an error.
pub stop-Accepts :
    (first s u : Service)
    → start true true new_service ≡ some first
    → Accepts first s
    → Accepts (stop true true s).0 u
    → ((s.accepting ≢ not_begun)
        × ((stop true true s).1 ≡ ok tt)
        × (u.private_open ≡ false)
        × (u.served ≡ s.served))
      ⊎ ((s.accepting ≡ not_begun) × ((stop true true s).1 ≡ panic))
unfolding start stop
stop-Accepts first s u began before after =
    let same : record new_service { public_open = true; private_open = true } ≡ first =
      ground (arith, began) in
    let set : IsBegun s = Accepts-IsBegun first s (subst IsBegun same refl) before in
    elim (Bool-cases s.private_set) [
      | inl is_set ↦
          let t : Service = record s {
            store_open = false;
            public_open = false;
            private_open = false;
          } in
          let closed : (stop true true s).0 ≡ t = rw (is_set) refl in
          let quiet =
            Accepts-IsQuiet s.served t u (refl, is_set, refl)
              (subst (λ z. Accepts z u) closed after) in
          inl (
            λ e. absurd (ground (arith, ap begun e, set, is_set)),
            rw (is_set) refl,
            quiet.0,
            quiet.2,
          )
      | inr unset ↦ inr (idle s.accepting (sym set ∙ unset), rw (unset) refl)
    ]
  where
    idle : (a : Accepting) → begun a ≡ false → a ≡ not_begun
    idle not_begun e = refl
    idle waiting e = cc
    idle ended e = cc
