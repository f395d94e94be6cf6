-- ===== src/Eval/Files/Stuck.antt =====
-- `cleanup` of `AllocateFile` never returns.
use inu.Base.{
  ℕ, ◌+◌, ◌≤◌, ◌≡◌, ◌≢◌, refl, ap, subst, ◌∙◌, Bool, true, false, Option, none, some, arith,
}
use inu.Eval.Files.{
  Place, outside, locking, inside, cleaning, removing, leaving, returned, Ready, own, cancelled,
  place_step, Files, new_files, FileRuns, rest, makes, removes,
}

-- Whether a goroutine at the place has the mutex locked.
abbrev held : Place → ℕ
held outside = 0
held locking = 0
held inside = 1
held cleaning = 0
held removing = 1
held leaving = 1
held returned = 0

abbrev locks : Bool → ℕ
locks true = 1
locks false = 0

locks_le : (l : Bool) → locks l ≤ 1
locks_le true = omega arith
locks_le false = omega arith

-- One goroutine has the mutex when it is locked, and none when it is not.
record IsLocked (f : Files) : Type 0 where
  one : held f.maker + held f.remover ≡ locks f.locked
  maker_left : f.maker ≢ returned
  remover_left : f.remover ≢ returned

arrived :
    (p q : Place) (l m : Bool) (others : ℕ)
    → held p + others ≡ locks l
    → p ≢ returned
    → ◌≡◌ {A = Option (Place × Bool)} (some (p, l)) (some (q, m))
    → (held q + others ≡ locks m) × (q ≢ returned)
arrived p q l m others h d e =
    let place : p ≡ q = ground (arith, e) in
    let flag : l ≡ m = ground (arith, e) in
    (
      subst (λ n. held q + others ≡ locks n) flag (subst (λ z. held z + others ≡ locks l) place h),
      subst (λ z. z ≢ returned) place d,
    )

place_step-held :
    (r : Ready) (p q : Place) (l m : Bool) (others : ℕ)
    → held p + others ≡ locks l
    → p ≢ returned
    → place_step r p l ≡ some (q, m)
    → (held q + others ≡ locks m) × (q ≢ returned)
unfolding place_step
place_step-held own outside q l m others h d e = arrived locking q l m others h (λ z. cc) e
place_step-held cancelled outside q l m others h d e = arrived cleaning q l m others h (λ z. cc) e
place_step-held r locking q true m others h d e = cc
place_step-held r locking q false m others h d e =
    arrived inside q true m others (omega (arith, h)) (λ z. cc) e
place_step-held r inside q l m others h d e =
    arrived outside q false m others (omega (arith, h, locks_le l)) (λ z. cc) e
place_step-held r cleaning q true m others h d e = cc
place_step-held r cleaning q false m others h d e =
    arrived removing q true m others (omega (arith, h)) (λ z. cc) e
place_step-held r removing q l m others h d e = arrived leaving q l m others h (λ z. cc) e
place_step-held r leaving q true m others h d e = cc
place_step-held r leaving q false m others h d e = absurd (omega (arith, h))
place_step-held r returned q l m others h d e = absurd (d refl)

FileRuns-IsLocked : (f g : Files) → IsLocked f → FileRuns f g → IsLocked g
FileRuns-IsLocked f g h rest = h
FileRuns-IsLocked f _ h (makes g r p l runs e) =
    let before = FileRuns-IsLocked f g h runs in
    let (one, left) =
      place_step-held r g.maker p g.locked l (held g.remover) before.one before.maker_left e in
    record { one = one; maker_left = left; remover_left = before.remover_left }
FileRuns-IsLocked f _ h (removes g r p l runs e) =
    let before = FileRuns-IsLocked f g h runs in
    let (one, left) =
      place_step-held r g.remover p g.locked l (held g.maker) (omega (arith, before.one))
        before.remover_left e in
    record { one = omega (arith, one); maker_left = before.maker_left; remover_left = left }

-- The deferred call of `cleanup` locks the mutex that `cleanup` has locked: in no order of the steps
-- does a goroutine of `AllocateFile` return, and one that has come to the deferred call has the mutex
-- locked and can take no step.
pub cleanup_stuck :
    (g : Files) (r : Ready)
    → FileRuns new_files g
    → (g.maker ≢ returned)
      × (g.remover ≢ returned)
      × (g.maker ≡ leaving → place_step r g.maker g.locked ≡ none)
      × (g.remover ≡ leaving → place_step r g.remover g.locked ≡ none)
unfolding place_step
cleanup_stuck g r runs =
    let all =
      FileRuns-IsLocked new_files g
        (record { one = refl; maker_left = λ z. cc; remover_left = λ z. cc }) runs in
    (
      all.maker_left,
      all.remover_left,
      λ e. stuck g.maker (held g.remover) e all.one,
      λ e. stuck g.remover (held g.maker) e (omega (arith, all.one)),
    )
  where
    waits : (l : Bool) → 1 ≤ locks l → place_step r leaving l ≡ none
    waits true h = refl
    waits false h = absurd (omega (arith, h))

    stuck :
        (p : Place) (others : ℕ)
        → p ≡ leaving
        → held p + others ≡ locks g.locked
        → place_step r p g.locked ≡ none
    stuck p others e h =
        let one : 1 ≤ locks g.locked = omega (arith, ap held e, h) in
        ap (λ q. place_step r q g.locked) e ∙ waits g.locked one
