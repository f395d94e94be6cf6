-- ===== src/Shortlist/Pick.antt =====
-- The methods of `shortlist` in dht/node.go that choose contacts.
use inu.Base.{
  ℕ, zero, suc, ◌+◌, ◌-◌, ◌≤◌, ◌<◌, ◌≡◌, ◌↔◌, refl, ap, sym, ◌∙◌, true, ◌||◌, List, [], ◌∷◌, ◌++◌,
  length, take, length-append, get_elem?, arith, leb, if◌then◌else◌, Bool-cases, inl, inr,
}
use inu.Key.{Key}
use inu.Key.Number.{key_eq_refl}
use inu.KeyMap.{lookup, insert}
use inu.KeyMap.Laws.{lookup-insert}
use inu.Contact.{Contact}
use inu.Shortlist.{
  KeySet, Shortlist, is_some, mark_each, set_contacted, each_marked, all_contacted, pick_rounds,
  pick_not_contacted, first_unmarked, pick_closest_without_value,
}
use inu.Shortlist.Remove.{names}

-- The contacts whose ids are not in the set, in the list's order.
unfoldable pub unmarked : KeySet → List Contact → List Contact
unmarked m [] = []
unmarked m (c ∷ cs) = let rest = unmarked m cs in if is_some (lookup c.id m) then rest else c ∷ rest

append_one : (a : List Contact) (c : Contact) (b : List Contact) → (a ++ c ∷ []) ++ b ≡ a ++ (c ∷ b)
append_one [] c b = refl
append_one (d ∷ a) c b = ap (◌∷◌ d) (append_one a c b)

append_nil : (a : List Contact) → a ++ [] ≡ a
append_nil [] = refl
append_nil (c ∷ a) = ap (◌∷◌ c) (append_nil a)

take_nil : (n : ℕ) → take {A = Contact} n [] ≡ []
take_nil zero = refl
take_nil (suc n) = refl

take_zero : (n : ℕ) (u : List Contact) → n ≡ 0 → take n u ≡ []
take_zero zero u e = refl
take_zero (suc n) u e = absurd (omega arith)

take_suc :
    (n p : ℕ) (c : Contact) (u : List Contact)
    → p < n
    → take (n - p) (c ∷ u) ≡ c ∷ take (n - (p + 1)) u
take_suc n p c u h = let e : n - p ≡ suc (n - (p + 1)) = omega arith in rw e

pick_rounds_lem :
    (m : KeySet) (limit : ℕ) (picked cs : List Contact)
    → pick_rounds m limit picked cs ≡ picked ++ take (limit - length picked) (unmarked m cs)
unfolding pick_rounds unmarked
pick_rounds_lem m limit picked [] = rw (take_nil (limit - length picked)) (sym (append_nil picked))
pick_rounds_lem m limit picked (c ∷ cs) = elim (Bool-cases (leb limit (length picked))) [
  | inl e ↦
      rw (pick_rounds, e)
        (rw (take_zero (limit - length picked) (unmarked m (c ∷ cs)) (ground (arith, e)))
          (sym (append_nil picked)))
  | inr e ↦ elim (Bool-cases (is_some (lookup c.id m))) [
    | inl g ↦ rw (pick_rounds, e, g, unmarked) (pick_rounds_lem m limit picked cs)
    | inr g ↦
        rw (pick_rounds, e, g, unmarked)
          (pick_rounds_lem m limit (picked ++ c ∷ []) cs
            ∙ append_one picked c (take (limit - length (picked ++ c ∷ [])) (unmarked m cs))
            ∙ (rw
                (
                  take_suc limit (length picked) c (unmarked m cs) (ground (arith, e)),
                  length-append picked (c ∷ []),
                )
                refl))
  ]
]

-- `PickNotContacted` returns the first contacts of the list that were not contacted, in its order,
-- as many as the limit, or all of them.
pub pick_not_contacted_lem :
    (s : Shortlist) (limit : ℕ)
    → pick_not_contacted s limit ≡ take limit (unmarked s.contacted s.list)
unfolding pick_not_contacted
pick_not_contacted_lem s limit =
    let whole : limit - 0 ≡ limit = omega arith in
    pick_rounds_lem s.contacted limit [] s.list
    ∙ ap (λ n. take n (unmarked s.contacted s.list)) whole

each_marked_lem :
    (m : KeySet) (cs : List Contact) → (each_marked m cs ≡ true) ↔ (unmarked m cs ≡ [])
unfolding each_marked unmarked
each_marked_lem m [] = ground arith
each_marked_lem m (c ∷ cs) = elim (Bool-cases (is_some (lookup c.id m))) [
  | inl e ↦ rw (each_marked, unmarked, e) (each_marked_lem m cs)
  | inr e ↦ rw (each_marked, unmarked, e) (ground arith)
]

-- `AllContacted` holds just when `PickNotContacted` has nothing to return for a positive limit.
pub all_contacted-pick :
    (s : Shortlist) (limit : ℕ)
    → 0 < limit
    → (all_contacted s ≡ true) ↔ (pick_not_contacted s limit ≡ [])
unfolding all_contacted
all_contacted-pick s zero h = absurd (omega arith)
all_contacted-pick s (suc n) h =
    rw (pick_not_contacted_lem s (suc n))
      (go (unmarked s.contacted s.list) (each_marked_lem s.contacted s.list))
  where
    go :
        (u : List Contact)
        → (each_marked s.contacted s.list ≡ true) ↔ (u ≡ [])
        → (each_marked s.contacted s.list ≡ true) ↔ (take (suc n) u ≡ [])
    go [] i = i
    go (c ∷ u) i = (λ e. absurd (ground (arith, i.0 e)), λ e. ground (arith, e))

first_unmarked_lem :
    (m : KeySet) (cs : List Contact) → first_unmarked m cs ≡ get_elem? (unmarked m cs) 0
unfolding first_unmarked unmarked
first_unmarked_lem m [] = refl
first_unmarked_lem m (c ∷ cs) = elim (Bool-cases (is_some (lookup c.id m))) [
  | inl e ↦ rw (first_unmarked, unmarked, e) (first_unmarked_lem m cs)
  | inr e ↦ rw (first_unmarked, unmarked, e) refl
]

-- `PickClosestWithoutValue` returns the nearest contact not known to have peers, and the error just
-- when each contact of the list has them.
pub pick_closest_lem :
    (s : Shortlist) → pick_closest_without_value s ≡ get_elem? (unmarked s.has_peers s.list) 0
unfolding pick_closest_without_value
pick_closest_lem s = first_unmarked_lem s.has_peers s.list

lookup-mark_each :
    (j : Key) (cs : List Contact) (m : KeySet)
    → is_some (lookup j (mark_each cs m)) ≡ (names j cs || is_some (lookup j m))
unfolding mark_each names
lookup-mark_each j [] m = refl
lookup-mark_each j (c ∷ cs) m =
    ground (arith, lookup-mark_each j cs (insert c.id tt m), lookup-insert c.id j tt m)

module _ (m m' : KeySet)
    (grows : (j : Key) → is_some (lookup j m) ≡ true → is_some (lookup j m') ≡ true) where
  length-unmarked-le : (cs : List Contact) → length (unmarked m' cs) ≤ length (unmarked m cs)
  unfolding unmarked
  length-unmarked-le [] = omega arith
  length-unmarked-le (c ∷ cs) = ground (arith, length-unmarked-le cs, grows c.id)

  fewer :
      (n : ℕ) (cs : List Contact)
      → ((j : Key) → names j (take n (unmarked m cs)) ≡ true → is_some (lookup j m') ≡ true)
      → length (unmarked m' cs) ≤ length (unmarked m cs) - n
  unfolding unmarked names
  fewer zero cs h = omega (arith, length-unmarked-le cs)
  fewer (suc n) [] h = omega arith
  fewer (suc n) (c ∷ cs) h = elim (Bool-cases (is_some (lookup c.id m))) [
    | inl e ↦ ground (arith, e, grows c.id e, fewer (suc n) cs (λ j w. h j (rw e w)))
    | inr e ↦ ground (
      arith,
      e,
      h c.id (rw e (ground (arith, key_eq_refl c.id))),
      fewer n cs (λ j w. h j (rw e (ground (arith, w)))),
    )
  ]

-- Marking what `PickNotContacted` returned makes progress: the contacts of the list that were not
-- contacted become fewer by the limit, or none is left.
pub set_contacted-pick :
    (s : Shortlist) (limit : ℕ)
    → length (unmarked (set_contacted s (pick_not_contacted s limit)).contacted s.list)
      ≤ length (unmarked s.contacted s.list) - limit
unfolding set_contacted
set_contacted-pick s limit =
    let m = s.contacted in
    let picked = pick_not_contacted s limit in
    fewer m (mark_each picked m) (λ j h. ground (arith, lookup-mark_each j picked m, h)) limit
      s.list
      (λ j h.
        ground
          (arith, lookup-mark_each j picked m, ap (names j) (pick_not_contacted_lem s limit), h))
