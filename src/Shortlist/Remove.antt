-- ===== src/Shortlist/Remove.antt =====
-- `Remove` of `shortlist` in dht/node.go.
use inu.Base.{
  ℕ, zero, suc, ◌≤◌, ◌<◌, ◌≡◌, refl, ap, subst, ◌∙◌, Bool, true, false, ◌||◌, ◌&&◌, not, List, [],
  ◌∷◌, ◌++◌, some, none, All, All-map, All-append, length, take, drop, get_elem?, arith,
  Option-cases, Bool-cases, inl, inr, if◌then◌else◌,
}
use inu.Key.{Key, IsKey, key_eq}
use inu.Key.Distance.{distance}
use inu.KeyMap.{lookup}
use inu.KeyMap
use inu.KeyMap.Laws.{lookup-delete, delete-Distinct}
use inu.Contact.{Contact, contact_eq, contact_eq_iff}
use inu.Shortlist.{Shortlist, search, stands_at, remove_one, remove_all}
use inu.Shortlist.Sorted.{Keyed, All-take, All-drop, Sorted-cut, Place, Place-search}
use inu.Shortlist.Insert.{holds, holds-append, holds-split, IsValid}

-- Nearest first, and no two contacts at the same distance.
abbrev pub Strict : Key → List Contact → Type 0
Strict t [] = Unit
Strict t (c ∷ cs) = All (λ d. distance t c.id < distance t d.id) cs × Strict t cs

Strict-cut :
    (t : Key) (i : ℕ) (cs : List Contact) → Strict t cs → Strict t (take i cs ++ drop (suc i) cs)
Strict-cut t zero [] s = tt
Strict-cut t zero (d ∷ cs) s = s.1
Strict-cut t (suc i) [] s = tt
Strict-cut t (suc i) (d ∷ cs) s =
    let P = λ (e : Contact). distance t d.id < distance t e.id in
    (
      All-append P (take i cs) (drop (suc i) cs) (All-take P i cs s.0) (All-drop P (suc i) cs s.0),
      Strict-cut t i cs s.1,
    )

Strict-drop : (t : Key) (i : ℕ) (cs : List Contact) → Strict t cs → Strict t (drop i cs)
Strict-drop t zero cs s = s
Strict-drop t (suc i) [] s = tt
Strict-drop t (suc i) (d ∷ cs) s = Strict-drop t i cs s.1

drop-get :
    (i : ℕ) (cs : List Contact) (d : Contact)
    → get_elem? cs i ≡ some d
    → drop i cs ≡ d ∷ drop (suc i) cs
drop-get i [] d e = cc
drop-get zero (c ∷ cs) d e = cc
drop-get (suc i) (c ∷ cs) d e = drop-get i cs d e

drop-end : (i : ℕ) (cs : List Contact) → get_elem? cs i ≡ none → drop i cs ≡ []
drop-end zero [] e = refl
drop-end (suc i) [] e = refl
drop-end zero (c ∷ cs) e = cc
drop-end (suc i) (c ∷ cs) e = drop-end i cs e

module _ (t : Key) (c : Contact) where
  same_gap : (d : Contact) → contact_eq d c ≡ true → distance t d.id ≡ distance t c.id
  same_gap d e = ap (λ (z : Contact). distance t z.id) ((contact_eq_iff d c).0 e)

  absent_before :
      (cs : List Contact) → All (λ d. distance t d.id < distance t c.id) cs → holds c cs ≡ false
  unfolding holds
  absent_before [] h = refl
  absent_before (d ∷ cs) h = ground (arith, same_gap d, absent_before cs h.1, h.0)

  absent_after :
      (cs : List Contact) → All (λ d. distance t c.id < distance t d.id) cs → holds c cs ≡ false
  unfolding holds
  absent_after [] h = refl
  absent_after (d ∷ cs) h = ground (arith, same_gap d, absent_after cs h.1, h.0)

  -- The entry at the contact's place decides whether the contact is in the list.
  module _ (i : ℕ) (cs : List Contact) (s : Strict t cs) (p : Place t cs c i) where
    abbrev cut : List Contact
    cut = take i cs ++ drop (suc i) cs

    beyond : (d : Contact) → get_elem? cs i ≡ some d → holds c (drop (suc i) cs) ≡ false
    beyond d e =
        let after : All (λ z. distance t c.id ≤ distance t z.id) (d ∷ drop (suc i) cs) =
          subst (All (λ z. distance t c.id ≤ distance t z.id)) (drop-get i cs d e) p.after in
        let strict : Strict t (d ∷ drop (suc i) cs) =
          subst (Strict t) (drop-get i cs d e) (Strict-drop t i cs s) in
        absent_after (drop (suc i) cs) (
          All-map (λ z. distance t d.id < distance t z.id) (λ z. distance t c.id < distance t z.id)
            (λ z h. omega (arith, after.0, h)) (drop (suc i) cs) strict.0)

    stands_lem : stands_at cs i c ≡ holds c cs
    unfolding stands_at holds
    stands_lem = elim (Option-cases (get_elem? cs i)) [
      | inl e ↦
          rw (stands_at, e)
            (ground (
              arith,
              holds-split c i cs,
              absent_before (take i cs) p.before,
              ap (holds c) (drop-end i cs e),
            ))
      | inr (d, e) ↦
          rw (stands_at, e)
            (ground (
              arith,
              holds-split c i cs,
              absent_before (take i cs) p.before,
              ap (holds c) (drop-get i cs d e),
              beyond d e,
            ))
    ]

    holds-cut :
        stands_at cs i c ≡ true → (e : Contact) → holds e cut ≡ (holds e cs && not (contact_eq c e))
    unfolding stands_at holds
    holds-cut h e = elim (Option-cases (get_elem? cs i)) [
      | inl o ↦ absurd (ground (arith, o, h))
      | inr (d, o) ↦ ground (
        arith,
        holds-split e i cs,
        ap (holds e) (drop-get i cs d o),
        holds-append e (take i cs) (drop (suc i) cs),
        contact_eq_iff c e,
        contact_eq_iff d c,
        h,
        o,
        absent_before (take i cs) p.before,
        beyond d o,
      )
    ]

-- What one removal does.
record Drops (s : Shortlist) (c : Contact) (s' : Shortlist) : Type 0 where
  valid : IsValid s'
  strict : Strict s.target s'.list
  same_target : s'.target ≡ s.target
  same_k : s'.k ≡ s.k
  same_has_peers : s'.has_peers ≡ s.has_peers
  list : (e : Contact) → holds e s'.list ≡ (holds e s.list && not (contact_eq c e))
  marks : (j : Key) → lookup j s'.contacted ≡ (if key_eq c.id j then none else lookup j s.contacted)

-- Whether one of the contacts has the id.
unfoldable pub names : Key → List Contact → Bool
names j [] = false
names j (c ∷ cs) = key_eq c.id j || names j cs

pub record Removes (s : Shortlist) (cs : List Contact) (s' : Shortlist) : Type 0 where
  pub valid : IsValid s'
  pub strict : Strict s.target s'.list
  pub same_target : s'.target ≡ s.target
  pub same_k : s'.k ≡ s.k
  pub same_has_peers : s'.has_peers ≡ s.has_peers
  pub list : (e : Contact) → holds e s'.list ≡ (holds e s.list && not (holds e cs))
  pub marks :
      (j : Key) → lookup j s'.contacted ≡ (if names j cs then none else lookup j s.contacted)

length-cut : (i : ℕ) (cs : List Contact) → length (take i cs ++ drop (suc i) cs) ≤ length cs
length-cut zero [] = omega arith
length-cut zero (c ∷ cs) = omega arith
length-cut (suc i) [] = omega arith
length-cut (suc i) (c ∷ cs) = omega (arith, length-cut i cs)

cut-IsValid :
    (c : Contact) (i : ℕ) (s : Shortlist)
    → IsValid s
    → IsValid (record s {
      list = take i s.list ++ drop (suc i) s.list;
      contacted = KeyMap.delete c.id s.contacted;
    })
cut-IsValid c i s v = record {
  target = v.target;
  sorted = Sorted-cut s.target i s.list v.sorted;
  keyed =
      All-append Keyed (take i s.list) (drop (suc i) s.list) (All-take Keyed i s.list v.keyed)
        (All-drop Keyed (suc i) s.list v.keyed);
  bounded = omega (arith, v.bounded, length-cut i s.list);
  marks = delete-Distinct c.id s.contacted v.marks;
}

unmark-IsValid :
    (c : Contact) (s : Shortlist)
    → IsValid s
    → IsValid (record s { contacted = KeyMap.delete c.id s.contacted })
unmark-IsValid c s v = record {
  target = v.target;
  sorted = v.sorted;
  keyed = v.keyed;
  bounded = v.bounded;
  marks = delete-Distinct c.id s.contacted v.marks;
}

-- Whatever the list has at the contact's place, the shortlist stays valid.
pub remove_one-IsValid : (c : Contact) (s : Shortlist) → IsValid s → IsValid (remove_one c s)
unfolding remove_one
remove_one-IsValid c s v =
    let i = search s.target s.list c in
    elim (Bool-cases (stands_at s.list (search s.target s.list c) c)) [
      | inl e ↦ rw (remove_one, e) (cut-IsValid c i s v)
      | inr e ↦ rw (remove_one, e) (unmark-IsValid c s v)
    ]

Drops-remove_one :
    (c : Contact) (s : Shortlist)
    → IsKey c.id
    → IsValid s
    → Strict s.target s.list
    → Drops s c (remove_one c s)
unfolding remove_one
Drops-remove_one c s kc v st =
    let cs = s.list in
    let i = search s.target cs c in
    let place = Place-search s.target cs c v.target kc v.keyed v.sorted in
    let marks = λ (j : Key). lookup-delete c.id j s.contacted v.marks in
    elim (Bool-cases (stands_at s.list (search s.target s.list c) c)) [
      | inl e ↦
          rw (remove_one, e)
            (record {
              valid = cut-IsValid c i s v;
              strict = Strict-cut s.target i cs st;
              same_target = refl;
              same_k = refl;
              same_has_peers = refl;
              list = holds-cut s.target c i cs st place e;
              marks = marks;
            })
      | inr e ↦
          rw (remove_one, e)
            (record {
              valid = unmark-IsValid c s v;
              strict = st;
              same_target = refl;
              same_k = refl;
              same_has_peers = refl;
              list =
                  λ d. ground (arith, stands_lem s.target c i cs st place, e, contact_eq_iff c d);
              marks = marks;
            })
    ]

-- `Remove`, with contacts that have keys, on a valid shortlist in which no two contacts are at the
-- same distance: exactly the given contacts leave the list, exactly their ids leave the set of those
-- contacted, and the shortlist stays valid.
pub remove_all_lem :
    (s : Shortlist) (cs : List Contact)
    → IsValid s
    → Strict s.target s.list
    → All Keyed cs
    → Removes s cs (remove_all s cs)
unfolding remove_all holds names
remove_all_lem s [] v st ks = record {
  valid = v;
  strict = st;
  same_target = refl;
  same_k = refl;
  same_has_peers = refl;
  list = λ e. ground arith;
  marks = λ j. refl;
}
remove_all_lem s (c ∷ cs) v st ks =
    let one = Drops-remove_one c s ks.0 v st in
    let rest = remove_all_lem (remove_one c s) cs one.valid one.strict ks.1 in
    record {
      valid = rest.valid;
      strict = rest.strict;
      same_target = rest.same_target ∙ one.same_target;
      same_k = rest.same_k ∙ one.same_k;
      same_has_peers = rest.same_has_peers ∙ one.same_has_peers;
      list = λ e. ground (arith, rest.list e, one.list e);
      marks = λ j. ground (arith, rest.marks j, one.marks j);
    }
