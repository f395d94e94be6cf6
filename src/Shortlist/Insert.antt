-- ===== src/Shortlist/Insert.antt =====
-- `Insert` of `shortlist` in dht/node.go.
use inu.Base.{
  ℕ, zero, suc, ◌≤◌, ◌≡◌, refl, sym, Bool, true, false, ◌||◌, List, [], ◌∷◌, ◌++◌, All, All-append,
  length, take, drop, length-take, min, take-append-drop, take_of_length-le, ltb, arith, Bool-cases,
  inl, inr,
}
use inu.Key.{Key, IsKey}
use inu.KeyMap
use inu.Contact.{Contact, contact_eq, contact_eq_iff}
use inu.Shortlist.{Shortlist, search, stands_at, insert_one, insert_each, insert_all}
use inu.Shortlist.Sorted.{
  Sorted, Keyed, All-take, All-drop, Sorted-middle, Sorted-take, Place-search,
}

unfoldable pub holds : Contact → List Contact → Bool
holds e [] = false
holds e (d ∷ cs) = contact_eq d e || holds e cs

pub holds-append : (e : Contact) (a b : List Contact) → holds e (a ++ b) ≡ (holds e a || holds e b)
unfolding holds
holds-append e [] b = refl
holds-append e (d ∷ a) b = ground (arith, holds-append e a b)

pub holds-split :
    (e : Contact) (i : ℕ) (cs : List Contact)
    → holds e cs ≡ (holds e (take i cs) || holds e (drop i cs))
holds-split e i cs = rw (sym (holds-append e (take i cs) (drop i cs)), take-append-drop i cs)

holds_at : (i : ℕ) (cs : List Contact) (c : Contact) → stands_at cs i c ≡ true → holds c cs ≡ true
unfolding stands_at holds
holds_at i [] c h = cc
holds_at zero (d ∷ cs) c h = ground (arith, h)
holds_at (suc i) (d ∷ cs) c h = ground (arith, holds_at i cs c h)

-- What an insertion keeps: the order, and the contacts that were there or are put in.
pub record Grows (t : Key) (cs new out : List Contact) : Type 0 where
  pub sorted : Sorted t out
  pub keyed : All Keyed out
  pub same : (e : Contact) → holds e out ≡ (holds e cs || holds e new)

module _ (t : Key) (kt : IsKey t) where
  Grows-insert_one :
      (c : Contact) (cs : List Contact)
      → IsKey c.id
      → All Keyed cs
      → Sorted t cs
      → Grows t cs (c ∷ []) (insert_one t c cs)
  unfolding insert_one
  Grows-insert_one c cs kc ks s =
      let i = search t cs c in
      let place = Place-search t cs c kt kc ks s in
      elim (Bool-cases (stands_at cs (search t cs c) c)) [
        | inl e ↦
            rw (insert_one, e)
              (record {
                sorted = s;
                keyed = ks;
                same = λ d.
                    unfold holds in
                    ground (arith, holds_at (search t cs c) cs c e, contact_eq_iff c d);
              })
        | inr e ↦
            rw (insert_one, e)
              (record {
                sorted = Sorted-middle t i cs c s place.before place.after;
                keyed =
                    All-append Keyed (take i cs) (c ∷ drop i cs) (All-take Keyed i cs ks)
                      (kc, All-drop Keyed i cs ks);
                same = λ d.
                    unfold holds in
                    ground (arith, holds-append d (take i cs) (c ∷ drop i cs), holds-split d i cs);
              })
      ]

  Grows-insert_each :
      (new cs : List Contact)
      → All Keyed new
      → All Keyed cs
      → Sorted t cs
      → Grows t cs new (insert_each t new cs)
  unfolding insert_each holds
  Grows-insert_each [] cs kn ks s = record { sorted = s; keyed = ks; same = λ e. ground arith }
  Grows-insert_each (c ∷ new) cs kn ks s =
      let one = Grows-insert_one c cs kn.0 ks s in
      let rest = Grows-insert_each new (insert_one t c cs) kn.1 one.keyed one.sorted in
      record {
        sorted = rest.sorted;
        keyed = rest.keyed;
        same = λ e. ground (arith, rest.same e, one.same e);
      }

-- The list is in order and within the bound, and no key is marked twice.
pub record IsValid (s : Shortlist) : Type 0 where
  pub target : IsKey s.target
  pub sorted : Sorted s.target s.list
  pub keyed : All Keyed s.list
  pub bounded : length s.list ≤ s.k
  pub marks : KeyMap.Distinct s.contacted

-- `rest` is what the bound cuts off: it follows the list in the order, so it is no nearer.
pub record Inserts (s : Shortlist) (new : List Contact) (s' : Shortlist) : Type 0 where
  pub valid : IsValid s'
  pub rest : List Contact
  pub order : Sorted s.target (s'.list ++ rest)
  pub same : (e : Contact) → holds e (s'.list ++ rest) ≡ (holds e s.list || holds e new)
  pub full : length s'.list ≡ min s.k (length (s'.list ++ rest))
  pub same_k : s'.k ≡ s.k
  pub same_target : s'.target ≡ s.target
  pub same_contacted : s'.contacted ≡ s.contacted
  pub same_has_peers : s'.has_peers ≡ s.has_peers

insert_all-take :
    (s : Shortlist) (new : List Contact)
    → insert_all s new ≡ record s { list = take s.k (insert_each s.target new s.list) }
unfolding insert_all
insert_all-take s new =
    let cs = insert_each s.target new s.list in
    elim (Bool-cases (ltb s.k (length cs))) [
      | inl e ↦ rw (insert_all, e)
      | inr e ↦ rw (insert_all, e, take_of_length-le s.k cs (ground (arith, e)))
    ]

-- `Insert` into a valid shortlist of contacts that have keys: the list stays in order and within the
-- bound; with the contacts that the bound cuts off, none of them nearer than one that stays, it has
-- the old contacts and the new ones, and nothing is cut off while there is room.
pub insert_all_lem :
    (s : Shortlist) (new : List Contact)
    → IsValid s
    → All Keyed new
    → Inserts s new (insert_all s new)
insert_all_lem s new v kn =
    let cs = insert_each s.target new s.list in
    let g = Grows-insert_each s.target v.target new s.list kn v.keyed v.sorted in
    let whole = take-append-drop s.k cs in
    rw (insert_all-take s new) (record {
      valid = record {
        target = v.target;
        sorted = Sorted-take s.target s.k cs g.sorted;
        keyed = All-take Keyed s.k cs g.keyed;
        bounded = omega (arith, length-take s.k cs);
        marks = v.marks;
      };
      rest = drop s.k cs;
      order = rw whole g.sorted;
      same = λ e. rw whole (g.same e);
      full = rw whole (length-take s.k cs);
      same_k = refl;
      same_target = refl;
      same_contacted = refl;
      same_has_peers = refl;
    })
