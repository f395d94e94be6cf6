-- ===== src/Lookup/Loop.antt =====
-- The rounds of `lookup` in dht/node.go: what holds at the head of each, and what the loop returns.
use inu.Base.{
  ℕ, ◌<◌, ◌≤◌, ◌≡◌, inl, inr, refl, sym, ap, subst, ◌∙◌, true, List, [], ◌∷◌, length, get_elem?,
  All, Option, none, some, Bool-cases, arith, if◌then◌else◌, take, ltb, ok,
}
use inu.Key.{Key, IsKey}
use inu.Contact.{Contact, contact_eq, contact_eq_iff}
use inu.PeerStore.{Peer}
use inu.Shortlist.{Shortlist, new_shortlist, insert_all, set_contacted, all_contacted, head}
use inu.Shortlist.Sorted.{Sorted, Keyed, All-take}
use inu.Shortlist.Insert.{IsValid}
use inu.Lookup.{
  new_lookup, start_at, Reply, Lookup, receive_all, again, nearest, compare, conclude, to_contact,
  round, IsReply, Rounds, first, next,
}
use inu.Lookup.Replies.{
  Keeps, Keeps-trans, insert_all-Keeps, set_contacted-Keeps, receive_all-Keeps,
}

-- What holds at the head of the loop.
pub record IsReady (target : Key) (k : ℕ) (l : Lookup) : Type 0 where
  pub valid : IsValid l.closest
  pub same_target : l.closest.target ≡ target
  pub same_k : l.closest.k ≡ k
  pub asks : 0 < l.limit
  pub near : head l.closest ≡ some l.closest_node

compare-again :
    (alpha : ℕ) (c : Contact) (s : Shortlist) (h : Option Contact) (l : Lookup)
    → 0 < alpha
    → compare alpha c s h ≡ again l
    → (l.closest ≡ s) × (h ≡ some l.closest_node) × (0 < l.limit)
compare-again alpha c s none l p e = cc
compare-again alpha c s (some h) l p e = elim (Bool-cases (contact_eq c h)) [
  | inl same ↦ elim (Bool-cases (all_contacted s)) [
    | inl done ↦ absurd (ground (arith, same, done, e))
    | inr left ↦ ground (arith, same, left, e, contact_eq_iff c h, p)
  ]
  | inr other ↦ ground (arith, other, e, p)
]

conclude-again :
    (alpha : ℕ) (c : Contact) (x : Shortlist × Option (List Peer)) (l : Lookup)
    → 0 < alpha
    → conclude alpha c x ≡ again l
    → (l.closest ≡ x.0) × (head x.0 ≡ some l.closest_node) × (0 < l.limit)
conclude-again alpha c (s, some ps) l p e = cc
conclude-again alpha c (s, none) l p e = compare-again alpha c s (head s) l p e

module _ (target : Key) (k alpha : ℕ) (some_at_once : 0 < alpha) where
  asked-Keeps :
      (l : Lookup) (replies : List Reply)
      → IsReady target k l
      → All IsReply replies
      → Keeps l.closest (receive_all replies (set_contacted l.closest (to_contact l), none)).0
  asked-Keeps l replies r h =
      let s = set_contacted l.closest (to_contact l) in
      let a = set_contacted-Keeps l.closest (to_contact l) r.valid in
      Keeps-trans l.closest s (receive_all replies (s, none)).0 a
        (receive_all-Keeps replies s none a.valid h)

  round-IsReady :
      (l l' : Lookup) (replies : List Reply)
      → IsReady target k l
      → All IsReply replies
      → round alpha replies l ≡ again l'
      → IsReady target k l'
  unfolding round
  round-IsReady l l' replies r h e =
      let x = receive_all replies (set_contacted l.closest (to_contact l), none) in
      let (same, near, asks) = conclude-again alpha l.closest_node x l' some_at_once e in
      let a = asked-Keeps l replies r h in
      record {
        valid = subst IsValid (sym same) a.valid;
        same_target = ap (λ (s : Shortlist). s.target) same ∙ a.target ∙ r.same_target;
        same_k = ap (λ (s : Shortlist). s.k) same ∙ a.bound ∙ r.same_k;
        asks = asks;
        near = ap head same ∙ near;
      }

  -- At the head of each round of a lookup that asks at least one contact at once, from a state for
  -- which this holds, whatever the replies are, if their contacts have keys: the list is in order of
  -- the distance to the target and within the bound, and the loop's closest node is the first of it.
  pub Rounds-IsReady : (l m : Lookup) → IsReady target k l → Rounds alpha l m → IsReady target k m
  Rounds-IsReady l m r first = r
  Rounds-IsReady l _ r (next m m' replies rounds perm h e) =
      round-IsReady m m' replies (Rounds-IsReady l m r rounds) h e

  -- The list when the replies of a round have come in, its marks with it.
  abbrev after_round : Lookup → List Reply → Shortlist
  after_round m replies = (receive_all replies (set_contacted m.closest (to_contact m), none)).0

  -- What a lookup returns when it found no peers: the contacts of its list after the last round, which
  -- are all marked as asked there, and of which the first is the closest node of that round.
  pub record Nearest (m : Lookup) (replies : List Reply) (cs : List Contact) : Type 0 where
    pub list : (after_round m replies).list ≡ cs
    pub asked : all_contacted (after_round m replies) ≡ true
    pub sorted : Sorted target cs
    pub bounded : length cs ≤ k
    pub starts : get_elem? cs 0 ≡ some m.closest_node

  compare-nearest :
      (c : Contact) (s : Shortlist) (h : Option Contact) (cs : List Contact)
      → compare alpha c s h ≡ nearest cs
      → (s.list ≡ cs) × (all_contacted s ≡ true) × (h ≡ some c)
  compare-nearest c s none cs e = cc
  compare-nearest c s (some h) cs e = elim (Bool-cases (contact_eq c h)) [
    | inl same ↦ elim (Bool-cases (all_contacted s)) [
      | inl done ↦ ground (arith, same, done, e, contact_eq_iff c h)
      | inr left ↦ absurd (ground (arith, same, left, e))
    ]
    | inr other ↦ absurd (ground (arith, other, e))
  ]

  conclude-nearest :
      (c : Contact) (x : Shortlist × Option (List Peer)) (cs : List Contact)
      → conclude alpha c x ≡ nearest cs
      → (x.0.list ≡ cs) × (all_contacted x.0 ≡ true) × (head x.0 ≡ some c)
  conclude-nearest c (s, some ps) cs e = cc
  conclude-nearest c (s, none) cs e = compare-nearest c s (head s) cs e

  new_lookup-IsReady :
      (initial : List Contact) (l : Lookup)
      → IsKey target
      → All Keyed initial
      → new_lookup k alpha target initial ≡ ok l
      → IsReady target k l
  unfolding new_lookup
  new_lookup-IsReady [] l t h e = cc
  new_lookup-IsReady (c ∷ cs) l t h e =
      let picked = if ltb alpha (length (c ∷ cs)) then take alpha (c ∷ cs) else c ∷ cs in
      let keyed : All Keyed picked = elim (Bool-cases (ltb alpha (length (c ∷ cs)))) [
        | inl more ↦ rw (more) (All-take Keyed alpha (c ∷ cs) h)
        | inr few ↦ rw (few) h
      ] in
      let fresh : IsValid (new_shortlist target k) = record {
        target = t;
        sorted = tt;
        keyed = tt;
        bounded = omega arith;
        marks = tt;
      } in
      let a = insert_all-Keeps (new_shortlist target k) picked fresh keyed in
      go (insert_all (new_shortlist target k) picked) a
        (head (insert_all (new_shortlist target k) picked)) refl e
    where
      go :
          (s : Shortlist)
          → Keeps (new_shortlist target k) s
          → (o : Option Contact) → head s ≡ o
          → start_at alpha s o ≡ ok l
          → IsReady target k l
      go s a none e h = cc
      go s a (some d) e h =
          let same : record { closest = s; limit = alpha; closest_node = d } ≡ l =
            ground (arith, h) in
          subst (IsReady target k) same (record {
            valid = a.valid;
            same_target = a.target;
            same_k = a.bound;
            asks = some_at_once;
            near = e;
          })

  -- A lookup of a key that asks at least one contact at once, from contacts of the routing table that
  -- have keys, whatever the replies to its rounds, if their contacts have keys: when it ends without
  -- peers, it returns the contacts of its list after the last round, each of which is marked in that
  -- list as asked; these are in order of the distance to the target and at most as many as the bound,
  -- and the first is the loop's closest node.
  pub lookup-Nearest :
      (initial : List Contact) (l m : Lookup) (replies : List Reply) (cs : List Contact)
      → IsKey target
      → All Keyed initial
      → new_lookup k alpha target initial ≡ ok l
      → Rounds alpha l m
      → All IsReply replies
      → round alpha replies m ≡ nearest cs
      → Nearest m replies cs
  unfolding round
  lookup-Nearest initial l m replies cs t h start rounds g e =
      let x = receive_all replies (set_contacted m.closest (to_contact m), none) in
      let (same, asked, starts) = conclude-nearest m.closest_node x cs e in
      let r = Rounds-IsReady l m (new_lookup-IsReady initial l t h start) rounds in
      let a = asked-Keeps m replies r g in
      let target_same : x.0.target ≡ target = a.target ∙ r.same_target in
      let bound_same : x.0.k ≡ k = a.bound ∙ r.same_k in
      record {
        list = same;
        asked = asked;
        sorted =
            subst (λ z. Sorted target z) same
              (subst (λ t. Sorted t x.0.list) target_same a.valid.sorted);
        bounded = omega (arith, a.valid.bounded, bound_same, ap length same);
        starts = ap (λ z. get_elem? z 0) (sym same) ∙ starts;
      }
