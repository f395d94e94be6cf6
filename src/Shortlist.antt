-- ===== src/Shortlist.antt =====
-- `shortlist` of dht/node.go: the contacts that a lookup goes on with, nearest first. The mutex
-- makes each method one step. A `map[Key]struct{}` is a `KeyMap` of units, and the bound `k` is not
-- negative.
pub mod Search
pub mod Sorted
pub mod Insert
pub mod Remove
pub mod Pick
use inu.Base.{
  ℕ, zero, suc, ◌+◌, ◌-◌, ◌/◌, Bool, true, false, ◌&&◌, ◌||◌, List, [], ◌∷◌, ◌++◌, Option, none,
  some, length, get_elem?, take, drop, ltb, leb, if◌then◌else◌, ℤ, pos, negsuc, int_eq, Run, ok,
  err, panic,
}
use inu.Key.{Key, xor, cmp}
use inu.KeyMap.{KeyMap, lookup, insert, delete}
use inu.KeyMap
use inu.Contact.{Contact, contact_eq}

abbrev pub KeySet : Type 0
KeySet = KeyMap (Unit {0})

pub record Shortlist : Type 0 where
  pub k : ℕ
  pub target : Key
  pub list : List Contact
  pub contacted : KeySet
  pub has_peers : KeySet

abbrev pub new_shortlist : Key → ℕ → Shortlist
new_shortlist target k = record {
  k = k;
  target = target;
  list = [];
  contacted = [];
  has_peers = [];
}

-- `_, found := m[k]`
abbrev pub is_some {ℓ} : {A : Type ℓ} → Option A → Bool
is_some none = false
is_some (some a) = true

-- `sort.Search`: a binary search between `i` and `j`, with the rounds that are left.
unfoldable pub search_rounds : ℕ → (ℕ → Bool) → ℕ → ℕ → ℕ
search_rounds zero f i j = i
search_rounds (suc n) f i j = elim (ltb i j) [
  | false ↦ i
  | true ↦ elim (f ((i + j) / 2)) [
    | true ↦ search_rounds n f i ((i + j) / 2)
    | false ↦ search_rounds n f (suc ((i + j) / 2)) j
  ]
]

-- The test of `search` at an entry; the search asks only at indices of the list.
unfoldable pub is_at_or_after : Key → Contact → List Contact → ℕ → Bool
is_at_or_after target c list i = elim (get_elem? list i) [
  | none ↦ true
  | some d ↦ let r = cmp (xor target d.id) (xor target c.id) in int_eq r (pos 0) || int_eq r (pos 1)
]

unfoldable pub search : Key → List Contact → Contact → ℕ
unfolding search_rounds is_at_or_after
search target list c = search_rounds (length list) (is_at_or_after target c list) 0 (length list)

-- `i < len(s.list) && s.list[i] == c`
unfoldable pub stands_at : List Contact → ℕ → Contact → Bool
stands_at list i c = elim (get_elem? list i) [ none ↦ false | some d ↦ contact_eq d c ]

-- One round of `Insert`: `append`, `copy` and the write leave the entries before `i`, the contact,
-- and the entries from `i` on.
unfoldable pub insert_one : Key → Contact → List Contact → List Contact
unfolding search stands_at
insert_one target c list =
    let i = search target list c in
    if stands_at list i c then list else take i list ++ (c ∷ drop i list)

unfoldable pub insert_each : Key → List Contact → List Contact → List Contact
unfolding insert_one
insert_each target [] list = list
insert_each target (c ∷ cs) list = insert_each target cs (insert_one target c list)

unfoldable pub insert_all : Shortlist → List Contact → Shortlist
unfolding insert_each
insert_all s cs =
    let list = insert_each s.target cs s.list in
    record s { list = if ltb s.k (length list) then take s.k list else list }

-- One round of `Remove`.
unfoldable pub remove_one : Contact → Shortlist → Shortlist
unfolding search stands_at
remove_one c s =
    let i = search s.target s.list c in
    record s {
      list = if stands_at s.list i c then take i s.list ++ drop (suc i) s.list else s.list;
      contacted = KeyMap.delete c.id s.contacted;
    }

unfoldable pub remove_all : Shortlist → List Contact → Shortlist
unfolding remove_one
remove_all s [] = s
remove_all s (c ∷ cs) = remove_all (remove_one c s) cs

unfoldable pub mark_each : List Contact → KeySet → KeySet
mark_each [] m = m
mark_each (c ∷ cs) m = mark_each cs (insert c.id tt m)

unfoldable pub set_contacted : Shortlist → List Contact → Shortlist
unfolding mark_each
set_contacted s cs = record s { contacted = mark_each cs s.contacted }

unfoldable pub set_as_having_peers : Shortlist → List Contact → Shortlist
unfolding mark_each
set_as_having_peers s cs = record s { has_peers = mark_each cs s.has_peers }

unfoldable pub each_marked : KeySet → List Contact → Bool
each_marked m [] = true
each_marked m (c ∷ cs) =
    let rest = each_marked m cs in if is_some (lookup c.id m) then rest else false

unfoldable pub all_contacted : Shortlist → Bool
unfolding each_marked
all_contacted s = each_marked s.contacted s.list

-- The loop of `PickNotContacted`, with the contacts picked so far.
unfoldable pub pick_rounds : KeySet → ℕ → List Contact → List Contact → List Contact
pick_rounds m limit picked [] = picked
pick_rounds m limit picked (c ∷ cs) =
    let skip = pick_rounds m limit picked cs in
    let pick = pick_rounds m limit (picked ++ c ∷ []) cs in
    if leb limit (length picked) then picked else if is_some (lookup c.id m) then skip else pick

unfoldable pub pick_not_contacted : Shortlist → ℕ → List Contact
unfolding pick_rounds
pick_not_contacted s limit = pick_rounds s.contacted limit [] s.list

unfoldable pub first_unmarked : KeySet → List Contact → Option Contact
first_unmarked m [] = none
first_unmarked m (c ∷ cs) =
    let rest = first_unmarked m cs in if is_some (lookup c.id m) then rest else some c

-- `none` is the error "all nodes have the value".
unfoldable pub pick_closest_without_value : Shortlist → Option Contact
unfolding first_unmarked
pick_closest_without_value s = first_unmarked s.has_peers s.list

-- `Head` of an empty list panics.
abbrev pub head : Shortlist → Option Contact
head s = get_elem? s.list 0
