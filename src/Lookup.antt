-- ===== src/Lookup.antt =====
-- `lookup` of dht/node.go, a round at a time: the contacts that a round asks, what their replies do,
-- and how the round ends. The replies are a list in the order in which they come in; the contacts of
-- a round are marked before the first of them. The counts of the configuration are not negative.
pub mod Replies
pub mod Loop
pub mod Sending
use mathlib.Core.List.{Perm}
use inu.Shortlist.Sorted.{Keyed}
use inu.Base.{
  All, ℕ, zero, suc, ◌-◌, ◌^◌, ◌<◌, ◌≡◌, Bool, true, false, List, [], ◌∷◌, ◌++◌, map, take, length,
  ltb, Option, none, some, if◌then◌else◌, Run, ok, err, panic, out_of_fuel,
}
use inu.Key.{Key}
use inu.Contact.{Contact, contact_eq}
use inu.PeerStore.{Peer, PeerStore, get, put, get_all}
use inu.PeerStore
use inu.Node.Handlers.{Node}
use inu.Shortlist.{
  Shortlist, new_shortlist, insert_all, remove_all, set_contacted, set_as_having_peers,
  all_contacted, pick_not_contacted, pick_closest_without_value, head,
}

-- `math.MaxInt`
abbrev pub max_int : ℕ
max_int = 2 ^ 63 - 1

-- What `FindNode` or `FindPeers` of the contact returned: an error, contacts, or peers of the key.
pub data Answer : Type 0 where
  failed : Answer
  closer : List Contact → Answer
  with_peers : List Peer → Answer

-- `late` tells that no one received from `done`, as the scheduler may have it.
pub record Reply : Type 0 where
  pub from : Contact
  pub answer : Answer
  pub late : Bool

-- The state at the head of the loop.
pub record Lookup : Type 0 where
  pub closest : Shortlist
  pub limit : ℕ
  pub closest_node : Contact

pub data Error : Type 0 where
  no_close_nodes all_unreachable found_peers no_peers : Error

abbrev pub Result {ℓ} : Type ℓ → Type ℓ
Result = Run Error

-- `closest.list[0]` panics on an empty list.
abbrev pub start_at : ℕ → Shortlist → Option Contact → Result Lookup
start_at alpha s none = panic
start_at alpha s (some c) = ok (record { closest = s; limit = alpha; closest_node = c })

-- The start of `lookup`, with the contacts of the routing table.
unfoldable pub new_lookup : ℕ → ℕ → Key → List Contact → Result Lookup
new_lookup k alpha target [] = err no_close_nodes
new_lookup k alpha target (c ∷ cs) =
    let initial = if ltb alpha (length (c ∷ cs)) then take alpha (c ∷ cs) else c ∷ cs in
    let s = insert_all (new_shortlist target k) initial in start_at alpha s (head s)

-- A late reply adds its contact again.
abbrev pub add_late : Bool → Contact → Shortlist → Shortlist
add_late true c s = insert_all s (c ∷ [])
add_late false c s = s

-- What one reply does to the list, and to the peers that were found.
unfoldable pub receive : Reply → Shortlist × Option (List Peer) → Shortlist × Option (List Peer)
receive r (s, found) = elim r.answer [
  | failed ↦ (remove_all s (r.from ∷ []), found)
  | closer cs ↦ (add_late r.late r.from (insert_all s cs), found)
  | with_peers ps ↦ (add_late r.late r.from (set_as_having_peers s (r.from ∷ [])), some ps)
]

unfoldable pub receive_all :
    List Reply → Shortlist × Option (List Peer) → Shortlist × Option (List Peer)
unfolding receive
receive_all [] x = x
receive_all (r ∷ rs) x = receive_all rs (receive r x)

-- How a round ends: in another round, or with a result. Found peers are also sent to the nearest
-- contact that did not have them.
pub data Outcome : Type 0 where
  again : Lookup → Outcome
  found_at : List Peer → Option Contact → Outcome
  nearest : List Contact → Outcome
  unreachable : Outcome

-- The end of a round without peers.
abbrev pub compare : ℕ → Contact → Shortlist → Option Contact → Outcome
compare alpha closest_node s none = unreachable
compare alpha closest_node s (some h) =
    if contact_eq closest_node h
    then (if all_contacted s
        then nearest s.list
        else again (record { closest = s; limit = max_int; closest_node = closest_node }))
    else again (record { closest = s; limit = alpha; closest_node = h })

abbrev pub conclude : ℕ → Contact → Shortlist × Option (List Peer) → Outcome
conclude alpha closest_node (s, some ps) = found_at ps (pick_closest_without_value s)
conclude alpha closest_node (s, none) = compare alpha closest_node s (head s)

unfoldable pub to_contact : Lookup → List Contact
to_contact l = pick_not_contacted l.closest l.limit

unfoldable pub round : ℕ → List Reply → Lookup → Outcome
unfolding to_contact receive_all
round alpha replies l =
    conclude alpha l.closest_node
      (receive_all replies (set_contacted l.closest (to_contact l), none))

-- The contacts of a reply have keys.
abbrev pub IsAnswer : Answer → Type 0
IsAnswer failed = Unit
IsAnswer (closer cs) = All Keyed cs
IsAnswer (with_peers ps) = Unit

abbrev pub IsReply : Reply → Type 0
IsReply r = Keyed r.from × IsAnswer r.answer

-- The loop: each round gets a reply from every contact that it asks, in some order.
pub data Rounds (alpha : ℕ) (l : Lookup) : Lookup → Type 0 where
  first : Rounds alpha l l
  next :
      (m m' : Lookup) (replies : List Reply)
      → Rounds alpha l m
      → Perm (map (λ r. r.from) replies) (to_contact m)
      → All IsReply replies
      → round alpha replies m ≡ again m'
      → Rounds alpha l m'

-- `FindNode` after its lookup.
abbrev pub find_node : Result Outcome → Result (List Contact)
find_node (ok (nearest cs)) = ok cs
find_node (ok (found_at ps c)) = err found_peers
find_node (ok unreachable) = err all_unreachable
find_node (ok (again l)) = out_of_fuel
find_node (err e) = err e
find_node panic = panic
find_node out_of_fuel = out_of_fuel

-- `FindPeers` after its own store had no peers, and after its lookup.
abbrev pub cache : Node → Key → Result Outcome → Node × Result (List Peer)
cache n k (ok (found_at ps c)) = (record n { peer_store = put n.peer_store k ps }, ok ps)
cache n k (ok (nearest cs)) = (n, err no_peers)
cache n k (ok unreachable) = (n, err all_unreachable)
cache n k (ok (again l)) = (n, out_of_fuel)
cache n k (err e) = (n, err e)
cache n k panic = (n, panic)
cache n k out_of_fuel = (n, out_of_fuel)

-- `found` is the result of the lookup, which is made when the store has no peers.
abbrev pub or_ask :
    Node → Key → Run PeerStore.Error (List Peer) → Result Outcome → Node × Result (List Peer)
or_ask n k (ok ps) found = (n, ok ps)
or_ask n k (err e) found = cache n k found
or_ask n k panic found = (n, panic)
or_ask n k out_of_fuel found = (n, out_of_fuel)

unfoldable pub find_peers : Node → Key → (Peer → ℕ) → Result Outcome → Node × Result (List Peer)
find_peers n k now found =
    let (store, r) = get n.peer_store k now in or_ask (record n { peer_store = store }) k r found

-- The loop of `Store` over the contacts: it ends at the first error.
unfoldable pub store_each {ℓ} :
    {World : Type ℓ} → (World → Contact → World × Bool) → World → List Contact → World × Bool
store_each send w [] = (w, true)
store_each send w (c ∷ cs) =
    let (w', sent) = send w c in
    let rest = store_each send w' cs in if sent then rest else (w', false)

-- The end of `Store`, with what `FindNode` returned.
abbrev pub send_found {ℓ} :
    {World : Type ℓ}
    → (World → Contact → World × Bool)
    → Node
    → World × Option (List Contact)
    → Node × World × Bool
send_found send n (w, none) = (n, w, false)
send_found send n (w, some cs) = let (w', sent) = store_each send w cs in (n, w', sent)

-- `Store`: `find` is `FindNode`, and `send` the call of a contact; `false` is an error.
unfoldable pub store {ℓ} :
    {World : Type ℓ}
    → (World → Key → World × Option (List Contact))
    → (World → Contact → Key → List Peer → World × Bool)
    → Node
    → World
    → Key
    → List Peer
    → Bool
    → Node × World × Bool
unfolding store_each
store find send n w k ps network_only =
    let n' = if network_only then n else record n { peer_store = put n.peer_store k ps } in
    send_found (λ v c. send v c k ps) n' (find w k)

-- The loop of `republish` over the pairs: an error is only logged.
unfoldable pub republish_each {ℓ} :
    {World : Type ℓ}
    → (World → Key → World × Option (List Contact))
    → (World → Contact → Key → List Peer → World × Bool)
    → Node
    → World
    → List (Key × List Peer)
    → Node × World
unfolding store
republish_each find send n w [] = (n, w)
republish_each find send n w ((k, ps) ∷ pairs) =
    let (n', w', sent) = store find send n w k ps true in republish_each find send n' w' pairs

unfoldable pub republish {ℓ} :
    {World : Type ℓ}
    → (World → Key → World × Option (List Contact))
    → (World → Contact → Key → List Peer → World × Bool)
    → Node
    → World
    → (Key → Peer → ℕ)
    → Node × World
unfolding republish_each
republish find send n w now =
    let (s, pairs) = get_all n.peer_store now in
    republish_each find send (record n { peer_store = s }) w pairs
