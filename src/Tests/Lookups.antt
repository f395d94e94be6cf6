-- ===== src/Tests/Lookups.antt =====
-- A lookup of two rounds, and the properties of lookups at it.
use mathlib.Core.List.Perm
use mathlib.Core.List.{Perm}
use inu.Base.{Bool, List, ◌⊎◌, Option, true, some, ◌≡◌, refl, false, [], ◌∷◌, ok, map, arith}
use inu.Key.{Key, xor, cmp, key_eq}
use inu.Contact.{Contact, contact_eq}
use inu.Shortlist.{insert_all, set_contacted, all_contacted, pick_not_contacted}
use inu.KeyMap
use inu.Lookup.{
  Lookup, Reply, closer, new_lookup, receive_all, to_contact, round, again, nearest, Rounds, first,
  next,
}
use inu.PeerStore.{Peer, new_peer_store}
use inu.Asn.{absent}
use inu.Node.Handlers.{Node}
use inu.Lookup.{store}
use inu.Lookup.Sending.{Sent, Broken, store-Sent}
use inu.Lookup.Loop.{IsReady, Nearest, Rounds-IsReady, lookup-Nearest}
use inu.Tests.Shortlists.{byte_key, byte_key-IsKey, node_at, none_yet}

abbrev begun : Lookup
begun = record {
  closest = record none_yet { list = node_at 7 ∷ [] };
  limit = 1;
  closest_node = node_at 7;
}

abbrev reply_of_seven : Reply
reply_of_seven = record { from = node_at 7; answer = closer (node_at 5 ∷ []); late = false }

abbrev reply_of_five : Reply
reply_of_five = record { from = node_at 5; answer = closer []; late = false }

abbrev after_one : Lookup
after_one = record {
  closest = record none_yet {
    list = node_at 5 ∷ node_at 7 ∷ [];
    contacted = (byte_key 7, tt) ∷ [];
  };
  limit = 1;
  closest_node = node_at 5;
}

begun-IsReady : IsReady (byte_key 4) 2 begun
begun-IsReady = record {
  valid = record {
    target = byte_key-IsKey 4 (omega arith);
    sorted = (tt, tt);
    keyed = (byte_key-IsKey 7 (omega arith), tt);
    bounded = omega arith;
    marks = tt;
  };
  same_target = refl;
  same_k = refl;
  asks = omega arith;
  near = refl;
}

round_one : round 1 (reply_of_seven ∷ []) begun ≡ again after_one
unfolding round receive_all to_contact pick_not_contacted set_contacted insert_all all_contacted xor
    cmp contact_eq key_eq KeyMap.insert KeyMap.lookup
round_one = refl

round_two : round 1 (reply_of_five ∷ []) after_one ≡ nearest (node_at 5 ∷ node_at 7 ∷ [])
unfolding round receive_all to_contact pick_not_contacted set_contacted insert_all all_contacted xor
    cmp contact_eq key_eq KeyMap.insert KeyMap.lookup
round_two = refl

asked_seven : Perm (map (λ (r : Reply). r.from) (reply_of_seven ∷ [])) (to_contact begun)
unfolding to_contact pick_not_contacted KeyMap.lookup
asked_seven = Perm.refl (node_at 7 ∷ [])

begun_lem : new_lookup 2 1 (byte_key 4) (node_at 7 ∷ []) ≡ ok begun
unfolding new_lookup insert_all xor cmp contact_eq key_eq
begun_lem = refl

one_round : Rounds 1 begun after_one
one_round =
    next begun after_one (reply_of_seven ∷ []) first asked_seven
      ((byte_key-IsKey 7 (omega arith), (byte_key-IsKey 5 (omega arith), tt)), tt) round_one

Rounds-IsReady_example : IsReady (byte_key 4) 2 after_one
Rounds-IsReady_example =
    Rounds-IsReady (byte_key 4) 2 1 (omega arith) begun after_one begun-IsReady one_round

lookup-Nearest_example :
    Nearest
      (byte_key 4)
      2
      1
      (omega arith)
      after_one
      (reply_of_five ∷ [])
      (node_at 5 ∷ node_at 7 ∷ [])
lookup-Nearest_example =
    lookup-Nearest (byte_key 4) 2 1 (omega arith) (node_at 7 ∷ []) begun after_one
      (reply_of_five ∷ []) (node_at 5 ∷ node_at 7 ∷ []) (byte_key-IsKey 4 (omega arith))
      (byte_key-IsKey 7 (omega arith), tt) begun_lem one_round
      ((byte_key-IsKey 5 (omega arith), tt), tt) round_two

-- The first contact answers, and the second one does not.
abbrev first_only : List Contact → Contact → Key → List Peer → List Contact × Bool
first_only w c k ps = (c ∷ w, key_eq c.id (byte_key 5))

abbrev node : Node
node = record {
  rt = record { k = 2; self = node_at 4; buckets = [] };
  peer_store = new_peer_store 9;
  asn_trie = absent;
}

abbrev find_two : List Contact → Key → List Contact × Option (List Contact)
find_two w k = (w, some (node_at 5 ∷ node_at 7 ∷ []))

store-Sent_example :
    let (n', w', sent) = store find_two first_only node [] (byte_key 4) [] true in
    (((sent ≡ true)
        × Sent (λ u c. first_only u c (byte_key 4) []) [] (node_at 5 ∷ node_at 7 ∷ []) w')
      ⊎ ((sent ≡ false)
          × Broken (λ u c. first_only u c (byte_key 4) []) [] (node_at 5 ∷ node_at 7 ∷ []) w'))
    × (n'.peer_store ≡ node.peer_store)
store-Sent_example =
    store-Sent find_two first_only node [] [] (byte_key 4) [] true (node_at 5 ∷ node_at 7 ∷ []) refl
