-- ===== src/Lookup/Replies.antt =====
-- What the replies of a round of `lookup` in dht/node.go do to its list.
use inu.Base.{◌≡◌, refl, ◌∙◌, Bool, true, false, List, [], ◌∷◌, All, Option}
use inu.Contact.{Contact}
use inu.KeyMap
use inu.KeyMap.Laws.{insert-Distinct}
use inu.PeerStore.{Peer}
use inu.Shortlist.{
  Shortlist, KeySet, insert_all, remove_all, remove_one, mark_each, set_contacted,
  set_as_having_peers,
}
use inu.Shortlist.Sorted.{Keyed}
use inu.Shortlist.Insert.{IsValid, insert_all_lem}
use inu.Shortlist.Remove.{remove_one-IsValid}
use inu.Lookup.{
  Answer, failed, closer, with_peers, Reply, add_late, receive, receive_all, IsAnswer, IsReply,
}

-- The list is still valid, for the same target and within the same bound.
pub record Keeps (s s' : Shortlist) : Type 0 where
  pub valid : IsValid s'
  pub target : s'.target ≡ s.target
  pub bound : s'.k ≡ s.k

pub Keeps-trans : (s t u : Shortlist) → Keeps s t → Keeps t u → Keeps s u
Keeps-trans s t u a b = record {
  valid = b.valid;
  target = b.target ∙ a.target;
  bound = b.bound ∙ a.bound;
}

pub insert_all-Keeps :
    (s : Shortlist) (cs : List Contact) → IsValid s → All Keyed cs → Keeps s (insert_all s cs)
insert_all-Keeps s cs v k =
    let i = insert_all_lem s cs v k in
    record { valid = i.valid; target = i.same_target; bound = i.same_k }

add_late-Keeps :
    (late : Bool) (c : Contact) (s : Shortlist) → IsValid s → Keyed c → Keeps s (add_late late c s)
add_late-Keeps true c s v k = insert_all-Keeps s (c ∷ []) v (k, tt)
add_late-Keeps false c s v k = record { valid = v; target = refl; bound = refl }

mark_each-Distinct :
    (cs : List Contact) (m : KeySet) → KeyMap.Distinct m → KeyMap.Distinct (mark_each cs m)
unfolding mark_each
mark_each-Distinct [] m d = d
mark_each-Distinct (c ∷ cs) m d =
    mark_each-Distinct cs (KeyMap.insert c.id tt m) (insert-Distinct c.id tt m d)

pub set_contacted-Keeps :
    (s : Shortlist) (cs : List Contact) → IsValid s → Keeps s (set_contacted s cs)
unfolding set_contacted
set_contacted-Keeps s cs v = record {
  valid = record {
    target = v.target;
    sorted = v.sorted;
    keyed = v.keyed;
    bounded = v.bounded;
    marks = mark_each-Distinct cs s.contacted v.marks;
  };
  target = refl;
  bound = refl;
}

having_peers-Keeps :
    (s : Shortlist) (cs : List Contact) → IsValid s → Keeps s (set_as_having_peers s cs)
unfolding set_as_having_peers
having_peers-Keeps s cs v = record {
  valid = record {
    target = v.target;
    sorted = v.sorted;
    keyed = v.keyed;
    bounded = v.bounded;
    marks = v.marks;
  };
  target = refl;
  bound = refl;
}

remove_one-Keeps : (s : Shortlist) (c : Contact) → IsValid s → Keeps s (remove_one c s)
unfolding remove_one
remove_one-Keeps s c v = record { valid = remove_one-IsValid c s v; target = refl; bound = refl }

answer-Keeps :
    (from : Contact) (a : Answer) (late : Bool) (s : Shortlist) (found : Option (List Peer))
    → IsValid s
    → Keyed from
    → IsAnswer a
    → Keeps s (receive (record { from = from; answer = a; late = late }) (s, found)).0
unfolding receive remove_all
answer-Keeps from failed late s found v k h = remove_one-Keeps s from v
answer-Keeps from (closer cs) late s found v k h =
    let a = insert_all-Keeps s cs v h in
    Keeps-trans s (insert_all s cs) (add_late late from (insert_all s cs)) a
      (add_late-Keeps late from (insert_all s cs) a.valid k)
answer-Keeps from (with_peers ps) late s found v k h =
    let t = set_as_having_peers s (from ∷ []) in
    let a = having_peers-Keeps s (from ∷ []) v in
    Keeps-trans s t (add_late late from t) a (add_late-Keeps late from t a.valid k)

pub receive_all-Keeps :
    (rs : List Reply) (s : Shortlist) (found : Option (List Peer))
    → IsValid s
    → All IsReply rs
    → Keeps s (receive_all rs (s, found)).0
unfolding receive_all
receive_all-Keeps [] s found v h = record { valid = v; target = refl; bound = refl }
receive_all-Keeps (r ∷ rs) s found v h =
    let x = receive r (s, found) in
    let a = answer-Keeps r.from r.answer r.late s found v h.0.0 h.0.1 in
    Keeps-trans s x.0 (receive_all rs x).0 a (receive_all-Keeps rs x.0 x.1 a.valid h.1)
