-- ===== src/Tests/Shortlists.antt =====
-- Runs and instances for `shortlist` of dht/node.go.
use inu.Base.{ℕ, ◌<◌, ◌≡◌, refl, [], ◌∷◌, ◌++◌, replicate, arith}
use inu.Key.{Key, IsKey, xor, cmp, key_eq, set_bytes}
use inu.Key.Distance.{distance}
use inu.Contact.{Contact, contact_eq}
use inu.Shortlist.{Shortlist, new_shortlist, insert_all, remove_all}
use inu.Shortlist.Insert.{IsValid, Inserts, insert_all_lem}
use inu.Shortlist.Remove.{Removes, remove_all_lem}

abbrev pub byte_key : ℕ → Key
byte_key n = replicate 31 0 ++ n ∷ []

pub byte_key-IsKey : (n : ℕ) → n < 256 → IsKey (byte_key n)
byte_key-IsKey n h = record { size = refl; bytes = omega arith }

abbrev pub node_at : ℕ → Contact
node_at n = record { id = byte_key n; address = "10.0.0.1:3000" }

-- The same node under another address.
abbrev moved : Contact
moved = record { id = byte_key 5; address = "10.0.0.2:3000" }

abbrev pub none_yet : Shortlist
none_yet = new_shortlist (byte_key 4) 2

abbrev two_nodes : Shortlist
two_nodes = record none_yet { list = node_at 5 ∷ node_at 7 ∷ [] }

keeps_the_nearest :
    (insert_all none_yet (node_at 9 ∷ node_at 7 ∷ node_at 5 ∷ [])).list ≡ node_at 5 ∷ node_at 7 ∷ []
unfolding insert_all xor cmp contact_eq key_eq
keeps_the_nearest = refl

-- Two contacts with one id: the first stands twice in the list.
repeats_a_contact :
    (insert_all (record none_yet { k = 3 }) (node_at 5 ∷ moved ∷ node_at 5 ∷ [])).list
    ≡ node_at 5 ∷ moved ∷ node_at 5 ∷ []
unfolding insert_all xor cmp contact_eq key_eq
repeats_a_contact = refl

none_yet-IsValid : IsValid none_yet
none_yet-IsValid = record {
  target = byte_key-IsKey 4 (omega arith);
  sorted = tt;
  keyed = tt;
  bounded = omega arith;
  marks = tt;
}

insert_all_lem_example :
    Inserts none_yet (node_at 9 ∷ node_at 5 ∷ []) (insert_all none_yet (node_at 9 ∷ node_at 5 ∷ []))
insert_all_lem_example =
    insert_all_lem none_yet (node_at 9 ∷ node_at 5 ∷ []) none_yet-IsValid
      (byte_key-IsKey 9 (omega arith), (byte_key-IsKey 5 (omega arith), tt))

two_nodes-IsValid : IsValid two_nodes
unfolding distance set_bytes xor
two_nodes-IsValid = record {
  target = byte_key-IsKey 4 (omega arith);
  sorted = ((omega arith, tt), (tt, tt));
  keyed = (byte_key-IsKey 5 (omega arith), (byte_key-IsKey 7 (omega arith), tt));
  bounded = omega arith;
  marks = tt;
}

remove_all_lem_example :
    Removes two_nodes
      (node_at 5 ∷ node_at 6 ∷ [])
      (remove_all two_nodes (node_at 5 ∷ node_at 6 ∷ []))
remove_all_lem_example =
    remove_all_lem two_nodes (node_at 5 ∷ node_at 6 ∷ []) two_nodes-IsValid
      (unfold distance set_bytes xor in ((omega arith, tt), (tt, tt)))
      (byte_key-IsKey 5 (omega arith), (byte_key-IsKey 6 (omega arith), tt))
