-- ===== src/Routing/Bucket/Invariant.antt =====
-- What holds of every bucket, and that `UpdateContact` keeps it.
use inu.Base.{◌≤◌, ◌<◌, ◌≡◌, false, [], ◌∷◌, none, length, length-append, All, All-append, arith}
use inu.Key.{Key, IsKey, key_eq, set_bytes}
use inu.KeyMap.{lookup, Distinct}
use inu.KeyMap.Laws.{lookup-insert, insert-Distinct}
use inu.Contact.{Contact}
use inu.Routing.Bucket.{Bucket, push_back}
use inu.Routing.Bucket.Listed.{as_map, lookup-snoc, snoc-Distinct}

-- The id is a key between the bounds.
pub record InRange (low high : Key) (c : Contact) : Type 0 where
  pub key : IsKey c.id
  pub above : set_bytes low ≤ set_bytes c.id
  pub below : set_bytes c.id ≤ set_bytes high

pub record IsValid (b : Bucket) : Type 0 where
  pub positive : 0 < b.k
  pub bounded : length b.contacts ≤ b.k
  pub listed : Distinct (as_map b.contacts)
  pub mapped : Distinct b.elements
  pub agree : (id : Key) → lookup id b.elements ≡ lookup id (as_map b.contacts)
  pub inside : All (InRange b.low b.high) b.contacts
  pub low_key : IsKey b.low
  pub high_key : IsKey b.high

-- A bucket that is valid but for the map's entry at `id`, which the list does not hold.
pub record IsValidBut (id : Key) (b : Bucket) : Type 0 where
  pub room : length b.contacts < b.k
  pub listed : Distinct (as_map b.contacts)
  pub mapped : Distinct b.elements
  pub absent : lookup id (as_map b.contacts) ≡ none
  pub agree : (j : Key) → key_eq id j ≡ false → lookup j b.elements ≡ lookup j (as_map b.contacts)
  pub inside : All (InRange b.low b.high) b.contacts
  pub low_key : IsKey b.low
  pub high_key : IsKey b.high

pub push_back-IsValid :
    (b : Bucket) (c : Contact)
    → IsValidBut c.id b
    → InRange b.low b.high c
    → IsValid (push_back c b)
unfolding push_back
push_back-IsValid b c v r = record {
  positive = omega (arith, v.room);
  bounded = omega (arith, v.room, length-append b.contacts (c ∷ []));
  listed = snoc-Distinct b.contacts c v.listed v.absent;
  mapped = insert-Distinct c.id c b.elements v.mapped;
  agree = λ j.
      rw (lookup-insert c.id j c b.elements, lookup-snoc j b.contacts c v.absent)
        (ground (arith, v.agree j));
  inside = All-append (InRange b.low b.high) b.contacts (c ∷ []) v.inside (r, tt);
  low_key = v.low_key;
  high_key = v.high_key;
}
