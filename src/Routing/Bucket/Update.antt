-- ===== src/Routing/Bucket/Update.antt =====
-- What `UpdateContact` of a bucket does, on every branch.
use inu.Base.{
  ℕ, ◌<◌, ◌≡◌, sym, ◌∙◌, Bool, true, false, List, [], ◌∷◌, ◌++◌, none, some, length, length-append,
  All-append, arith,
}
use inu.Key.{Key}
use inu.Key.Number.{key_eq_iff, key_eq_refl}
use inu.KeyMap.{lookup, delete}
use inu.KeyMap.Laws.{lookup-delete, delete-Distinct}
use inu.Contact.{Contact}
use inu.Routing.Bucket.{Bucket, in_range, remove}
use inu.Routing.Bucket.Listed.{
  as_map, lookup-snoc, snoc-Distinct, as_map-remove, length-remove, All-remove,
}
use inu.Routing.Bucket.Invariant.{InRange, IsValid, IsValidBut}

-- The five ways in which a bucket takes a contact: the list that it leaves, and whether it asks to
-- be split.
pub data Takes (b : Bucket) (c : Contact) (self : Key) (answers : Contact → Bool) (l : List Contact)
    (split : Bool) : Type 0 where
  -- A known contact moves to the tail, with its new address.
  refreshes :
      (e : Contact)
      → lookup c.id b.elements ≡ some e
      → l ≡ remove c.id b.contacts ++ c ∷ []
      → split ≡ false
      → Takes b c self answers l split
  -- There is room for a new one.
  appends :
      lookup c.id b.elements ≡ none
      → length b.contacts < b.k
      → l ≡ b.contacts ++ c ∷ []
      → split ≡ false
      → Takes b c self answers l split
  -- The bucket is full and covers the node's own id.
  splits :
      lookup c.id b.elements ≡ none
      → length b.contacts ≡ b.k
      → in_range b self ≡ true
      → l ≡ b.contacts
      → split ≡ true
      → Takes b c self answers l split
  -- The least recently seen contact answers: it moves to the tail, and the new one is dropped.
  keeps :
      (dst : Contact) (rest : List Contact)
      → lookup c.id b.elements ≡ none
      → length b.contacts ≡ b.k
      → in_range b self ≡ false
      → b.contacts ≡ dst ∷ rest
      → answers dst ≡ true
      → l ≡ rest ++ dst ∷ []
      → split ≡ false
      → Takes b c self answers l split
  -- It does not answer: the new one replaces it.
  evicts :
      (dst : Contact) (rest : List Contact)
      → lookup c.id b.elements ≡ none
      → length b.contacts ≡ b.k
      → in_range b self ≡ false
      → b.contacts ≡ dst ∷ rest
      → answers dst ≡ false
      → l ≡ rest ++ c ∷ []
      → split ≡ false
      → Takes b c self answers l split

pub record Updated (b : Bucket) (c : Contact) (self : Key) (answers : Contact → Bool) (now : ℕ)
    (r : Bucket × Bool) : Type 0 where
  pub valid : IsValid r.0
  pub takes : Takes b c self answers r.0.contacts r.1
  pub same_k : r.0.k ≡ b.k
  pub same_low : r.0.low ≡ b.low
  pub same_high : r.0.high ≡ b.high
  pub stamped : r.0.last_updated ≡ now

module _ (b : Bucket) (v : IsValid b) where
  pub remove-IsValidBut :
      (k : Key) (e : Contact) (now : ℕ)
      → lookup k b.elements ≡ some e
      → IsValidBut k (record b { last_updated = now; contacts = remove k b.contacts })
  remove-IsValidBut k e now h = record {
    room = omega (arith, v.bounded, length-remove k b.contacts e (sym (v.agree k) ∙ h));
    listed = rw (as_map-remove k b.contacts) (delete-Distinct k (as_map b.contacts) v.listed);
    mapped = v.mapped;
    absent =
        rw (
          as_map-remove k b.contacts,
          lookup-delete k k (as_map b.contacts) v.listed,
          key_eq_refl k,
        );
    agree = λ j n.
        rw (as_map-remove k b.contacts, lookup-delete k j (as_map b.contacts) v.listed, n)
          (v.agree j);
    inside = All-remove (InRange b.low b.high) k b.contacts v.inside;
    low_key = v.low_key;
    high_key = v.high_key;
  }

  -- A contact of the bucket moves to the tail, and the map stays.
  pub rotate-IsValid :
      (dst : Contact) (now : ℕ)
      → lookup dst.id b.elements ≡ some dst
      → InRange b.low b.high dst
      → IsValid (record b { last_updated = now; contacts = remove dst.id b.contacts ++ dst ∷ [] })
  rotate-IsValid dst now h r =
      let w = remove-IsValidBut dst.id dst now h in
      let cs = remove dst.id b.contacts in
      record {
        positive = v.positive;
        bounded = omega (arith, w.room, length-append cs (dst ∷ []));
        listed = snoc-Distinct cs dst w.listed w.absent;
        mapped = v.mapped;
        agree = λ j.
            rw (lookup-snoc j cs dst w.absent) (ground (arith, w.agree j, h, key_eq_iff dst.id j));
        inside = All-append (InRange b.low b.high) cs (dst ∷ []) w.inside (r, tt);
        low_key = v.low_key;
        high_key = v.high_key;
      }

  -- A contact of the bucket leaves both the list and the map.
  pub evict-IsValidBut :
      (dst c : Contact) (now : ℕ)
      → lookup dst.id b.elements ≡ some dst
      → lookup c.id b.elements ≡ none
      → IsValidBut c.id (record b {
        last_updated = now;
        contacts = remove dst.id b.contacts;
        elements = delete dst.id b.elements;
      })
  evict-IsValidBut dst c now h n =
      let w = remove-IsValidBut dst.id dst now h in
      let left = λ (j : Key). lookup-delete dst.id j (as_map b.contacts) v.listed in
      let out = λ (j : Key). lookup-delete dst.id j b.elements v.mapped in
      record {
        room = w.room;
        listed = w.listed;
        mapped = delete-Distinct dst.id b.elements v.mapped;
        absent = rw as_map-remove (ground (arith, left c.id, v.agree c.id));
        agree = λ j m. rw as_map-remove (ground (arith, left j, out j, v.agree j));
        inside = w.inside;
        low_key = v.low_key;
        high_key = v.high_key;
      }

  -- The head of the list is what the map holds under its id.
  pub front_lem :
      (dst : Contact) (rest : List Contact)
      → b.contacts ≡ dst ∷ rest
      → (lookup dst.id b.elements ≡ some dst)
        × (remove dst.id b.contacts ≡ rest)
        × InRange b.low b.high dst
  front_lem dst rest e = (
    v.agree dst.id ∙ rw e (unfold lookup in rw key_eq_refl),
    rw e (unfold remove in rw key_eq_refl),
    (rw e at (v.inside)).0,
  )
