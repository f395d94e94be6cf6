-- ===== src/Routing/Bucket.antt =====
-- `bucket` of dht/routing_table.go. `container/list` is a list of contacts, least recently seen
-- first, and a `*list.Element` is the contact that it holds: the ids in a bucket are distinct, so
-- `Remove` takes the one entry with the element's id. `k` is a Go `int` that is not negative. The
-- clock is read once in a call.
pub mod Listed
pub mod Invariant
pub mod Update
pub mod Step
pub mod Distribute
pub mod Split
pub mod View
use inu.Base.{
  ℕ, zero, suc, ◌+◌, ◌/◌, Bool, true, false, ◌&&◌, List, [], ◌∷◌, ◌++◌, Option, none, some, length,
  leb, ltb, ◌==◌, if◌then◌else◌, Run, ok, panic, ◌>>=◌,
}
use inu.Key.{Key, key_eq, set_bytes, from_big_int}
use inu.KeyMap.{KeyMap, lookup, insert, delete}
use inu.Contact.{Contact}

pub record Bucket : Type 0 where
  pub k : ℕ
  pub contacts : List Contact
  pub elements : KeyMap Contact
  pub last_updated : ℕ
  pub low : Key
  pub high : Key

-- Nothing here returns an error: a call returns or panics.
pub data NoError : Type 0 where

abbrev pub Result {ℓ} : Type ℓ → Type ℓ
Result = Run NoError

-- The `rpc` argument: whether a ping is answered. A nil one panics when it is called.
abbrev pub Ping : Type 0
Ping = Option (Contact → Bool)

unfoldable pub new_bucket : ℕ → Key → Key → ℕ → Result Bucket
new_bucket k low high now =
    if k == 0
    then panic
    else ok
        (record { k = k; contacts = []; elements = []; last_updated = now; low = low; high = high })

unfoldable pub in_range : Bucket → Key → Bool
in_range b k = leb (set_bytes b.low) (set_bytes k) && leb (set_bytes k) (set_bytes b.high)

-- `b.contacts.Remove(e)` for the element that holds this id.
unfoldable pub remove : Key → List Contact → List Contact
remove k [] = []
remove k (c ∷ cs) = if key_eq c.id k then cs else c ∷ remove k cs

-- `e := b.contacts.PushBack(c); b.elements[c.ID] = e`
unfoldable pub push_back : Contact → Bucket → Bucket
push_back c b = record b { contacts = b.contacts ++ c ∷ []; elements = insert c.id c b.elements }

-- The full bucket that is not split: ping the least recently seen contact.
unfoldable pub challenge : Ping → Contact → List Contact → Bucket → Result (Bucket × Bool)
unfolding push_back
challenge ping c [] b = panic
challenge none c (dst ∷ rest) b = panic
challenge (some answers) c (dst ∷ rest) b =
    if answers dst
    then ok (record b { contacts = rest ++ dst ∷ [] }, false)
    else ok (push_back c (record b { contacts = rest; elements = delete dst.id b.elements }), false)

-- The result tells whether the bucket must be split.
unfoldable pub update_contact : Bucket → Contact → Key → Ping → ℕ → Result (Bucket × Bool)
unfolding remove push_back in_range challenge
update_contact old c self ping now =
    let b = record old { last_updated = now } in
    elim (lookup c.id b.elements) [
      | some e ↦ ok (push_back c (record b { contacts = remove e.id b.contacts }), false)
      | none ↦
          if ltb (length b.contacts) b.k
          then ok (push_back c b, false)
          else if in_range b self
          then ok (b, true)
          else challenge ping c b.contacts b
    ]

-- The loop of `Split` over the map: each contact goes to the half that its id is in.
unfoldable pub distribute :
    ℕ → Key → ℕ → KeyMap Contact → Bucket → Bucket → Result (Bucket × Bucket)
unfolding update_contact
distribute mid self now [] x y = ok (x, y)
distribute mid self now ((_, c) ∷ es) x y = elim (leb (set_bytes c.id) mid) [
  | true ↦ do (x', _) ← update_contact x c self none now; distribute mid self now es x' y
  | false ↦ do (y', _) ← update_contact y c self none now; distribute mid self now es x y'
]

abbrev pub or_panic {ℓ} : {A : Type ℓ} → Option A → Result A
or_panic none = panic
or_panic (some a) = ok a

unfoldable pub midpoint : Bucket → ℕ
midpoint b = (set_bytes b.low + set_bytes b.high) / 2

unfoldable pub split : Bucket → Key → ℕ → Result (Bucket × Bucket)
unfolding new_bucket distribute midpoint
split b self now = do
  mid_x ← or_panic (from_big_int (midpoint b))
  mid_y ← or_panic (from_big_int (midpoint b + 1))
  x ← new_bucket b.k b.low mid_x now
  y ← new_bucket b.k mid_y b.high now
  distribute (midpoint b) self now b.elements x y
