-- ===== src/Routing/Routines.antt =====
-- The routines of dht/node.go over the routing table: `Bootstrap`, and a turn of `refresh`. What
-- `FindNode` returns is an input.
pub mod Total
use inu.Base.{
  ℕ, ◌+◌, ◌*◌, ◌^◌, Bool, true, false, List, [], ◌∷◌, ◌++◌, ltb, if◌then◌else◌, Option, none, some,
  Run, ok, err, panic, out_of_fuel, ◌>>=◌,
}
use inu.Key.{Key}
use inu.Contact.{Contact}
use inu.Routing.Bucket.{Bucket, Ping, Result}
use inu.Routing.Table.{RoutingTable, update_contact}

-- `time.Hour`, in nanoseconds.
abbrev pub hour : ℕ
hour = 3600 * 10 ^ 9

-- The rounds of `updateContact`, as many as it can take.
abbrev pub rounds : ℕ
rounds = 257

abbrev pub front : List Contact → List Contact
front [] = []
front (c ∷ cs) = c ∷ []

-- The contacts that `refresh` looks up: the first of each bucket that was not updated for an hour.
unfoldable pub stale : ℕ → List Bucket → List Contact
stale now [] = []
stale now (b ∷ bs) =
    let more = stale now bs in
    if ltb (b.last_updated + hour) now then front b.contacts ++ more else more

-- The loop over the contacts that were found, with a reading of the clock for each.
unfoldable pub update_each :
    RoutingTable → Ping → (Contact → ℕ) → List Contact → Result RoutingTable
update_each rt ping now [] = ok rt
update_each rt ping now (c ∷ cs) = do
  rt' ← update_contact rounds rt c ping (now c)
  update_each rt' ping now cs

-- `refresh` goes on after an error of `FindNode`, which gives no contacts.
unfoldable pub refresh_each :
    RoutingTable
    → Ping
    → (Contact → ℕ)
    → (Contact → Option (List Contact))
    → List Contact
    → Result RoutingTable
unfolding update_each
refresh_each rt ping now find_node [] = ok rt
refresh_each rt ping now find_node (c ∷ cs) = do
  rt' ← update_each rt ping now (elim (find_node c) [ none ↦ [] | some found ↦ found ])
  refresh_each rt' ping now find_node cs

unfoldable pub refresh :
    RoutingTable
    → Ping
    → (Contact → ℕ)
    → (Contact → Option (List Contact))
    → ℕ
    → Result RoutingTable
unfolding refresh_each stale
refresh rt ping now find_node at = refresh_each rt ping now find_node (stale at rt.buckets)

-- `Bootstrap`; `false` is the error of `FindNode`.
unfoldable pub bootstrap :
    RoutingTable
    → Ping
    → (Contact → ℕ)
    → Contact
    → Option (List Contact)
    → Result (RoutingTable × Bool)
unfolding update_each
bootstrap rt ping now c find_node = do
  rt' ← update_contact rounds rt c ping (now c)
  elim find_node [
    | none ↦ ok (rt', false)
    | some found ↦ do rt'' ← update_each rt' ping now found; ok (rt'', true)
  ]
