-- ===== src/Tests/Tables.antt =====
-- Runs and instances for dht/routing_table.go.
use inu.Base.{
  inr, subst, All, Option, ℕ, ◌+◌, ◌^◌, ◌<◌, ◌≡◌, refl, List, [], ◌∷◌, ◌++◌, map, Bool, true, some,
  none, ok, panic, ◌>>=◌, replicate, arith,
}
use inu.Key.{Key, IsKey, key_len, set_bytes, xor, cmp, from_big_int, key_eq}
use inu.KeyMap.{lookup, insert, delete}
use inu.Contact.{Contact}
use inu.Sorting.{sort_func}
use inu.Routing.Bucket
use inu.Routing.Bucket.{Bucket, split}
use inu.Routing.Bucket.Step.{update_contact-Updated}
use inu.Routing.Bucket.Update.{Updated}
use inu.Routing.Table.{RoutingTable, update_contact, find_closest_nodes, new_routing_table}
use inu.Routing.Table.Covers.{Covers}
use inu.Routing.Table.View.{contact_at}
use inu.Routing.Table.Learn.{Learned}
use inu.Routing.Table.Total.{max_rounds, update_contact-Learned}
use inu.Routing.Table.New.{
  high_key, first_bucket, first_bucket-Covers, new_routing_table_lem, new_routing_table-panic,
}
use inu.Routing.Table.Closest.{Closest, find_closest_nodes-Closest, find_closest_nodes-view}
use inu.Routing.Routines.{refresh}
use inu.Routing.Routines.Total.{HasPlace, Grown, refresh-Grown}

abbrev small_key : ℕ → Key
small_key n = replicate 31 0 ++ n ∷ []

small_key-IsKey : (n : ℕ) → n < 256 → IsKey (small_key n)
small_key-IsKey n h = record { size = refl; bytes = omega arith }

abbrev peer : ℕ → Contact
peer n = record { id = small_key n; address = "10.0.0.1:3000" }

abbrev pub start : RoutingTable
start = record { k = 2; self = peer 0; buckets = first_bucket 2 0 ∷ [] }

pub start-Covers : Covers 2 0 (set_bytes (high_key 2)) start.buckets
start-Covers = first_bucket-Covers 2 0 (omega arith) (omega arith)

answering : Contact → Bool
answering c = true

update_contact-Learned_example :
    (rt' : RoutingTable) × (update_contact max_rounds start (peer 5) (some answering) 7 ≡ ok rt')
    × Learned start (set_bytes (high_key 2)) (peer 5) answering rt'
update_contact-Learned_example =
    update_contact-Learned start (set_bytes (high_key 2)) (peer 5) answering 7
      (unfold set_bytes in omega arith) start-Covers (small_key-IsKey 5 (omega arith))
      (unfold set_bytes in omega arith)

new_routing_table-panic_example : new_routing_table (peer 0) 40 0 ≡ panic
new_routing_table-panic_example = new_routing_table-panic (peer 0) 40 0 (inr (omega arith))

-- A contact with the largest id, on a table of the default capacity.
abbrev largest : Contact
largest = record { id = replicate 32 255; address = "10.0.0.9:3000" }

abbrev default_table : RoutingTable
default_table = record { k = 20; self = peer 0; buckets = first_bucket 20 0 ∷ [] }

find_closest_nodes-Closest_example :
    Closest start (small_key 6) (small_key 0) (find_closest_nodes start (small_key 6) (small_key 0))
find_closest_nodes-Closest_example =
    find_closest_nodes-Closest start (set_bytes (high_key 2)) (small_key 6) (small_key 0)
      start-Covers (small_key-IsKey 6 (omega arith))

find_closest_nodes-view_example :
    find_closest_nodes start (small_key 6) (small_key 0)
    ≡ find_closest_nodes start (small_key 6) (small_key 0)
find_closest_nodes-view_example =
    find_closest_nodes-view start start (set_bytes (high_key 2)) (set_bytes (high_key 2))
      (small_key 6) (small_key 0) start-Covers start-Covers (small_key-IsKey 6 (omega arith)) refl
      (λ j. refl)

abbrev ids : List Contact → List Key
ids = map (λ c. c.id)

-- Three contacts on a table with room for two in a bucket: the table splits until
-- they are out of the bucket of its own id, and the third contact is dropped.
three_contacts :
    (do
      a ← update_contact max_rounds start (peer 5) (some answering) 1
      b ← update_contact max_rounds a (peer 4) (some answering) 2
      c ← update_contact max_rounds b (peer 7) (some answering) 3
      ok (ids (find_closest_nodes c (small_key 6) (small_key 0))))
    ≡ ok (small_key 4 ∷ small_key 5 ∷ [])
unfolding answering update_contact Bucket.update_contact find_closest_nodes sort_func split cmp xor
    set_bytes from_big_int key_eq lookup insert delete
three_contacts = refl

update_contact-Updated_example :
    (r : Bucket × Bool) × (Bucket.update_contact
        (first_bucket 2 0)
        (peer 5)
        (small_key 0)
        (some answering)
        3
      ≡ ok r)
    × Updated (first_bucket 2 0) (peer 5) (small_key 0) answering 3 r
update_contact-Updated_example =
    update_contact-Updated (first_bucket 2 0) start-Covers.2 (peer 5) (small_key 0) answering 3
      (record {
        key = small_key-IsKey 5 (omega arith);
        above = unfold set_bytes in omega arith;
        below = unfold set_bytes in omega arith;
      })

refresh-Grown_example :
    (rt' : RoutingTable) × (refresh start (some answering) (λ c. 7) (λ c. some (peer 5 ∷ [])) 9
      ≡ ok rt')
    × Grown (set_bytes (high_key 2)) start rt'
refresh-Grown_example =
    refresh-Grown (set_bytes (high_key 2)) answering (λ c. 7) (unfold set_bytes in omega arith)
      (λ c. some (peer 5 ∷ [])) start 9
      (λ c found e.
        subst (All (HasPlace (set_bytes (high_key 2)))) (found_lem found e)
          ((small_key-IsKey 5 (omega arith), (unfold set_bytes in omega arith)), tt))
      start-Covers
  where
    found_lem :
        (found : List Contact)
        → Path (Option (List Contact)) (some (peer 5 ∷ [])) (some found)
        → peer 5 ∷ [] ≡ found
    found_lem found e = ground (arith, e)

new_routing_table_lem_example :
    (rt : RoutingTable) × (new_routing_table (peer 0) 20 0 ≡ ok rt)
    × (rt.k ≡ 20)
    × (rt.self ≡ peer 0)
    × Covers 20 0 (set_bytes (high_key 20)) rt.buckets
    × ((j : Key) → contact_at rt.buckets j ≡ none)
    × (set_bytes (high_key 20) + 256 ^ 12 ≡ 256 ^ key_len)
new_routing_table_lem_example = new_routing_table_lem (peer 0) 20 0 (omega arith) (omega arith)
