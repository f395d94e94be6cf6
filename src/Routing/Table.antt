-- ===== src/Routing/Table.antt =====
-- `routingTable` of dht/routing_table.go. The mutex makes each exported call atomic, so a call is a
-- function on the table. `container/list` and the clock are as in `Bucket`.
pub mod Covers
pub mod View
pub mod Update
pub mod Learn
pub mod Total
pub mod New
pub mod Candidates
pub mod Closest
use inu.Base.{
  ℕ, zero, suc, ◌+◌, ◌<◌, Bool, true, false, List, [], ◌∷◌, ◌++◌, Option, none, some, length, set,
  get_elem?, take, drop, ltb, if◌then◌else◌, ok, panic, out_of_fuel, ◌>>=◌, ℤ, pos, negsuc,
}
use inu.Key.{Key, zero_key, key_eq, xor, cmp}
use inu.KeyMap.{KeyMap}
use inu.Contact.{Contact}
use inu.Sorting.{sort_func}
use inu.Routing.Bucket
use inu.Routing.Bucket.{Bucket, Result, Ping, new_bucket, in_range, split, or_panic}

pub record RoutingTable : Type 0 where
  pub k : ℕ
  pub self : Contact
  pub buckets : List Bucket

-- `for i := range k { high[i] = math.MaxUint8 }`, with `n` rounds left; an index past the array
-- panics.
unfoldable pub fill_high : ℕ → ℕ → Key → Result Key
fill_high zero i high = ok high
fill_high (suc n) i high = elim (ltb i (length high)) [
  | true ↦ fill_high n (i + 1) (set high i 255)
  | false ↦ panic
]

unfoldable pub new_routing_table : Contact → ℕ → ℕ → Result RoutingTable
unfolding fill_high new_bucket
new_routing_table self k now = do
  high ← fill_high k 0 zero_key
  b ← new_bucket k zero_key high now
  ok (record { k = k; self = self; buckets = b ∷ [] })

-- The index of the first bucket whose range has the key.
unfoldable pub bucket : List Bucket → Key → Result ℕ
unfolding in_range
bucket [] k = panic
bucket (b ∷ bs) k = if in_range b k then ok 0 else (do i ← bucket bs k; ok (suc i))

-- Steps 1 to 3 of a split: `x` takes the place of the old bucket, and `y` is inserted behind it.
unfoldable pub put_halves : ℕ → Bucket → Bucket → List Bucket → List Bucket
put_halves i x y bs = let set_x = set bs i x in take (suc i) set_x ++ y ∷ drop (suc i) set_x

-- The recursion after a split is on fuel.
unfoldable pub update_contact : ℕ → RoutingTable → Contact → Ping → ℕ → Result RoutingTable
unfolding bucket put_halves split
update_contact zero rt c ping now = out_of_fuel
update_contact (suc f) rt c ping now = do
  i ← bucket rt.buckets c.id
  b ← or_panic (get_elem? rt.buckets i)
  (b', must_split) ← Bucket.update_contact b c rt.self.id ping now
  elim must_split [
    | false ↦ ok (record rt { buckets = set rt.buckets i b' })
    | true ↦ do
      (x, y) ← split b' rt.self.id now
      update_contact f (record rt { buckets = put_halves i x y (set rt.buckets i b') }) c ping now
  ]

-- The entries of one bucket's map that `FindClosestNodes` keeps.
unfoldable pub others : Key → KeyMap Contact → List Contact
others exclude [] = []
others exclude ((_, c) ∷ es) =
    if key_eq c.id exclude then others exclude es else c ∷ others exclude es

unfoldable pub candidates : Key → List Bucket → List Contact
unfolding others
candidates exclude [] = []
candidates exclude (b ∷ bs) = others exclude b.elements ++ candidates exclude bs

-- The comparison that the sort is given.
unfoldable pub by_distance : Key → Contact → Contact → ℤ
by_distance k a b = cmp (xor k a.id) (xor k b.id)

unfoldable pub find_closest_nodes : RoutingTable → Key → Key → List Contact
unfolding candidates by_distance
find_closest_nodes rt k exclude =
    let cs = sort_func (by_distance k) (candidates exclude rt.buckets) in
    if ltb rt.k (length cs) then take rt.k cs else cs
