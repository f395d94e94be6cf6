-- ===== src/Routing/Bucket/Split.antt =====
-- `Split` of dht/routing_table.go: it never panics on a valid bucket whose range holds two keys.
use inu.Base.{
  ℕ, suc, ◌+◌, ◌^◌, ◌≤◌, ◌<◌, ◌≡◌, refl, ap, sym, ◌∙◌, true, List, [], ◌∷◌, none, some, length,
  length-perm, All, arith, ok,
}
use inu.Key.{Key, IsKey, key_len, key_eq, set_bytes}
use inu.Key.Number.{key_eq_iff, key_eq_refl, set_bytes-lt}
use inu.Key.BigInt.{from_big_int_lem}
use inu.KeyMap.{KeyMap, lookup, Distinct}
use inu.KeyMap.Agree.{agree-perm}
use inu.Contact.{Contact}
use inu.Routing.Bucket.{Bucket, new_bucket, midpoint, split}
use inu.Routing.Bucket.Listed.{as_map, lookup-All}
use inu.Routing.Bucket.Invariant.{InRange, IsValid}
use inu.Routing.Bucket.Distribute.{Waits, Distributed, distribute_lem}

-- A property of what every lookup finds holds of every entry.
pub All-lookup {ℓ κ} :
    {V : Type ℓ} (P : Key × V → Type κ) (m : KeyMap V)
    → Distinct m
    → ((k : Key) (v : V) → lookup k m ≡ some v → P (k, v))
    → All P m
unfolding lookup
All-lookup P [] d h = tt
All-lookup P ((k, v) ∷ m) d h = (
  h k v (rw key_eq_refl),
  All-lookup P m d.1 λ j w e. h j w (ground (arith, key_eq_iff k j, e, absent j)),
)
  where
    absent : (j : Key) → key_eq k j ≡ true → lookup j m ≡ none
    absent j t = rw ((key_eq_iff k j).0 t) at (d.0)

length-as_map : (cs : List Contact) → length (as_map cs) ≡ length cs
length-as_map [] = refl
length-as_map (c ∷ cs) = ap suc (length-as_map cs)

-- The list and the map of a bucket have as many entries.
pub elements-length : (b : Bucket) → IsValid b → length b.elements ≡ length b.contacts
elements-length b v =
    length-perm (agree-perm b.elements (as_map b.contacts) v.mapped v.listed v.agree)
    ∙ length-as_map b.contacts

pub set_bytes-lt_key : (k : Key) → IsKey k → set_bytes k < 256 ^ key_len
set_bytes-lt_key k h = rw (ap (λ n. 256 ^ n) h.size) at (set_bytes-lt k h.bytes)

-- The halves of a bucket: their ranges meet between the midpoint and its successor, and each
-- contact stands in the half that its id is in.
pub record Halves (b : Bucket) (r : Bucket × Bucket) : Type 0 where
  pub valid_x : IsValid r.0
  pub valid_y : IsValid r.1
  pub k_x : r.0.k ≡ b.k
  pub k_y : r.1.k ≡ b.k
  pub low_x : r.0.low ≡ b.low
  pub high_x : set_bytes r.0.high ≡ midpoint b
  pub low_y : set_bytes r.1.low ≡ midpoint b + 1
  pub high_y : r.1.high ≡ b.high
  pub holds_x : (j : Key) → set_bytes j ≤ midpoint b → lookup j r.0.elements ≡ lookup j b.elements
  pub holds_y : (j : Key) → midpoint b < set_bytes j → lookup j r.1.elements ≡ lookup j b.elements

empty : ℕ → Key → Key → ℕ → Bucket
empty k low high now = record {
  k = k;
  contacts = [];
  elements = [];
  last_updated = now;
  low = low;
  high = high;
}

empty-IsValid :
    (k : ℕ) (low high : Key) (now : ℕ)
    → 0 < k
    → IsKey low
    → IsKey high
    → IsValid (empty k low high now)
unfolding empty lookup
empty-IsValid k low high now h hl hh = record {
  positive = h;
  bounded = omega arith;
  listed = tt;
  mapped = tt;
  agree = λ j. refl;
  inside = tt;
  low_key = hl;
  high_key = hh;
}

module _ (b : Bucket) (now : ℕ) (v : IsValid b) (mid_x mid_y : Key)
    (at_x : set_bytes mid_x ≡ midpoint b) (at_y : set_bytes mid_y ≡ midpoint b + 1) where
  -- Every entry of the bucket waits for its half, which is still empty.
  contacts_wait :
      All (Waits (midpoint b) (empty b.k b.low mid_x now) (empty b.k mid_y b.high now)) b.elements
  unfolding empty lookup
  contacts_wait = All-lookup _ b.elements v.mapped λ k c h.
      let (inside, named) =
        lookup-All (InRange b.low b.high) k b.contacts c v.inside (sym (v.agree k) ∙ h) in
      let same = ap set_bytes named in
      record {
        named = sym named;
        lower = λ l. record { key = inside.key; above = inside.above; below = omega arith };
        upper = λ l. record { key = inside.key; above = omega arith; below = inside.below };
        new_x = refl;
        new_y = refl;
      }

  Distributed-Halves :
      (r : Bucket × Bucket)
      → Distributed
          (midpoint b)
          b.elements
          (empty b.k b.low mid_x now)
          (empty b.k mid_y b.high now)
          r
      → Halves b r
  unfolding empty lookup
  Distributed-Halves r t = record {
    valid_x = t.valid_x;
    valid_y = t.valid_y;
    k_x = t.k_x;
    k_y = t.k_y;
    low_x = t.low_x;
    high_x = ap set_bytes t.high_x ∙ at_x;
    low_y = ap set_bytes t.low_y ∙ at_y;
    high_y = t.high_y;
    holds_x = λ j h. ground (arith, t.holds_x j h);
    holds_y = λ j h. ground (arith, t.holds_y j h);
  }

-- A valid bucket whose range holds at least two keys splits, with no panic, into its halves.
pub split_lem :
    (b : Bucket) (self : Key) (now : ℕ)
    → IsValid b
    → set_bytes b.low < set_bytes b.high
    → (r : Bucket × Bucket) × (split b self now ≡ ok r) × Halves b r
split_lem b self now v wide =
    let top : set_bytes b.high < 256 ^ key_len = set_bytes-lt_key b.high v.high_key in
    let mid_in : midpoint b < 256 ^ key_len = unfold midpoint in omega arith in
    let next_in : midpoint b + 1 < 256 ^ key_len = unfold midpoint in omega arith in
    let (mid_x, made_x, key_x, at_x) = from_big_int_lem (midpoint b) mid_in in
    let (mid_y, made_y, key_y, at_y) = from_big_int_lem (midpoint b + 1) next_in in
    let size = elements-length b v in
    let (r, e, t) =
      distribute_lem (midpoint b) self now b.elements (empty b.k b.low mid_x now)
        (empty b.k mid_y b.high now) (empty-IsValid b.k b.low mid_x now v.positive v.low_key key_x)
        (empty-IsValid b.k mid_y b.high now v.positive key_y v.high_key) v.mapped
        (contacts_wait b now v mid_x mid_y at_x at_y) (unfold empty in omega (arith, v.bounded))
        (unfold empty in omega (arith, v.bounded)) in
    (
      r,
      unfold split new_bucket empty in rw (made_x, made_y) (ground (arith, v.positive, e)),
      Distributed-Halves b now v mid_x mid_y at_x at_y r t,
    )
