-- ===== src/Routing/Table/New.antt =====
-- `newRoutingTable` of dht/routing_table.go: which keys the table of a capacity covers.
use native.Mathlib.Nat.{zero-add, suc-add, sub-zero, zero-sub, suc-sub-suc}
use mathlib.Core.List.{append_assoc, append-nil}
use inu.Base.{
  ◌⊎◌, inl, inr, ℕ, zero, suc, ◌+◌, ◌-◌, ◌^◌, ◌≤◌, ◌<◌, ◌≡◌, refl, ap, ◌∙◌, true, List, [], ◌∷◌,
  ◌++◌, none, length, set, drop, replicate, length-append, length-replicate, All, All-append, arith,
  inl, inr, ok, panic, ltb, ◌⊎◌,
}
use inu.Key.{Key, IsKey, key_len, zero_key, set_bytes}
use inu.Key.Number.{pow_suc}
use inu.KeyMap.{lookup}
use inu.Contact.{Contact}
use inu.Routing.Bucket.{Bucket, Ping, in_range}
use inu.Routing.Table.{RoutingTable, bucket, fill_high, new_routing_table, update_contact}
use inu.Routing.Table.Covers.{high_of, Covers, Covers-le}
use inu.Routing.Table.View.{contact_at}

set-next :
    (pre : Key) (x v : ℕ) (h : Key) → set (pre ++ x ∷ h) (length pre) v ≡ (pre ++ v ∷ []) ++ h
set-next [] x v h = refl
set-next (p ∷ pre) x v h = ap (◌∷◌ p) (set-next pre x v h)

fill_high_lem :
    (n i : ℕ) (pre h : Key)
    → i ≡ length pre
    → n ≤ length h
    → fill_high n i (pre ++ h) ≡ ok (pre ++ (replicate n 255 ++ drop n h))
unfolding fill_high
fill_high_lem zero i pre h e fits = refl
fill_high_lem (suc n) i pre [] e fits = absurd (omega arith)
fill_high_lem (suc n) i pre (x ∷ h) e fits =
    let room : ltb i (length (pre ++ x ∷ h)) ≡ true = ground (arith, length-append pre (x ∷ h)) in
    let next =
      fill_high_lem n (i + 1) (pre ++ 255 ∷ []) h (omega (arith, length-append pre (255 ∷ [])))
        (omega arith) in
    rw (room, fill_high)
      (ap (fill_high n (i + 1)) (ap (λ (z : ℕ). set (pre ++ x ∷ h) z 255) e ∙ set-next pre x 255 h)
        ∙ next
        ∙ ap ok (append_assoc pre (255 ∷ []) (replicate n 255 ++ drop n h)))

fill_high-panic :
    (n i : ℕ) (pre h : Key) → i ≡ length pre → length h < n → fill_high n i (pre ++ h) ≡ panic
unfolding fill_high
fill_high-panic zero i pre h e long = absurd (omega arith)
fill_high-panic (suc n) i pre [] e long = ground (arith, append-nil pre)
fill_high-panic (suc n) i pre (x ∷ h) e long =
    let room : ltb i (length (pre ++ x ∷ h)) ≡ true = ground (arith, length-append pre (x ∷ h)) in
    rw (room, fill_high)
      (ap (fill_high n (i + 1)) (ap (λ (z : ℕ). set (pre ++ x ∷ h) z 255) e ∙ set-next pre x 255 h)
        ∙ fill_high-panic n (i + 1) (pre ++ 255 ∷ []) h
            (omega (arith, length-append pre (255 ∷ []))) (omega arith))

set_bytes-zeros : (m : ℕ) → set_bytes (replicate m 0) ≡ 0
unfolding set_bytes
set_bytes-zeros zero = refl
set_bytes-zeros (suc m) = omega (arith, set_bytes-zeros m)

-- `n` full bytes above `m` zero bytes.
set_bytes-high : (n m : ℕ) → set_bytes (replicate n 255 ++ replicate m 0) + 256 ^ m ≡ 256 ^ (n + m)
unfolding set_bytes
set_bytes-high zero m = rw zero-add (omega (arith, set_bytes-zeros m))
set_bytes-high (suc n) m =
    let size : length {A = ℕ} (replicate n 255 ++ replicate m 0) ≡ n + m = omega (
      arith,
      length-append {A = ℕ} (replicate n 255) (replicate m 0),
      length-replicate {A = ℕ} n 255,
      length-replicate {A = ℕ} m 0,
    ) in
    rw (size, suc-add, pow_suc) (omega (arith, set_bytes-high n m))

abbrev pub high_key : ℕ → Key
high_key k = replicate k 255 ++ replicate (key_len - k) 0

All-replicate : (n b : ℕ) → b < 256 → All (λ x. x < 256) (replicate n b)
All-replicate zero b h = tt
All-replicate (suc n) b h = (h, All-replicate n b h)

drop-replicate : (k n : ℕ) → drop {A = ℕ} k (replicate n 0) ≡ replicate (n - k) 0
drop-replicate zero n = rw sub-zero
drop-replicate (suc k) zero = rw zero-sub
drop-replicate (suc k) (suc n) = rw suc-sub-suc (drop-replicate k n)

high_key-IsKey : (k : ℕ) → k ≤ key_len → IsKey (high_key k)
high_key-IsKey k h = record {
  size = omega (
    arith,
    length-append {A = ℕ} (replicate k 255) (replicate (key_len - k) 0),
    length-replicate {A = ℕ} k 255,
    length-replicate {A = ℕ} (key_len - k) 0,
  );
  bytes =
      All-append (λ x. x < 256) (replicate k 255) (replicate (key_len - k) 0)
        (All-replicate k 255 (omega arith)) (All-replicate (key_len - k) 0 (omega arith));
}

zero_key-IsKey : IsKey zero_key
zero_key-IsKey = record { size = refl; bytes = All-replicate key_len 0 (omega arith) }

-- The one bucket of a new table.
abbrev pub first_bucket : ℕ → ℕ → Bucket
first_bucket k now = record {
  k = k;
  contacts = [];
  elements = [];
  last_updated = now;
  low = zero_key;
  high = high_key k;
}

pub first_bucket-Covers :
    (k now : ℕ)
    → 0 < k
    → k ≤ key_len
    → Covers k 0 (set_bytes (high_key k)) (first_bucket k now ∷ [])
unfolding lookup
first_bucket-Covers k now h fits = (
  set_bytes-zeros key_len,
  omega arith,
  record {
    positive = h;
    bounded = omega arith;
    listed = tt;
    mapped = tt;
    agree = λ j. refl;
    inside = tt;
    low_key = zero_key-IsKey;
    high_key = high_key-IsKey k fits;
  },
  refl,
  refl,
)

-- `newRoutingTable` for a capacity from 1 to 32: it returns one empty bucket, which covers the keys
-- up to `k` bytes of ones and zeros behind them, a bound that is 256 ^ (32 - k) short of the number
-- of all keys.
pub new_routing_table_lem :
    (self : Contact) (k now : ℕ)
    → 0 < k
    → k ≤ key_len
    → (rt : RoutingTable) × (new_routing_table self k now ≡ ok rt)
      × (rt.k ≡ k)
      × (rt.self ≡ self)
      × Covers k 0 (set_bytes (high_key k)) rt.buckets
      × ((j : Key) → contact_at rt.buckets j ≡ none)
      × (set_bytes (high_key k) + 256 ^ (key_len - k) ≡ 256 ^ key_len)
unfolding new_routing_table contact_at lookup
new_routing_table_lem self k now h fits =
    let whole : k + (key_len - k) ≡ key_len = omega arith in
    let filled : fill_high k 0 zero_key ≡ ok (high_key k) =
      fill_high_lem k 0 [] zero_key refl fits
      ∙ ap (λ (z : Key). ok (replicate k 255 ++ z)) (drop-replicate k key_len) in
    let b = first_bucket k now in
    (
      record { k = k; self = self; buckets = b ∷ [] },
      rw filled (ground arith),
      refl,
      refl,
      first_bucket-Covers k now h fits,
      (λ j. refl),
      set_bytes-high k (key_len - k) ∙ ap (λ n. 256 ^ n) whole,
    )

-- `newRoutingTable` panics for a capacity of 0 and for one above 32.
pub new_routing_table-panic :
    (self : Contact) (k now : ℕ) → (k ≡ 0) ⊎ (key_len < k) → new_routing_table self k now ≡ panic
unfolding new_routing_table
new_routing_table-panic self k now (inl e) = rw e (unfold fill_high in refl)
new_routing_table-panic self k now (inr h) = rw (fill_high-panic k 0 [] zero_key refl h) refl

bucket-panic :
    (k lo hi : ℕ) (id : Key) (bs : List Bucket)
    → Covers k lo hi bs
    → hi < set_bytes id
    → lo ≤ hi + 1
    → bucket bs id ≡ panic
unfolding bucket in_range
bucket-panic k lo hi id [] c h l = refl
bucket-panic k lo hi id (b ∷ bs) c h l =
    ground
      (arith, Covers-le k (high_of b + 1) hi bs c.4, bucket-panic k (high_of b + 1) hi id bs c.4 h)

-- On a table that covers the keys up to `top`, `UpdateContact` of a contact whose id is larger
-- panics: "bucket not found".
pub update_contact-panic :
    (f : ℕ) (rt : RoutingTable) (top : ℕ) (c : Contact) (ping : Ping) (now : ℕ)
    → Covers rt.k 0 top rt.buckets
    → top < set_bytes c.id
    → update_contact (suc f) rt c ping now ≡ panic
unfolding update_contact
update_contact-panic f rt top c ping now covers h =
    rw (bucket-panic rt.k 0 top c.id rt.buckets covers h (omega arith)) refl
