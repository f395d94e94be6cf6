-- ===== src/Routing/Table/Candidates.antt =====
-- `FindClosestNodes` of dht/routing_table.go: what it collects from one bucket, and its comparison.
use mathlib.Core.List.{Mem, mem-cons_self, mem-cons_of_mem}
use inu.Base.{
  ℕ, zero, suc, ◌≤◌, ◌<◌, ◌≡◌, ◌≢◌, sym, true, false, List, [], ◌∷◌, none, some, All, arith,
  Bool-cases, inl, inr, ℤ, pos, negsuc,
}
use inu.Key.{Key, IsKey, key_eq, set_bytes}
use inu.Key.Number.{Agrees, key_eq_iff, set_bytes-injective}
use inu.Key.Distance.{distance, cmp-distance}
use inu.KeyMap.{KeyMap, lookup, Distinct}
use inu.Contact.{Contact}
use inu.Sorting.{is_negative}
use inu.Sorting.Order.{Apart, Compares}
use inu.Routing.Bucket.{Bucket}
use inu.Routing.Bucket.Invariant.{InRange, IsValid}
use inu.Routing.Bucket.Split.{All-lookup}
use inu.Routing.Bucket.View.{view, view-InRange}
use inu.Routing.Table.{others, by_distance}
use inu.Routing.Table.View.{contact_at}

abbrev pub HasKey : Contact → Type 0
HasKey c = IsKey c.id

below_of : (z : ℤ) (m n : ℕ) → Agrees z m n → is_negative z ≡ true → m < n
below_of (pos i) m n g e = cc
below_of (negsuc i) m n g e = g

above_of : (z : ℤ) (m n : ℕ) → Agrees z m n → is_negative z ≡ false → n ≤ m
above_of (pos zero) m n g e = omega arith
above_of (pos (suc i)) m n g e = omega arith
above_of (negsuc i) m n g e = cc

-- The comparison of the sort is the order of the distances.
pub by_distance-Compares :
    (t : Key) → IsKey t → Compares HasKey (λ c. distance t c.id) (by_distance t)
unfolding by_distance
by_distance-Compares t h = record {
  below = λ a b ka kb e. below_of _ _ _ (cmp-distance t a.id b.id h ka kb) e;
  above = λ a b ka kb e. above_of _ _ _ (cmp-distance t a.id b.id h ka kb) e;
}

abbrev pub number : Contact → ℕ
number c = set_bytes c.id

-- What a valid bucket's map holds under a key.
pub record Entry (b : Bucket) (e : Key × Contact) : Type 0 where
  pub held : view b e.0 ≡ some e.1
  pub named : e.0 ≡ e.1.id
  pub inside : InRange b.low b.high e.1

pub elements-Entry : (b : Bucket) → IsValid b → All (Entry b) b.elements
elements-Entry b v = All-lookup (Entry b) b.elements v.mapped λ k c h.
    let (inside, named) = view-InRange b k c v h in
    record { held = h; named = sym named; inside = inside }

-- A contact of a table, and not the excluded one.
pub record Kept (bs : List Bucket) (exclude : Key) (c : Contact) : Type 0 where
  pub known : contact_at bs c.id ≡ some c
  pub other : key_eq c.id exclude ≡ false

module _ (b : Bucket) (v : IsValid b) (exclude : Key) where
  -- A contact that one bucket contributes.
  pub record From (c : Contact) : Type 0 where
    pub held : view b c.id ≡ some c
    pub other : key_eq c.id exclude ≡ false
    pub inside : InRange b.low b.high c

  pub others-From : (es : KeyMap Contact) → All (Entry b) es → All From (others exclude es)
  unfolding others
  others-From [] h = tt
  others-From ((k, c) ∷ es) h = elim (Bool-cases (key_eq c.id exclude)) [
    | inl e ↦ rw (e, others) (others-From es h.1)
    | inr e ↦
        rw (e, others)
          (
            record { held = rw (h.0.named) at (h.0.held); other = e; inside = h.0.inside },
            others-From es h.1,
          )
  ]

  -- A key that the rest of the map lacks is the key of no contact there.
  others-apart :
      (k : Key) (es : KeyMap Contact)
      → IsKey k
      → All (Entry b) es
      → lookup k es ≡ none
      → All (λ c. set_bytes k ≢ number c) (others exclude es)
  unfolding others lookup
  others-apart k [] key h n = tt
  others-apart k ((j, c) ∷ es) key h n =
      let later = others-apart k es key h.1 (ground (arith, n)) in
      let differ : set_bytes k ≢ number c = λ e.
        ground
          (arith, n, key_eq_iff j k, h.0.named, set_bytes-injective k c.id key h.0.inside.key e) in
      elim (Bool-cases (key_eq c.id exclude)) [
        | inl e ↦ rw (e, others) later
        | inr e ↦ rw (e, others) (differ, later)
      ]

  pub others-Apart :
      (es : KeyMap Contact) → All (Entry b) es → Distinct es → Apart number (others exclude es)
  unfolding others
  others-Apart [] h d = tt
  others-Apart ((k, c) ∷ es) h d = elim (Bool-cases (key_eq c.id exclude)) [
    | inl e ↦ rw (e, others) (others-Apart es h.1 d.1)
    | inr e ↦
        rw (e, others)
          (
            others-apart c.id es h.0.inside.key h.1 (rw (h.0.named) at (d.0)),
            others-Apart es h.1 d.1,
          )
  ]

pub mem-others :
    (exclude j : Key) (c : Contact) (es : KeyMap Contact)
    → lookup j es ≡ some c
    → key_eq c.id exclude ≡ false
    → Mem c (others exclude es)
unfolding others lookup
mem-others exclude j c [] h o = cc
mem-others exclude j c ((k, d) ∷ es) h o = elim (Bool-cases (key_eq k j)) [
  | inl e ↦ let same : d ≡ c = ground arith in rw (same, others, o) mem-cons_self
  | inr e ↦
      let later = mem-others exclude j c es (ground arith) o in
      elim (Bool-cases (key_eq d.id exclude)) [
        | inl x ↦ rw (x, others) later
        | inr x ↦ rw (x, others) (mem-cons_of_mem d later)
      ]
]
