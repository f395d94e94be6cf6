-- ===== src/Routing/Bucket/Listed.antt =====
-- The list of contacts of a bucket, seen as a map by the contacts' ids.
use inu.Base.{
  ◌+◌, ◌≡◌, refl, List, [], ◌∷◌, ◌++◌, map, Option, none, some, length, All, arith, if◌then◌else◌,
  Bool-cases, inl, inr,
}
use inu.Key.{Key, key_eq}
use inu.Key.Number.{key_eq_iff}
use inu.KeyMap.{KeyMap, lookup, delete, Distinct}
use inu.Contact.{Contact}
use inu.Routing.Bucket.{remove}

abbrev pub entry : Contact → Key × Contact
entry c = (c.id, c)

abbrev pub as_map : List Contact → KeyMap Contact
as_map = map entry

or_else : Option Contact → Option Contact → Option Contact
or_else none o = o
or_else (some c) o = some c

pub lookup-snoc :
    (j : Key) (cs : List Contact) (c : Contact)
    → lookup c.id (as_map cs) ≡ none
    → lookup j (as_map (cs ++ c ∷ [])) ≡ (if key_eq c.id j then some c else lookup j (as_map cs))
unfolding lookup
lookup-snoc j [] c h = refl
lookup-snoc j (d ∷ cs) c h =
    ground (arith, key_eq_iff c.id j, key_eq_iff d.id j, key_eq_iff d.id c.id, lookup-snoc j cs c)

pub snoc-Distinct :
    (cs : List Contact) (c : Contact)
    → Distinct (as_map cs)
    → lookup c.id (as_map cs) ≡ none
    → Distinct (as_map (cs ++ c ∷ []))
unfolding lookup
snoc-Distinct [] c d h = (refl, tt)
snoc-Distinct (x ∷ cs) c d h = ground (
  arith,
  lookup-snoc x.id cs c,
  key_eq_iff c.id x.id,
  key_eq_iff x.id c.id,
  snoc-Distinct cs c d.1,
)

pub as_map-remove : (k : Key) (cs : List Contact) → as_map (remove k cs) ≡ delete k (as_map cs)
unfolding remove delete
as_map-remove k [] = refl
as_map-remove k (c ∷ cs) = ground (arith, as_map-remove k cs)

pub length-remove :
    (k : Key) (cs : List Contact) (e : Contact)
    → lookup k (as_map cs) ≡ some e
    → length (remove k cs) + 1 ≡ length cs
unfolding remove lookup
length-remove k [] e h = cc
length-remove k (c ∷ cs) e h = ground (arith, length-remove k cs e)

pub All-remove {κ} :
    (P : Contact → Type κ) (k : Key) (cs : List Contact) → All P cs → All P (remove k cs)
unfolding remove
All-remove P k [] h = tt
All-remove P k (c ∷ cs) h = elim (Bool-cases (key_eq c.id k)) [
  | inl e ↦ rw (e, remove) h.1
  | inr e ↦ rw (e, remove) (h.0, All-remove P k cs h.1)
]

-- What a lookup finds is in the list, under its own id.
pub lookup-All {κ} :
    (P : Contact → Type κ) (k : Key) (cs : List Contact) (c : Contact)
    → All P cs
    → lookup k (as_map cs) ≡ some c
    → P c × (c.id ≡ k)
unfolding lookup
lookup-All P k [] c h e = cc
lookup-All P k (d ∷ cs) c h e = elim (Bool-cases (key_eq d.id k)) [
  | inl hit ↦
      let same : d ≡ c = ground arith in (rw same at (h.0), ground (arith, key_eq_iff d.id k))
  | inr miss ↦ lookup-All P k cs c h.1 (ground arith)
]
