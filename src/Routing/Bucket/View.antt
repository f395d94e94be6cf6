-- ===== src/Routing/Bucket/View.antt =====
-- A bucket as a map from ids to contacts, and what `UpdateContact` does to it.
use inu.Base.{
  ℕ, ◌<◌, ◌≡◌, refl, ap, sym, ◌∙◌, Bool, true, false, List, [], ◌∷◌, ◌++◌, Option, none, some,
  length, arith, if◌then◌else◌, Option-cases, inl, inr, ◌⊎◌,
}
use inu.Key.{Key, key_eq, set_bytes}
use inu.Key.Number.{key_eq_iff}
use inu.KeyMap.{lookup}
use inu.KeyMap.Laws.{lookup-delete}
use inu.Contact.{Contact}
use inu.Routing.Bucket.{Bucket, remove}
use inu.Routing.Bucket.Listed.{as_map, lookup-snoc, as_map-remove, lookup-All}
use inu.Routing.Bucket.Invariant.{InRange, IsValid}
use inu.Routing.Bucket.Update.{Takes, refreshes, appends, splits, keeps, evicts, Updated, front_lem}

-- A routing table, or a bucket, seen from outside: the contact known under each id.
abbrev pub View : Type 0
View = Key → Option Contact

-- What learning of the contact `c` may do to a view. Either `c` is now known under its id; or the
-- contact that is replaced did not answer a ping; or `c` is dropped, since a contact did answer.
pub data Learns (v : View) (c : Contact) (answers : Contact → Bool) (w : View) : Type 0 where
  stores : ((j : Key) → w j ≡ (if key_eq c.id j then some c else v j)) → Learns v c answers w
  replaces :
      (dst : Contact)
      → v c.id ≡ none
      → v dst.id ≡ some dst
      → answers dst ≡ false
      → ((j : Key)
          → w j ≡ (if key_eq c.id j then some c else if key_eq dst.id j then none else v j))
      → Learns v c answers w
  drops :
      (dst : Contact)
      → v c.id ≡ none
      → v dst.id ≡ some dst
      → answers dst ≡ true
      → ((j : Key) → w j ≡ v j)
      → Learns v c answers w

abbrev pub view : Bucket → View
view b j = lookup j b.elements

-- What a valid bucket finds has the id that was asked for, in the bucket's range.
pub view-InRange :
    (b : Bucket) (j : Key) (c : Contact)
    → IsValid b
    → view b j ≡ some c
    → InRange b.low b.high c × (c.id ≡ j)
view-InRange b j c v h =
    lookup-All (InRange b.low b.high) j b.contacts c v.inside (sym (v.agree j) ∙ h)

-- A key out of a bucket's range is not found in it.
pub view-none :
    (b : Bucket) (j : Key)
    → IsValid b
    → (set_bytes j < set_bytes b.low) ⊎ (set_bytes b.high < set_bytes j)
    → view b j ≡ none
view-none b j v out = elim (Option-cases (view b j)) [
  | inl e ↦ e
  | inr (c, e) ↦
      let (inside, named) = view-InRange b j c v e in
      absurd (omega (arith, inside.above, inside.below, ap set_bytes named))
]

-- What one call does to a bucket's view, and whether it asks for a split.
abbrev pub Outcome : Bucket → Contact → (Contact → Bool) → Bucket × Bool → Type 0
Outcome b c answers r =
    ((r.1 ≡ false) × Learns (view b) c answers (view r.0))
    ⊎ ((r.1 ≡ true)
        × (view b c.id ≡ none)
        × (length b.contacts ≡ b.k)
        × ((j : Key) → view r.0 j ≡ view b j))

module _ (b : Bucket) (v : IsValid b) where
  lookup-remove :
      (k j : Key)
      → lookup j (as_map (remove k b.contacts)) ≡ (if key_eq k j then none else view b j)
  lookup-remove k j =
      rw (as_map-remove, lookup-delete k j (as_map b.contacts) v.listed) (ground (arith, v.agree j))

  -- The list with the entry of `k` taken out and `c` added at the tail.
  lookup-renewed :
      (k : Key) (c : Contact) (j : Key)
      → (c.id ≡ k) ⊎ (view b c.id ≡ none)
      → lookup j (as_map (remove k b.contacts ++ c ∷ []))
        ≡ (if key_eq c.id j then some c else if key_eq k j then none else view b j)
  lookup-renewed k c j h =
      let absent : lookup c.id (as_map (remove k b.contacts)) ≡ none =
        ground (arith, lookup-remove k c.id, key_eq_iff k c.id) in
      rw (lookup-snoc j (remove k b.contacts) c absent, lookup-remove k j)

module _ (b : Bucket) (c : Contact) (self : Key) (answers : Contact → Bool) (now : ℕ)
    (r : Bucket × Bool) (v : IsValid b) (u : Updated b c self answers now r) where
  renewed :
      (k : Key) (d : Contact) (l : List Contact)
      → r.0.contacts ≡ l ++ d ∷ []
      → remove k b.contacts ≡ l
      → (d.id ≡ k) ⊎ (view b d.id ≡ none)
      → (j : Key)
      → view r.0 j ≡ (if key_eq d.id j then some d else if key_eq k j then none else view b j)
  renewed k d l e shorter h j =
      u.valid.agree j
      ∙ ap (λ (z : List Contact). lookup j (as_map z))
          (e ∙ ap (λ (z : List Contact). z ++ d ∷ []) (sym shorter))
      ∙ lookup-renewed b v k d j h

  Takes-Outcome : Takes b c self answers r.0.contacts r.1 → Outcome b c answers r
  Takes-Outcome (refreshes e h l s) = inl (
    s,
    stores λ j.
        ground
          (arith, renewed c.id c (remove c.id b.contacts) l refl (inl refl) j, key_eq_iff c.id j),
  )
  Takes-Outcome (appends h room l s) = inl (
    s,
    stores λ j.
        u.valid.agree j
        ∙ ap (λ (z : List Contact). lookup j (as_map z)) l
        ∙ lookup-snoc j b.contacts c (sym (v.agree c.id) ∙ h)
        ∙ ground (arith, v.agree j),
  )
  Takes-Outcome (splits h full mine l s) = inr (
    s,
    h,
    full,
    λ j. u.valid.agree j ∙ ap (λ (z : List Contact). lookup j (as_map z)) l ∙ sym (v.agree j),
  )
  Takes-Outcome (keeps dst rest h full other e alive l s) =
      let (held, shorter, inside) = front_lem b v dst rest e in
      inl (
        s,
        drops dst h held alive λ j.
            ground
              (arith, renewed dst.id dst rest l shorter (inl refl) j, key_eq_iff dst.id j, held),
      )
  Takes-Outcome (evicts dst rest h full other e dead l s) =
      let (held, shorter, inside) = front_lem b v dst rest e in
      inl (s, replaces dst h held dead (renewed dst.id c rest l shorter (inr h)))

  -- `UpdateContact` of a valid bucket learns of the contact, or asks to be split and changes nothing.
  pub Updated-Outcome : Outcome b c answers r
  Updated-Outcome = Takes-Outcome u.takes
