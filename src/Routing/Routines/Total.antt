-- ===== src/Routing/Routines/Total.antt =====
-- `Bootstrap` and `refresh` of dht/node.go return, and the table still covers its keys.
use inu.Base.{
  ℕ, ◌^◌, ◌<◌, ◌≤◌, ◌≡◌, refl, sym, subst, ◌∙◌, Bool, true, List, [], ◌∷◌, All, Option, none, some,
  ok, ◌>>=◌,
}
use inu.Key.{IsKey, set_bytes}
use inu.Contact.{Contact}
use inu.Routing.Table.{RoutingTable, update_contact}
use inu.Routing.Table.Covers.{Covers}
use inu.Routing.Table.Total.{max_rounds, update_contact-Learned}
use inu.Routing.Routines.{stale, update_each, refresh_each, refresh, bootstrap}

-- A contact that the table with keys up to `top` has a bucket for.
abbrev pub HasPlace : ℕ → Contact → Type 0
HasPlace top c = IsKey c.id × (set_bytes c.id ≤ top)

-- A table with the same own contact and capacity, which covers the keys up to `top`.
pub record Grown (top : ℕ) (rt rt' : RoutingTable) : Type 0 where
  pub covers : Covers rt'.k 0 top rt'.buckets
  pub same_k : rt'.k ≡ rt.k
  pub same_self : rt'.self ≡ rt.self

Grown-trans : (top : ℕ) (a b c : RoutingTable) → Grown top a b → Grown top b c → Grown top a c
Grown-trans top a b c g h = record {
  covers = h.covers;
  same_k = h.same_k ∙ g.same_k;
  same_self = h.same_self ∙ g.same_self;
}

module _ (top : ℕ) (answers : Contact → Bool) (now : Contact → ℕ) (bound : top < 2 ^ 256) where
  update_lem :
      (rt : RoutingTable) (c : Contact)
      → Covers rt.k 0 top rt.buckets
      → HasPlace top c
      → (rt' : RoutingTable) × (update_contact max_rounds rt c (some answers) (now c) ≡ ok rt')
        × Grown top rt rt'
  update_lem rt c covers h =
      let (rt', ran, l) = update_contact-Learned rt top c answers (now c) bound covers h.0 h.1 in
      (
        rt',
        ran,
        record {
          covers = subst (λ k. Covers k 0 top rt'.buckets) (sym l.same_k) l.covers;
          same_k = l.same_k;
          same_self = l.same_self;
        },
      )

  update_each_lem :
      (rt : RoutingTable) (cs : List Contact)
      → Covers rt.k 0 top rt.buckets
      → All (HasPlace top) cs
      → (rt' : RoutingTable) × (update_each rt (some answers) now cs ≡ ok rt') × Grown top rt rt'
  unfolding update_each
  update_each_lem rt [] covers h =
      (rt, refl, record { covers = covers; same_k = refl; same_self = refl })
  update_each_lem rt (c ∷ cs) covers h =
      let (rt', ran, g) = update_lem rt c covers h.0 in
      let (rt'', ran', g') = update_each_lem rt' cs g.covers h.1 in
      (rt'', rw (ran) ran', Grown-trans top rt rt' rt'' g g')

  refresh_each_lem :
      (find_node : Contact → Option (List Contact)) (rt : RoutingTable) (cs : List Contact)
      → ((c : Contact) (found : List Contact) → find_node c ≡ some found → All (HasPlace top) found)
      → Covers rt.k 0 top rt.buckets
      → (rt' : RoutingTable) × (refresh_each rt (some answers) now find_node cs ≡ ok rt')
        × Grown top rt rt'
  unfolding refresh_each
  refresh_each_lem find_node rt [] place covers =
      (rt, refl, record { covers = covers; same_k = refl; same_self = refl })
  refresh_each_lem find_node rt (c ∷ cs) place covers =
      go (λ r v. refresh_each_lem find_node r cs place v) (find_node c) refl
    where
      go :
          ((r : RoutingTable)
            → Covers r.k 0 top r.buckets
            → (r' : RoutingTable) × (refresh_each r (some answers) now find_node cs ≡ ok r')
              × Grown top r r')
          → (o : Option (List Contact)) → find_node c ≡ o
          → (rt' : RoutingTable) × ((update_each rt
                  (some answers)
                  now
                  (elim o [ none ↦ [] | some found ↦ found ])
                >>= λ r. refresh_each r (some answers) now find_node cs)
              ≡ ok rt')
            × Grown top rt rt'
      go later none e = later rt covers
      go later (some found) e =
          let (rt', ran, g) = update_each_lem rt found covers (place c found e) in
          let (rt'', ran', g') = later rt' g.covers in
          (rt'', rw (ran) ran', Grown-trans top rt rt' rt'' g g')

  -- A turn of `refresh`, on a table that covers the keys up to `top`, returns with no panic, whatever
  -- was found, if the found contacts have keys up to `top`; the table still covers these keys.
  pub refresh-Grown :
      (find_node : Contact → Option (List Contact)) (rt : RoutingTable) (at : ℕ)
      → ((c : Contact) (found : List Contact) → find_node c ≡ some found → All (HasPlace top) found)
      → Covers rt.k 0 top rt.buckets
      → (rt' : RoutingTable) × (refresh rt (some answers) now find_node at ≡ ok rt')
        × Grown top rt rt'
  unfolding refresh
  refresh-Grown find_node rt at place covers =
      refresh_each_lem find_node rt (stale at rt.buckets) place covers

  -- `Bootstrap` from a contact with such a key returns as well.
  pub bootstrap-Grown :
      (rt : RoutingTable) (c : Contact) (found : List Contact)
      → HasPlace top c
      → All (HasPlace top) found
      → Covers rt.k 0 top rt.buckets
      → (rt' : RoutingTable) × (bootstrap rt (some answers) now c (some found) ≡ ok (rt', true))
        × Grown top rt rt'
  unfolding bootstrap
  bootstrap-Grown rt c found h hs covers =
      let (rt', ran, g) = update_lem rt c covers h in
      let (rt'', ran', g') = update_each_lem rt' found g.covers hs in
      (rt'', rw (ran, ran') refl, Grown-trans top rt rt' rt'' g g')
