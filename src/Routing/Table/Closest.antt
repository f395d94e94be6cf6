-- ===== src/Routing/Table/Closest.antt =====
-- `FindClosestNodes` of dht/routing_table.go against the contacts that the table knows.
use mathlib.Core.List.{Mem, mem-append_left, mem-append_right}
use mathlib.Core.List.Perm
use inu.Base.{
  ℕ, ◌+◌, ◌≤◌, ◌≡◌, ◌≢◌, ap, sym, ◌∙◌, false, List, [], ◌∷◌, ◌++◌, some, length, take, drop, min,
  All, All-append, All-map, arith, Bool-cases, Option-cases, inl, inr, ltb, ap₂, take_of_length-le,
  length-take, take-append-drop,
}
use inu.Key.{Key, IsKey, key_eq, set_bytes}
use inu.Key.Distance.{distance, distance-injective}
use inu.Contact.{Contact, Contact-set}
use inu.Sorting.{sort_func}
use inu.Sorting.Order.{Ascending, Apart, sort_func-perm, All-sort_func, sort_func-Ascending}
use inu.Sorting.Unique.{Ascending-unique}
use inu.Routing.Bucket.{Bucket}
use inu.Routing.Bucket.View.{view}
use inu.Routing.Table.{RoutingTable, others, candidates, by_distance, find_closest_nodes}
use inu.Routing.Table.Covers.{high_of, Covers}
use inu.Routing.Table.View.{contact_at}
use inu.Routing.Bucket.View.{view-none}
use inu.Routing.Table.Candidates.{
  HasKey, by_distance-Compares, number, elements-Entry, Kept, From, others-From, others-Apart,
  mem-others,
}

Apart-append {ℓ} :
    {A : Type ℓ} (d : A → ℕ) (l m : List A)
    → Apart d l
    → Apart d m
    → All (λ x. All (λ y. d x ≢ d y) m) l
    → Apart d (l ++ m)
Apart-append d [] m al am h = am
Apart-append d (x ∷ l) m al am h =
    (All-append (λ y. d x ≢ d y) l m al.0 h.0, Apart-append d l m al.1 am h.1)

-- What is collected from buckets that cover the numbers from `lo` on.
record Collected (bs : List Bucket) (exclude : Key) (lo : ℕ) (c : Contact) : Type 0 where
  kept : Kept bs exclude c
  key : HasKey c
  above : lo ≤ number c

module _ (exclude : Key) where
  candidates-Collected :
      (k lo hi : ℕ) (bs : List Bucket)
      → Covers k lo hi bs
      → All (Collected bs exclude lo) (candidates exclude bs)
  unfolding candidates contact_at
  candidates-Collected k lo hi [] cov = tt
  candidates-Collected k lo hi (b ∷ bs) cov =
      All-append (Collected (b ∷ bs) exclude lo) (others exclude b.elements) (candidates exclude bs)
        (All-map (From b cov.2 exclude) (Collected (b ∷ bs) exclude lo) here
          (others exclude b.elements)
          (others-From b cov.2 exclude b.elements (elements-Entry b cov.2)))
        (All-map (Collected bs exclude (high_of b + 1)) (Collected (b ∷ bs) exclude lo) later
          (candidates exclude bs) (candidates-Collected k (high_of b + 1) hi bs cov.4))
    where
      here : (c : Contact) → From b cov.2 exclude c → Collected (b ∷ bs) exclude lo c
      here c f = record {
        kept = record { known = ground (arith, f.held); other = f.other };
        key = f.inside.key;
        above = omega (arith, f.inside.above);
      }

      later :
          (c : Contact) → Collected bs exclude (high_of b + 1) c → Collected (b ∷ bs) exclude lo c
      later c f = record {
        kept = record {
          known =
              ground (arith, view-none b c.id cov.2 (inr (omega (arith, f.above))), f.kept.known);
          other = f.kept.other;
        };
        key = f.key;
        above = omega (arith, f.above);
      }

  candidates-Apart :
      (k lo hi : ℕ) (bs : List Bucket) → Covers k lo hi bs → Apart number (candidates exclude bs)
  unfolding candidates
  candidates-Apart k lo hi [] cov = tt
  candidates-Apart k lo hi (b ∷ bs) cov =
      Apart-append number (others exclude b.elements) (candidates exclude bs)
        (others-Apart b cov.2 exclude b.elements (elements-Entry b cov.2) cov.2.mapped)
        (candidates-Apart k (high_of b + 1) hi bs cov.4)
        (All-map (From b cov.2 exclude) _
          (λ c f.
            All-map (Collected bs exclude (high_of b + 1)) (λ y. number c ≢ number y)
              (λ y g. omega (arith, f.inside.below, g.above)) (candidates exclude bs)
              (candidates-Collected k (high_of b + 1) hi bs cov.4))
          (others exclude b.elements)
          (others-From b cov.2 exclude b.elements (elements-Entry b cov.2)))

  -- Every contact that the table knows is collected, but the excluded one.
  mem-candidates :
      (bs : List Bucket) (j : Key) (c : Contact)
      → contact_at bs j ≡ some c
      → key_eq c.id exclude ≡ false
      → Mem c (candidates exclude bs)
  unfolding candidates contact_at
  mem-candidates [] j c h o = cc
  mem-candidates (b ∷ bs) j c h o = elim (Option-cases (view b j)) [
    | inl e ↦
        mem-append_right (others exclude b.elements) (mem-candidates bs j c (ground (arith, e)) o)
    | inr (d, e) ↦
        mem-append_left (candidates exclude bs)
          (mem-others exclude j c b.elements (ground (arith, e)) o)
  ]

Apart-distance :
    (t : Key) (l : List Contact)
    → IsKey t
    → All HasKey l
    → Apart number l
    → Apart (λ c. distance t c.id) l
Apart-distance t [] kt ks a = tt
Apart-distance t (x ∷ l) kt ks a = (apart x l ks.0 ks.1 a.0, Apart-distance t l kt ks.1 a.1)
  where
    apart :
        (x : Contact) (l : List Contact)
        → HasKey x
        → All HasKey l
        → All (λ y. number x ≢ number y) l
        → All (λ y. distance t x.id ≢ distance t y.id) l
    apart x [] kx kl n = tt
    apart x (y ∷ l) kx kl n = (
      λ e. n.0 (ap set_bytes (distance-injective t x.id y.id kt kx kl.0 e)),
      apart x l kx kl.1 n.1,
    )

-- The answer to a search for the closest contacts: with a rest it makes up all the contacts that
-- the table knows but the excluded one, in ascending order of distance, and it has as many of them
-- as fit.
pub record Closest (rt : RoutingTable) (t exclude : Key) (r : List Contact) : Type 0 where
  pub rest : List Contact
  pub kept : All (Kept rt.buckets exclude) (r ++ rest)
  pub complete : (c : Contact) → Kept rt.buckets exclude c → Mem c (r ++ rest)
  pub ascending : Ascending (λ c. distance t c.id) (r ++ rest)
  pub size : length r ≡ min rt.k (length (r ++ rest))

module _ (rt : RoutingTable) (top : ℕ) (t exclude : Key) (covers : Covers rt.k 0 top rt.buckets)
    (kt : IsKey t) where
  -- The sorted contacts before the truncation.
  abbrev sorted : List Contact
  sorted = sort_func (by_distance t) (candidates exclude rt.buckets)

  collected : All (Collected rt.buckets exclude 0) (candidates exclude rt.buckets)
  collected = candidates-Collected exclude rt.k 0 top rt.buckets covers

  sorted-Kept : All (Kept rt.buckets exclude) sorted
  sorted-Kept =
      All-sort_func (by_distance t) (Kept rt.buckets exclude) (candidates exclude rt.buckets) (
        All-map (Collected rt.buckets exclude 0) (Kept rt.buckets exclude) (λ c g. g.kept)
          (candidates exclude rt.buckets) collected)

  sorted-complete : (c : Contact) → Kept rt.buckets exclude c → Mem c sorted
  sorted-complete c g =
      (Perm.mem_iff (sort_func-perm (by_distance t) (candidates exclude rt.buckets))).1
        (mem-candidates exclude rt.buckets c.id c g.known g.other)

  sorted-Ascending : Ascending (λ c. distance t c.id) sorted
  sorted-Ascending =
      let keys =
        All-map (Collected rt.buckets exclude 0) HasKey (λ c g. g.key)
          (candidates exclude rt.buckets) collected in
      sort_func-Ascending HasKey (λ c. distance t c.id) (by_distance t) (by_distance-Compares t kt)
        (candidates exclude rt.buckets) keys
        (Apart-distance t (candidates exclude rt.buckets) kt keys
          (candidates-Apart exclude rt.k 0 top rt.buckets covers))

  find_closest_nodes-take : find_closest_nodes rt t exclude ≡ take rt.k sorted
  unfolding find_closest_nodes
  find_closest_nodes-take = elim (Bool-cases (ltb rt.k (length sorted))) [
    | inl e ↦ rw e
    | inr e ↦ rw e (sym (take_of_length-le rt.k sorted (ground arith)))
  ]

  -- `FindClosestNodes` on a table that covers its keys, for a key: it returns the contacts of the
  -- table that are closest to the key, nearest first, without the excluded one; as many as the
  -- capacity, or all there are.
  pub find_closest_nodes-Closest : Closest rt t exclude (find_closest_nodes rt t exclude)
  find_closest_nodes-Closest =
      let whole = take-append-drop rt.k sorted in
      rw find_closest_nodes-take (record {
        rest = drop rt.k sorted;
        kept = rw whole sorted-Kept;
        complete = rw whole sorted-complete;
        ascending = rw whole sorted-Ascending;
        size = rw whole (length-take rt.k sorted);
      })

-- The answer depends only on what the table knows: two tables that cover their keys, with the same
-- capacity and the same contacts, give the same answer, in whatever order their maps are ranged
-- over and however their buckets are split.
pub find_closest_nodes-view :
    (rt rt' : RoutingTable) (top top' : ℕ) (t exclude : Key)
    → Covers rt.k 0 top rt.buckets
    → Covers rt'.k 0 top' rt'.buckets
    → IsKey t
    → rt.k ≡ rt'.k
    → ((j : Key) → contact_at rt.buckets j ≡ contact_at rt'.buckets j)
    → find_closest_nodes rt t exclude ≡ find_closest_nodes rt' t exclude
find_closest_nodes-view rt rt' top top' t exclude cov cov' kt same_k same =
    find_closest_nodes-take rt top t exclude cov kt
    ∙ ap₂ take same_k lists
    ∙ sym (find_closest_nodes-take rt' top' t exclude cov' kt)
  where
    there : (c : Contact) → Kept rt.buckets exclude c → Kept rt'.buckets exclude c
    there c g = record { known = sym (same c.id) ∙ g.known; other = g.other }

    back : (c : Contact) → Kept rt'.buckets exclude c → Kept rt.buckets exclude c
    back c g = record { known = same c.id ∙ g.known; other = g.other }

    lists : sorted rt top t exclude cov kt ≡ sorted rt' top' t exclude cov' kt
    lists =
        Ascending-unique (λ c. distance t c.id) Contact-set (Kept rt.buckets exclude) _ _
          (sorted-Ascending rt top t exclude cov kt) (sorted-Ascending rt' top' t exclude cov' kt)
          (sorted-Kept rt top t exclude cov kt)
          (All-map (Kept rt'.buckets exclude) (Kept rt.buckets exclude) back _
            (sorted-Kept rt' top' t exclude cov' kt))
          (sorted-complete rt top t exclude cov kt)
          (λ c g. sorted-complete rt' top' t exclude cov' kt c (there c g))
