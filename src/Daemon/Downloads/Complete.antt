-- ===== src/Daemon/Downloads/Complete.antt =====
-- What holds of a group of downloads, in every order of its steps.
use inu.Base.{
  true, false, List, [], ◌∷◌, ◌++◌, map, ◌≡◌, ◌⊎◌, Any, Any-front, Any-back, Any-split, inl, inr,
  refl, sym, ap, subst, ◌∙◌, All, All-map, Run, ok, err, panic, out_of_fuel, ◌>>=◌, arith,
}
use inu.Key.{Key}
use inu.Key.Encoding.{parse_cid}
use inu.Cid.{Cid}
use inu.Http.{Text}
use inu.Store.{put}
use inu.Merkle.{Node, Link}
use inu.Fs.{Env}
use inu.Daemon.{
  Network, Result, lift, next, call, Task, start, fetch, save, announce, run, fetch_node, key_error,
  store_error,
}
use inu.Daemon.Downloads.{Group, after_announce, finish, turn, Reaches, stay, more}

module _ {State World : Type 0} (env : Env State) (net : Network World) (public_ip : Text) where
  -- The task of a name.
  abbrev Handles : Cid → Task → Type 0
  Handles c (start d) = d ≡ c
  Handles c (fetch k) = parse_cid env.hashing.base32 c ≡ ok k
  Handles c (save k m) = parse_cid env.hashing.base32 c ≡ ok k
  Handles c (announce k m) = parse_cid env.hashing.base32 c ≡ ok k

  abbrev pub IsAnnounced : Cid → Group State World → Type 0
  IsAnnounced c g = Any (λ a. parse_cid env.hashing.base32 c ≡ ok a.0) g.announced

  -- An error was returned, a task of the name is left, or the name was announced.
  unfoldable IsCovered : Cid → Group State World → Type 0
  IsCovered c g = (g.failed ≡ true) ⊎ (Any (Handles c) g.tasks ⊎ IsAnnounced c g)

  Stays : Cid → Task → World × Result (State × List Task) → Type 0
  Stays c t (w, ok (s, ts)) =
      Any (Handles c) ts ⊎ Any (λ a. parse_cid env.hashing.base32 c ≡ ok a.0) (after_announce t [])
  Stays c t (w, err e) = Unit
  Stays c t (w, panic) = Unit
  Stays c t (w, out_of_fuel) = Unit

  next-Stays :
      {A : Type 0} (c : Cid) (t : Task) (r : World × Result A)
      (f : World → A → World × Result (State × List Task))
      → ((w : World) (x : A) → Stays c t (f w x))
      → Stays c t (next r f)
  unfolding next Stays
  next-Stays c t (w, ok x) f h = h w x
  next-Stays c t (w, err e) f h = tt
  next-Stays c t (w, panic) f h = tt
  next-Stays c t (w, out_of_fuel) f h = tt

  bind-Stays :
      {A : Type 0} (c : Cid) (t : Task) (w : World) (r : Result A)
      (f : A → Result (State × List Task))
      → ((x : A) → r ≡ ok x → Stays c t (w, f x))
      → Stays c t (w, r >>= f)
  unfolding Stays
  bind-Stays c t w (ok x) f h = h x refl
  bind-Stays c t w (err e) f h = tt
  bind-Stays c t w panic f h = tt
  bind-Stays c t w out_of_fuel f h = tt

  lift_parse :
      (c : Cid) (k : Key)
      → lift key_error (parse_cid env.hashing.base32 c) ≡ ok k
      → parse_cid env.hashing.base32 c ≡ ok k
  lift_parse c k e = go (parse_cid env.hashing.base32 c) e
    where
      go : (r : Run _ Key) → lift key_error r ≡ ok k → r ≡ ok k
      go (ok x) e = ground (arith, e)
      go (err z) e = cc
      go panic e = cc
      go out_of_fuel e = cc

  run-Stays :
      (c : Cid) (t : Task) (s : State) (w : World)
      → Handles c t
      → Stays c t (run env net public_ip t s w)
  unfolding run Any Stays
  run-Stays c (start d) s w h =
      bind-Stays c (start d) w (lift key_error (parse_cid env.hashing.base32 d))
        (λ k. ok (s, fetch k ∷ []))
        (λ k e. inl (inl (ap (parse_cid env.hashing.base32) (sym h) ∙ lift_parse d k e)))
  run-Stays c (fetch k) s w h =
      next-Stays c (fetch k) (fetch_node env net public_ip w k)
        (λ w' m. (w', ok (s, save k m ∷ []))) (λ w' m. inl (inl h))
  run-Stays c (save k m) s w h =
      bind-Stays c (save k m) w (lift store_error (put env.db s m.block))
        (λ s'. ok (s', announce k m ∷ [])) (λ s' e. inl (inl h))
  run-Stays c (announce k m) s w h =
      next-Stays c (announce k m) (call (net.put_key w k))
        (λ w' _. (w', ok (s, map (λ (l : Link). start l.cid) m.attr.links))) (λ w' _. inr (inl h))

  finish-IsCovered :
      (c : Cid) (t : Task) (others : List Task) (g : Group State World)
      (r : World × Result (State × List Task))
      → (Handles c t → Stays c t r)
      → (g.failed ≡ true) ⊎ ((Handles c t ⊎ Any (Handles c) others) ⊎ IsAnnounced c g)
      → IsCovered c (finish t others g r)
  unfolding IsCovered Stays finish Any
  finish-IsCovered c t others g (w, err e) h d = inl refl
  finish-IsCovered c t others g (w, panic) h d = inl refl
  finish-IsCovered c t others g (w, out_of_fuel) h d = inl refl
  finish-IsCovered c t others g (w, ok (s, ts)) h (inl f) = inl f
  finish-IsCovered c t others g (w, ok (s, ts)) h (inr (inl (inr a))) =
      inr (inl (Any-back (Handles c) ts others a))
  finish-IsCovered c t others g (w, ok (s, ts)) h (inr (inl (inl p))) = elim (h p) [
    | inl a ↦ inr (inl (Any-front (Handles c) ts others a))
    | inr a ↦ inr (inr (first t a))
  ]
    where
      first :
          (u : Task)
          → Any (λ a. parse_cid env.hashing.base32 c ≡ ok a.0) (after_announce u [])
          → Any (λ a. parse_cid env.hashing.base32 c ≡ ok a.0) (after_announce u g.announced)
      first (start d) a = absurd a
      first (fetch k) a = absurd a
      first (save k m) a = absurd a
      first (announce k m) (inl p) = inl p
      first (announce k m) (inr a) = absurd a
  finish-IsCovered c t others g (w, ok (s, ts)) h (inr (inr a)) = inr (inr (later t))
    where
      later :
          (u : Task)
          → Any (λ a. parse_cid env.hashing.base32 c ≡ ok a.0) (after_announce u g.announced)
      later (start d) = a
      later (fetch k) = a
      later (save k m) = a
      later (announce k m) = inr a

  turn-IsCovered :
      (c : Cid) (front back : List Task) (t : Task) (g : Group State World)
      → g.tasks ≡ front ++ (t ∷ back)
      → IsCovered c g
      → IsCovered c (turn env net public_ip t (front ++ back) g)
  unfolding turn IsCovered
  turn-IsCovered c front back t g e d =
      finish-IsCovered c t (front ++ back) g (run env net public_ip t g.store g.world)
        (run-Stays c t g.store g.world)
        (elim d [
          | inl f ↦ inl f
          | inr (inl a) ↦
              inr (inl (Any-split (Handles c) front back t (subst (Any (Handles c)) e a)))
          | inr (inr a) ↦ inr (inr a)
        ])

  -- The links of what was announced are covered.
  LinksCovered : Group State World → Type 0
  LinksCovered g =
      All (λ (a : Key × Node). All (λ (l : Link). IsCovered l.cid g) a.1.attr.links) g.announced

  -- A step that announces a node leaves the tasks of its links.
  Spawns : Task → World × Result (State × List Task) → Type 0
  Spawns (announce k m) (w, ok (s, ts)) = ts ≡ map (λ (l : Link). start l.cid) m.attr.links
  Spawns (announce k m) (w, err e) = Unit
  Spawns (announce k m) (w, panic) = Unit
  Spawns (announce k m) (w, out_of_fuel) = Unit
  Spawns (start c) r = Unit
  Spawns (fetch k) r = Unit
  Spawns (save k m) r = Unit

  run-Spawns : (t : Task) (s : State) (w : World) → Spawns t (run env net public_ip t s w)
  unfolding run Spawns next
  run-Spawns (start d) s w = tt
  run-Spawns (fetch k) s w = tt
  run-Spawns (save k m) s w = tt
  run-Spawns (announce k m) s w = go (call (net.put_key w k))
    where
      go :
          (r : World × Result (Unit {0}))
          → Spawns
              (announce k m)
              (next r (λ w' _. (w', ok (s, map (λ (l : Link). start l.cid) m.attr.links))))
      go (w', ok x) = refl
      go (w', err e) = tt
      go (w', panic) = tt
      go (w', out_of_fuel) = tt

  started :
      (ls all : List Link) (rest : List Task) (g : Group State World)
      → ((c : Cid)
          → Any (Handles c) (map (λ (l : Link). start l.cid) ls ++ rest)
          → Any (Handles c) g.tasks)
      → All (λ (l : Link). IsCovered l.cid g) ls
  unfolding IsCovered Any
  started [] all rest g h = tt
  started (l ∷ ls) all rest g h =
      (inr (inl (h l.cid (inl refl))), started ls all rest g (λ c a. h c (inr a)))

  finish-LinksCovered :
      (t : Task) (others : List Task) (g : Group State World)
      (r : World × Result (State × List Task))
      → Spawns t r
      → All
          (λ (a : Key × Node).
            All (λ (l : Link). IsCovered l.cid (finish t others g r)) a.1.attr.links)
          g.announced
      → LinksCovered (finish t others g r)
  unfolding LinksCovered finish Spawns
  finish-LinksCovered t others g (w, err e) p h = h
  finish-LinksCovered t others g (w, panic) p h = h
  finish-LinksCovered t others g (w, out_of_fuel) p h = h
  finish-LinksCovered (start d) others g (w, ok (s, ts)) p h = h
  finish-LinksCovered (fetch k) others g (w, ok (s, ts)) p h = h
  finish-LinksCovered (save k m) others g (w, ok (s, ts)) p h = h
  finish-LinksCovered (announce k m) others g (w, ok (s, ts)) p h = (
    started m.attr.links m.attr.links others (finish (announce k m) others g (w, ok (s, ts)))
        (λ c a. subst (λ xs. Any (Handles c) (xs ++ others)) (sym p) a),
    h,
  )

  turn-LinksCovered :
      (front back : List Task) (t : Task) (g : Group State World)
      → g.tasks ≡ front ++ (t ∷ back)
      → LinksCovered g
      → LinksCovered (turn env net public_ip t (front ++ back) g)
  unfolding turn LinksCovered
  turn-LinksCovered front back t g e h =
      finish-LinksCovered t (front ++ back) g (run env net public_ip t g.store g.world)
        (run-Spawns t g.store g.world)
        (All-map _ _
          (λ a b. All-map _ _ (λ l d. turn-IsCovered l.cid front back t g e d) a.1.attr.links b)
          g.announced h)

  Reaches-covers :
      (c : Cid) (g h : Group State World)
      → IsCovered c g
      → LinksCovered g
      → Reaches env net public_ip g h
      → IsCovered c h × LinksCovered h
  Reaches-covers c g h d l stay = (d, l)
  Reaches-covers c g _ d l (more front back t h r e) =
      let (d', l') = Reaches-covers c g h d l r in
      (turn-IsCovered c front back t h e d', turn-LinksCovered front back t h e l')

  settled :
      (c : Cid) (g : Group State World)
      → g.tasks ≡ []
      → g.failed ≡ false
      → IsCovered c g
      → IsAnnounced c g
  unfolding IsCovered Any
  settled c g e f (inl t) = absurd (ground (arith, t, f))
  settled c g e f (inr (inl a)) = absurd (subst (Any (Handles c)) e a)
  settled c g e f (inr (inr a)) = a

  -- A download, whatever the order of its steps, that ends without an error has taken the last step for
  -- the name it began with, and with every node for the names of all its links.
  pub announced_all :
      (c : Cid) (g h : Group State World)
      → g.tasks ≡ start c ∷ []
      → g.announced ≡ []
      → Reaches env net public_ip g h
      → h.tasks ≡ []
      → h.failed ≡ false
      → IsAnnounced c h
        × All
            (λ (a : Key × Node). All (λ (l : Link). IsAnnounced l.cid h) a.1.attr.links)
            h.announced
  unfolding LinksCovered IsCovered Any
  announced_all c g h one unknown r done f =
      let first : IsCovered c g = inr (inl (subst (Any (Handles c)) (sym one) (inl refl))) in
      let links : LinksCovered g =
        subst (All (λ (a : Key × Node). All (λ (l : Link). IsCovered l.cid g) a.1.attr.links))
          (sym unknown) tt in
      let (d, l) = Reaches-covers c g h first links r in
      (
        settled c h done f d,
        All-map _ _ (λ a b. All-map _ _ (λ k x. settled k.cid h done f x) a.1.attr.links b)
            h.announced l,
      )
