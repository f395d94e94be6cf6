-- ===== src/Daemon/Downloads/Steps.antt =====
-- What every order of the steps of a group keeps, from what each step of a task keeps.
use inu.Base.{
  List, [], ◌∷◌, ◌++◌, map, ◌≡◌, refl, sym, subst, All, All-map, All-append, All-split, ok, err,
  panic, out_of_fuel, ◌>>=◌,
}
use inu.Key.{Key}
use inu.Key.Encoding.{parse_cid}
use inu.Cid.{Cid}
use inu.Http.{Text}
use inu.Store
use inu.Store.{put}
use inu.Merkle.{Node, Link}
use inu.Fs.{Env}
use inu.Daemon.{
  Network, Result, lift, next, call, Task, start, fetch, save, announce, run, fetch_node,
  store_error, key_error,
}
use inu.Daemon.Downloads.{Group, after_announce, finish, turn, Reaches, stay, more}

module _ {State World : Type 0} (env : Env State) (net : Network World) (public_ip : Text)
    (IsReady : State → Task → Type 0) (IsKnown : State → Key × Node → Type 0)
    (Grows : State → State → Type 0) where
  -- What the steps of a task keep: the tasks that it leaves are ready, what it announces is known, and
  -- a larger store keeps both.
  pub record IsKept : Type 0 where
    pub start_ready : (s : State) (c : Cid) → IsReady s (start c)
    pub fetch_ready : (s : State) (k : Key) → IsReady s (fetch k)
    pub fetched :
        (s : State) (w w' : World) (k : Key) (m : Node)
        → fetch_node env net public_ip w k ≡ (w', ok m)
        → IsReady s (save k m)
    pub saved :
        (s s' : State) (k : Key) (m : Node)
        → put env.db s m.block ≡ ok s'
        → IsReady s (save k m)
        → Grows s s' × IsReady s' (announce k m)
    pub announced : (s : State) (k : Key) (m : Node) → IsReady s (announce k m) → IsKnown s (k, m)
    pub same : (s : State) → Grows s s
    pub ready_later : (s s' : State) (t : Task) → Grows s s' → IsReady s t → IsReady s' t
    pub known_later : (s s' : State) (a : Key × Node) → Grows s s' → IsKnown s a → IsKnown s' a

  -- What one step leaves, when it returns no error.
  Leaves : Task → State → World × Result (State × List Task) → Type 0
  Leaves t s (w, ok (s', ts)) =
      Grows s s' × All (IsReady s') ts × All (IsKnown s') (after_announce t [])
  Leaves t s (w, err e) = Unit
  Leaves t s (w, panic) = Unit
  Leaves t s (w, out_of_fuel) = Unit

  start_all :
      IsKept → (s : State) (ls : List Link) → All (IsReady s) (map (λ (l : Link). start l.cid) ls)
  start_all kept s [] = tt
  start_all kept s (l ∷ ls) = (kept.start_ready s l.cid, start_all kept s ls)

  run-Leaves :
      IsKept
      → (t : Task) (s : State) (w : World) → IsReady s t
      → Leaves t s (run env net public_ip t s w)
  unfolding run Leaves next
  run-Leaves kept (start c) s w h = go (lift key_error (parse_cid env.hashing.base32 c))
    where
      go : (r : Result Key) → Leaves (start c) s (w, r >>= λ k. ok (s, fetch k ∷ []))
      go (ok k) = (kept.same s, (kept.fetch_ready s k, tt), tt)
      go (err x) = tt
      go panic = tt
      go out_of_fuel = tt
  run-Leaves kept (fetch k) s w h = go (fetch_node env net public_ip w k) refl
    where
      go :
          (r : World × Result Node)
          → fetch_node env net public_ip w k ≡ r
          → Leaves (fetch k) s (next r (λ w' m. (w', ok (s, save k m ∷ []))))
      go (w', ok m) e = (kept.same s, (kept.fetched s w w' k m e, tt), tt)
      go (w', err x) e = tt
      go (w', panic) e = tt
      go (w', out_of_fuel) e = tt
  run-Leaves kept (save k m) s w h = go (put env.db s m.block) refl
    where
      go :
          (r : Store.Result State)
          → put env.db s m.block ≡ r
          → Leaves (save k m) s (w, lift store_error r >>= λ s'. ok (s', announce k m ∷ []))
      go (ok s') e = let (g, ready) = kept.saved s s' k m e h in (g, (ready, tt), tt)
      go (err x) e = tt
      go panic e = tt
      go out_of_fuel e = tt
  run-Leaves kept (announce k m) s w h = go (call (net.put_key w k))
    where
      go :
          (r : World × Result (Unit {0}))
          → Leaves
              (announce k m)
              s
              (next r (λ w' _. (w', ok (s, map (λ (l : Link). start l.cid) m.attr.links))))
      go (w', ok x) = (kept.same s, start_all kept s m.attr.links, (kept.announced s k m h, tt))
      go (w', err x) = tt
      go (w', panic) = tt
      go (w', out_of_fuel) = tt

  -- The tasks of the group are ready, and what it announced is known.
  pub record IsSound (g : Group State World) : Type 0 where
    pub ready : All (IsReady g.store) g.tasks
    pub known : All (IsKnown g.store) g.announced

  after_announce-known :
      (t : Task) (s : State) (known : List (Key × Node))
      → All (IsKnown s) (after_announce t [])
      → All (IsKnown s) known
      → All (IsKnown s) (after_announce t known)
  after_announce-known (start c) s known h g = g
  after_announce-known (fetch k) s known h g = g
  after_announce-known (save k m) s known h g = g
  after_announce-known (announce k m) s known h g = (h.0, g)

  finish-IsSound :
      IsKept
      → (t : Task) (others : List Task) (g : Group State World)
        (r : World × Result (State × List Task))
      → Leaves t g.store r
      → All (IsReady g.store) others
      → All (IsKnown g.store) g.announced
      → IsSound (finish t others g r)
  unfolding finish Leaves
  finish-IsSound kept t others g (w, err e) p h a = record { ready = h; known = a }
  finish-IsSound kept t others g (w, panic) p h a = record { ready = h; known = a }
  finish-IsSound kept t others g (w, out_of_fuel) p h a = record { ready = h; known = a }
  finish-IsSound kept t others g (w, ok (s, ts)) p h a = record {
    ready =
        All-append (IsReady s) ts others p.1
          (All-map _ _ (λ u b. kept.ready_later g.store s u p.0 b) others h);
    known =
        after_announce-known t s g.announced p.2
          (All-map _ _ (λ u b. kept.known_later g.store s u p.0 b) g.announced a);
  }

  Reaches-IsSound :
      (g h : Group State World) → IsKept → IsSound g → Reaches env net public_ip g h → IsSound h
  unfolding turn
  Reaches-IsSound g h kept sound stay = sound
  Reaches-IsSound g _ kept sound (more front back t h r e) =
      let before = Reaches-IsSound g h kept sound r in
      let (ready, others) =
        All-split (IsReady h.store) front back t (subst (All (IsReady h.store)) e before.ready) in
      finish-IsSound kept t (front ++ back) h (run env net public_ip t h.store h.world)
        (run-Leaves kept t h.store h.world ready) others before.known

  IsSound-start :
      (c : Cid) (g : Group State World)
      → IsKept
      → g.tasks ≡ start c ∷ []
      → g.announced ≡ []
      → IsSound g
  IsSound-start c g kept one unknown = record {
    ready = subst (All (IsReady g.store)) (sym one) (kept.start_ready g.store c, tt);
    known = subst (All (IsKnown g.store)) (sym unknown) tt;
  }

  finish-Grows :
      IsKept
      → (t : Task) (others : List Task) (g : Group State World)
        (r : World × Result (State × List Task))
      → Leaves t g.store r
      → Grows g.store (finish t others g r).store
  unfolding finish Leaves
  finish-Grows kept t others g (w, ok (s, ts)) p = p.0
  finish-Grows kept t others g (w, err e) p = kept.same g.store
  finish-Grows kept t others g (w, panic) p = kept.same g.store
  finish-Grows kept t others g (w, out_of_fuel) p = kept.same g.store

  -- In a group that began with one name, a task that takes its step is ready, and leaves a larger store.
  pub turn-Grows :
      (c : Cid) (g h : Group State World) (front back : List Task) (t : Task)
      → IsKept
      → g.tasks ≡ start c ∷ []
      → g.announced ≡ []
      → Reaches env net public_ip g h
      → h.tasks ≡ front ++ (t ∷ back)
      → IsReady h.store t × Grows h.store (turn env net public_ip t (front ++ back) h).store
  unfolding turn
  turn-Grows c g h front back t kept one unknown r e =
      let before = Reaches-IsSound g h kept (IsSound-start c g kept one unknown) r in
      let (ready, others) =
        All-split (IsReady h.store) front back t (subst (All (IsReady h.store)) e before.ready) in
      (
        ready,
        finish-Grows kept t (front ++ back) h (run env net public_ip t h.store h.world)
            (run-Leaves kept t h.store h.world ready),
      )

  -- In a group that began with one name, all that was announced is known.
  pub announced-known :
      (c : Cid) (g h : Group State World)
      → IsKept
      → g.tasks ≡ start c ∷ []
      → g.announced ≡ []
      → Reaches env net public_ip g h
      → All (IsKnown h.store) h.announced
  announced-known c g h kept one unknown r =
      (Reaches-IsSound g h kept (IsSound-start c g kept one unknown) r).known
