-- ===== src/Daemon/Downloads/Told.antt =====
-- The calls of `PutKey` of a group of downloads: what it was told when they have ended.
use inu.Base.{
  List, [], ◌∷◌, ◌++◌, map, ◌≡◌, Any, refl, sym, ap, subst, ◌∙◌, All, All-both, All-map, Any-All,
  Any-map, false, ok, err, panic, out_of_fuel,
}
use inu.Key.{Key}
use inu.Key.Encoding.{parse_cid}
use inu.Cid.{Cid}
use inu.Http
use inu.Http.{Text}
use inu.Merkle.{Node, Link}
use inu.Fs.{Env}
use inu.Daemon.{Network, Result, next, call, Task, start, fetch, save, announce, run}
use inu.Daemon.Downloads.{Group, after_announce, finish, turn, Reaches, stay, more}
use inu.Daemon.Downloads.Complete.{announced_all}
use inu.Daemon.Downloads.Log.{Logs, IsTold, run-keeps}

module _ {State World : Type 0} (env : Env State) (net : Network World) (public_ip : Text)
    (told : World → List Key) (log : Logs net told) where
  -- A last step that returned has told the network its key.
  AreTold : Group State World → Type 0
  AreTold g = All (λ (a : Key × Node). IsTold env net public_ip told log g.world a.0) g.announced

  after_announce-told :
      (t : Task) (known : List (Key × Node)) (s s' : State) (w w' : World) (ts : List Task)
      → run env net public_ip t s w ≡ (w', ok (s', ts))
      → All (λ (a : Key × Node). IsTold env net public_ip told log w' a.0) known
      → All (λ (a : Key × Node). IsTold env net public_ip told log w' a.0) (after_announce t known)
  unfolding run next call
  after_announce-told (start c) known s s' w w' ts e h = h
  after_announce-told (fetch k) known s s' w w' ts e h = h
  after_announce-told (save k m) known s s' w w' ts e h = h
  after_announce-told (announce k m) known s s' w w' ts e h = (go (net.put_key w k) refl e, h)
    where
      go :
          (r : World × Http.Result (Unit {0}))
          → net.put_key w k ≡ r
          → next {B = State × List Task}
              (call r)
              (λ w' _. (w', ok (s, map (λ (l : Link). start l.cid) m.attr.links)))
            ≡ (w', ok (s', ts))
          → IsTold env net public_ip told log w' k
      go (v, ok x) p q =
          subst (λ u. IsTold env net public_ip told log u k) (ap (λ z. z.0) q) (log.tells w v k p)
      go (v, err x) p q = cc
      go (v, panic) p q = cc
      go (v, out_of_fuel) p q = cc

  finish-AreTold :
      (t : Task) (others : List Task) (g : Group State World)
      (r : World × Result (State × List Task))
      → run env net public_ip t g.store g.world ≡ r
      → All (λ (a : Key × Node). IsTold env net public_ip told log r.0 a.0) g.announced
      → AreTold (finish t others g r)
  unfolding finish AreTold
  finish-AreTold t others g (w, ok (s, ts)) e h =
      after_announce-told t g.announced g.store s g.world w ts e h
  finish-AreTold t others g (w, err x) e h = h
  finish-AreTold t others g (w, panic) e h = h
  finish-AreTold t others g (w, out_of_fuel) e h = h

  Reaches-AreTold :
      (g h : Group State World) → AreTold g → Reaches env net public_ip g h → AreTold h
  unfolding turn AreTold
  Reaches-AreTold g h a stay = a
  Reaches-AreTold g _ a (more front back t h r e) =
      finish-AreTold t (front ++ back) h (run env net public_ip t h.store h.world) refl (
        All-map _ _ (λ x b. run-keeps env net public_ip told log t h.store h.world x.0 b)
          h.announced (Reaches-AreTold g h a r))

  -- The name is that of a key that the network was told.
  abbrev pub IsToldName : World → Cid → Type 0
  IsToldName w c = Any (λ k. parse_cid env.hashing.base32 c ≡ ok k) (told w)

  told_name :
      (w : World) (c : Cid) (known : List (Key × Node))
      → All (λ (a : Key × Node). IsTold env net public_ip told log w a.0) known
      → Any (λ (a : Key × Node). parse_cid env.hashing.base32 c ≡ ok a.0) known
      → IsToldName w c
  told_name w c known h a =
      let (x, e, p) =
        Any-All (λ (a : Key × Node). parse_cid env.hashing.base32 c ≡ ok a.0)
          (λ (a : Key × Node). IsTold env net public_ip told log w a.0) known a h in
      Any-map (told w) (λ k q. e ∙ ap ok (sym q)) p

  -- A download over a network with a log of the keys it is told, whatever the order of its steps, that ends
  -- without an error: the network has been told the key of the name that the download began with, and,
  -- with every node for which the last step of a task returned, the node's key and the keys of the names
  -- of all its links.
  pub download_complete :
      (c : Cid) (g h : Group State World)
      → g.tasks ≡ start c ∷ []
      → g.announced ≡ []
      → Reaches env net public_ip g h
      → h.tasks ≡ []
      → h.failed ≡ false
      → IsToldName h.world c
        × All
            (λ (a : Key × Node).
              IsTold env net public_ip told log h.world a.0
              × All (λ (l : Link). IsToldName h.world l.cid) a.1.attr.links)
            h.announced
  unfolding AreTold
  download_complete c g h one unknown r done f =
      let begun : AreTold g =
        subst (All (λ (a : Key × Node). IsTold env net public_ip told log g.world a.0))
          (sym unknown) tt in
      let all = Reaches-AreTold g h begun r in
      let (first, links) = announced_all env net public_ip c g h one unknown r done f in
      (
        told_name h.world c h.announced all first,
        All-both (λ (a : Key × Node). IsTold env net public_ip told log h.world a.0)
            (λ (a : Key × Node). All (λ (l : Link). IsToldName h.world l.cid) a.1.attr.links)
            h.announced all
            (All-map _ _
              (λ a b.
                All-map _ _ (λ l x. told_name h.world l.cid h.announced all x) a.1.attr.links b)
              h.announced links),
      )
