-- ===== src/Daemon/Downloads/Log.antt =====
-- The calls of `PutKey` of a group of downloads: which keys the network was told, and when.
use inu.Base.{List, ◌≡◌, ◌⊎◌, Any, inr, refl, sym, subst, ◌∙◌, ok, err, panic, out_of_fuel}
use inu.Key.{Key}
use inu.Http
use inu.Http.{Text}
use inu.Merkle.{Node}
use inu.Fs.{Env}
use inu.Daemon.{
  Network, Result, next, call, Task, start, fetch, save, announce, run, fetch_node, remove_own,
  first_peer, Peer,
}
use inu.Daemon.Downloads.{Group, finish, turn}

-- The keys that the network was told: `PutKey` of a key tells that key at most, and does when it
-- returns no error; the other calls tell nothing.
pub record Logs {World : Type 0} (net : Network World) (told : World → List Key) : Type 0 where
  pub tells : (w w' : World) (k : Key) → net.put_key w k ≡ (w', ok tt) → Any (λ i. i ≡ k) (told w')
  pub keeps :
      (w : World) (k j : Key)
      → Any (λ i. i ≡ j) (told w)
      → Any (λ i. i ≡ j) (told (net.put_key w k).0)
  pub only :
      (w : World) (k j : Key)
      → Any (λ i. i ≡ j) (told (net.put_key w k).0)
      → (k ≡ j) ⊎ Any (λ i. i ≡ j) (told w)
  pub find_same : (w : World) (k : Key) → told (net.find_peers w k).0 ≡ told w
  pub get_same : (w : World) (p : Peer) (k : Key) → told (net.get_block w p k).0 ≡ told w

-- The key that a step announces.
abbrev pub Announces : Task → Key → Type 0
Announces (start c) j = ⊥
Announces (fetch k) j = ⊥
Announces (save k m) j = ⊥
Announces (announce k m) j = k ≡ j

module _ {State World : Type 0} (env : Env State) (net : Network World) (public_ip : Text)
    (told : World → List Key) (log : Logs net told) where
  abbrev pub IsTold : World → Key → Type 0
  IsTold w k = Any (λ i. i ≡ k) (told w)

  next-told :
      {A B : Type 0} (r : World × Result A) (f : World → A → World × Result B)
      → ((w : World) (x : A) → told (f w x).0 ≡ told w)
      → told (next r f).0 ≡ told r.0
  unfolding next
  next-told (w, ok x) f h = h w x
  next-told (w, err e) f h = refl
  next-told (w, panic) f h = refl
  next-told (w, out_of_fuel) f h = refl

  call-told : {A : Type 0} (r : World × Http.Result A) → told (call r).0 ≡ told r.0
  unfolding call
  call-told (w, r) = refl

  fetch_node-told : (w : World) (k : Key) → told (fetch_node env net public_ip w k).0 ≡ told w
  unfolding fetch_node
  fetch_node-told w k =
      next-told (call (net.find_peers w k)) _ (λ w' ps.
        next-told (w', first_peer (remove_own public_ip ps)) _
          (λ v p.
            next-told (call (net.get_block v p k)) _ (λ u b. refl)
            ∙ call-told (net.get_block v p k)
            ∙ log.get_same v p k))
      ∙ call-told (net.find_peers w k)
      ∙ log.find_same w k

  announce-told :
      (k : Key) (m : Node) (s : State) (w : World)
      → told (run env net public_ip (announce k m) s w).0 ≡ told (net.put_key w k).0
  unfolding run
  announce-told k m s w =
      next-told (call (net.put_key w k)) _ (λ v x. refl) ∙ call-told (net.put_key w k)

  fetch-told :
      (k : Key) (s : State) (w : World) → told (run env net public_ip (fetch k) s w).0 ≡ told w
  unfolding run
  fetch-told k s w =
      next-told (fetch_node env net public_ip w k) _ (λ v x. refl) ∙ fetch_node-told w k

  -- A step tells the network no key but the one that it announces, and nothing that was told is lost.
  pub run-only :
      (t : Task) (s : State) (w : World) (j : Key)
      → IsTold (run env net public_ip t s w).0 j
      → Announces t j ⊎ IsTold w j
  unfolding run
  run-only (start c) s w j a = inr a
  run-only (fetch k) s w j a = inr (subst (Any (λ i. i ≡ j)) (fetch-told k s w) a)
  run-only (save k m) s w j a = inr a
  run-only (announce k m) s w j a =
      log.only w k j (subst (Any (λ i. i ≡ j)) (announce-told k m s w) a)

  pub run-keeps :
      (t : Task) (s : State) (w : World) (j : Key)
      → IsTold w j
      → IsTold (run env net public_ip t s w).0 j
  unfolding run
  run-keeps (start c) s w j a = a
  run-keeps (fetch k) s w j a = subst (Any (λ i. i ≡ j)) (sym (fetch-told k s w)) a
  run-keeps (save k m) s w j a = a
  run-keeps (announce k m) s w j a =
      subst (Any (λ i. i ≡ j)) (sym (announce-told k m s w)) (log.keeps w k j a)

  finish-world :
      (t : Task) (others : List Task) (g : Group State World)
      (r : World × Result (State × List Task))
      → (finish t others g r).world ≡ r.0
  unfolding finish
  finish-world t others g (w, ok (s, ts)) = refl
  finish-world t others g (w, err e) = refl
  finish-world t others g (w, panic) = refl
  finish-world t others g (w, out_of_fuel) = refl

  pub turn-world :
      (t : Task) (others : List Task) (g : Group State World)
      → (turn env net public_ip t others g).world ≡ (run env net public_ip t g.store g.world).0
  unfolding turn
  turn-world t others g = finish-world t others g (run env net public_ip t g.store g.world)
