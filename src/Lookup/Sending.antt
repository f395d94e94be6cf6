-- ===== src/Lookup/Sending.antt =====
-- `Store` and `republish` of dht/node.go: what is sent, and what is kept.
use inu.Base.{
  ◌≡◌, ◌⊎◌, inl, inr, refl, ap, Bool, true, false, List, [], ◌∷◌, ◌++◌, Option, some, if◌then◌else◌,
}
use inu.Key.{Key}
use inu.Contact.{Contact}
use inu.PeerStore.{Peer, put}
use inu.Node.Handlers.{Node}
use inu.Lookup.{store_each, store}

-- Calls to some contacts, one after the other, that all succeeded.
pub data Sent {World : Type 0} (send : World → Contact → World × Bool)
    : World → List Contact → World → Type 0 where
  nobody : (w : World) → Sent send w [] w
  also :
      (w w' w'' : World) (c : Contact) (cs : List Contact)
      → send w c ≡ (w', true)
      → Sent send w' cs w''
      → Sent send w (c ∷ cs) w''

-- The call at which the sending ended.
pub record Broken {World : Type 0} (send : World → Contact → World × Bool) (w : World)
    (cs : List Contact) (w' : World) : Type 0 where
  pub front : List Contact
  pub contact : Contact
  pub back : List Contact
  pub world : World
  pub whole : cs ≡ front ++ (contact ∷ back)
  pub sent : Sent send w front world
  pub fails : send world contact ≡ (w', false)

module _ {World : Type 0} (send : World → Contact → World × Bool) where
  store_each_lem :
      (w : World) (cs : List Contact)
      → let (w', sent) = store_each send w cs in
        ((sent ≡ true) × Sent send w cs w') ⊎ ((sent ≡ false) × Broken send w cs w')
  unfolding store_each
  store_each_lem w [] = inl (refl, nobody w)
  store_each_lem w (c ∷ cs) = go (send w c) refl (λ v. store_each_lem v cs)
    where
      go :
          (x : World × Bool)
          → send w c ≡ x
          → ((v : World)
              → ((store_each send v cs).1 ≡ true) × Sent send v cs (store_each send v cs).0
                ⊎ ((store_each send v cs).1 ≡ false) × Broken send v cs (store_each send v cs).0)
          → let y : World × Bool = if x.1 then store_each send x.0 cs else (x.0, false) in
            (y.1 ≡ true) × Sent send w (c ∷ cs) y.0 ⊎ (y.1 ≡ false) × Broken send w (c ∷ cs) y.0
      go (v, false) e rest = inr (
        refl,
        record {
          front = [];
          contact = c;
          back = cs;
          world = w;
          whole = refl;
          sent = nobody w;
          fails = e;
        },
      )
      go (v, true) e rest = elim (rest v) [
        | inl (t, s) ↦ inl (t, also w v (store_each send v cs).0 c cs e s)
        | inr (t, b) ↦ inr (
          t,
          record {
            front = c ∷ b.front;
            contact = b.contact;
            back = b.back;
            world = b.world;
            whole = ap (◌∷◌ c) b.whole;
            sent = also w v b.world c b.front e b.sent;
            fails = b.fails;
          },
        )
      ]

module _ {World : Type 0} (find : World → Key → World × Option (List Contact))
    (send : World → Contact → Key → List Peer → World × Bool) where
  -- `Store`, when `FindNode` returns contacts: either it succeeds, and each of them was sent the peers in
  -- turn, or it returns the error of one contact, those before it were sent the peers, and none behind
  -- it is asked. The node keeps the peers itself, in both cases, unless it is told not to.
  pub store-Sent :
      (n : Node) (w v : World) (k : Key) (ps : List Peer) (network_only : Bool) (cs : List Contact)
      → find w k ≡ (v, some cs)
      → let (n', w', sent) = store find send n w k ps network_only in
        (((sent ≡ true) × Sent (λ u c. send u c k ps) v cs w')
          ⊎ ((sent ≡ false) × Broken (λ u c. send u c k ps) v cs w'))
        × (n'.peer_store ≡ (if network_only then n.peer_store else put n.peer_store k ps))
  unfolding store
  store-Sent n w v k ps network_only cs e =
      rw (e, store) (store_each_lem (λ u c. send u c k ps) v cs, kept network_only)
    where
      kept :
          (b : Bool)
          → (if b then n else record n { peer_store = put n.peer_store k ps }).peer_store
            ≡ (if b then n.peer_store else put n.peer_store k ps)
      kept true = refl
      kept false = refl
