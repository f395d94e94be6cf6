-- ===== src/PeerStore/Laws.antt =====
-- The store of dht/peer_store.go as a relation between keys and peers, and the operations that do
-- not read the clock.
use inu.Base.{
  ◌≡◌, refl, Bool, true, false, ◌&&◌, ◌||◌, not, List, [], Option, none, some, if◌then◌else◌, arith,
  Option-cases, inl, inr,
}
use inu.Key.{Key, key_eq}
use inu.Key.Number.{key_eq_iff}
use inu.KeyMap.{KeyMap, lookup, insert}
use inu.KeyMap
use inu.KeyMap.Laws.{lookup-insert, lookup-delete, insert-Distinct, delete-Distinct}
use inu.PeerStore.{Peer, PeerStore, has, put, put_each, delete}
use inu.PeerStore.Peers.{Distinct, has-put_each, put_each-Distinct}

abbrev pub peers_of : Option (List Peer) → List Peer
peers_of none = []
peers_of (some ps) = ps

-- The abstract store: whether the peer is stored under the key.
unfoldable pub provides : PeerStore → Key → Peer → Bool
provides s k p = has p (peers_of (lookup k s.entries))

-- Each key stands once, and each peer of a key stands once.
pub record IsValid (s : PeerStore) : Type 0 where
  pub keys : KeyMap.Distinct s.entries
  pub peers : (k : Key) → Distinct (peers_of (lookup k s.entries))

pub Distinct-if :
    (b : Bool) (o o' : Option (List Peer))
    → Distinct (peers_of o)
    → Distinct (peers_of o')
    → Distinct (peers_of (if b then o else o'))
Distinct-if true o o' d d' = d
Distinct-if false o o' d d' = d'

pub record Puts (s : PeerStore) (k : Key) (ps : List Peer) (s' : PeerStore) : Type 0 where
  pub valid : IsValid s'
  pub same_expiry : s'.expiry ≡ s.expiry
  pub holds : (j : Key) (p : Peer) → provides s' j p ≡ (provides s j p || (key_eq k j && has p ps))

put_old :
    (s : PeerStore) (k : Key) (ps : List Peer)
    → put s k ps
      ≡ record s { entries = insert k (put_each ps (peers_of (lookup k s.entries))) s.entries }
unfolding put
put_old s k ps = elim (Option-cases (lookup k s.entries)) [ inl e ↦ rw e | inr (o, e) ↦ rw e ]

-- `Put` on a valid store leaves a valid store with the same expiry, in which the given peers are
-- added to those of the key, and nothing else has changed.
pub put_lem : (s : PeerStore) (k : Key) (ps : List Peer) → IsValid s → Puts s k ps (put s k ps)
unfolding provides
put_lem s k ps v =
    let old = peers_of (lookup k s.entries) in
    let at = λ (j : Key). lookup-insert k j (put_each ps old) s.entries in
    rw (put_old s k ps) (record {
      valid = record {
        keys = insert-Distinct k (put_each ps old) s.entries v.keys;
        peers = λ j. rw (at j) (
            Distinct-if (key_eq k j) (some (put_each ps old)) (lookup j s.entries)
              (put_each-Distinct ps old (v.peers k)) (v.peers j));
      };
      same_expiry = refl;
      holds = λ j p. rw (at j) (ground (arith, key_eq_iff k j, has-put_each ps old p));
    })

pub record Deletes (s : PeerStore) (k : Key) (s' : PeerStore) : Type 0 where
  pub valid : IsValid s'
  pub same_expiry : s'.expiry ≡ s.expiry
  pub gone : lookup k s'.entries ≡ none
  pub holds : (j : Key) (p : Peer) → provides s' j p ≡ (not (key_eq k j) && provides s j p)

-- `Delete` on a valid store leaves a valid store with the same expiry, in which the key has no
-- peers, and nothing else has changed.
pub delete_lem : (s : PeerStore) (k : Key) → IsValid s → Deletes s k (delete s k)
unfolding provides delete has
delete_lem s k v =
    let at = λ (j : Key). lookup-delete k j s.entries v.keys in
    record {
      valid = record {
        keys = delete-Distinct k s.entries v.keys;
        peers = λ j. rw (at j) (Distinct-if (key_eq k j) none (lookup j s.entries) tt (v.peers j));
      };
      same_expiry = refl;
      gone = rw (at k) (ground (arith, key_eq_iff k k));
      holds = λ j p. rw (at j) (ground arith);
    }
