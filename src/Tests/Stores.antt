-- ===== src/Tests/Stores.antt =====
-- Runs and instances for dht/peer_store.go.
use inu.Base.{ℕ, ◌≡◌, refl, [], ◌∷◌, replicate, ◌++◌, pos, ok, err}
use inu.Key.{Key, key_eq}
use inu.KeyMap
use inu.KeyMap.{lookup}
use inu.Asn.{v4}
use inu.PeerStore.{Peer, PeerStore, new_peer_store, put, get, get_all, all_dead}
use inu.PeerStore.Laws.{IsValid, put_lem}
use inu.PeerStore.GetAll.{Gathers, get_all_lem}

abbrev key : ℕ → Key
key n = replicate 31 0 ++ n ∷ []

abbrev pub peer_at : ℕ → Peer
peer_at t = record {
  ip = v4 (10 ∷ 0 ∷ 0 ∷ 1 ∷ []);
  port = 4000;
  asn = pos 7;
  published = record { instant = t; form = 0 };
}

abbrev pub two_peers : PeerStore
two_peers = put (put (new_peer_store 10) (key 1) (peer_at 5 ∷ [])) (key 1) (peer_at 20 ∷ [])

one_expires : (get two_peers (key 1) (λ p. 25)).1 ≡ ok (peer_at 20 ∷ [])
unfolding put get lookup KeyMap.insert key_eq
one_expires = refl

both_expire : (get two_peers (key 1) (λ p. 31)).1 ≡ err all_dead
unfolding put get lookup KeyMap.insert key_eq
both_expire = refl

empty-IsValid : IsValid (new_peer_store 10)
unfolding lookup
empty-IsValid = record { keys = tt; peers = λ k. tt }

one-IsValid : IsValid (put (new_peer_store 10) (key 1) (peer_at 5 ∷ []))
one-IsValid = (put_lem (new_peer_store 10) (key 1) (peer_at 5 ∷ []) empty-IsValid).valid

pub two_peers-IsValid : IsValid two_peers
two_peers-IsValid =
    (put_lem (put (new_peer_store 10) (key 1) (peer_at 5 ∷ [])) (key 1) (peer_at 20 ∷ [])
      one-IsValid).valid

get_all_lem_example : Gathers two_peers (λ k p. 25) (get_all two_peers (λ k p. 25))
get_all_lem_example = get_all_lem two_peers (λ k p. 25) two_peers-IsValid
