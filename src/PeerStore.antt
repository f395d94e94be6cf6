-- ===== src/PeerStore.antt =====
-- dht/peer_store.go: which peers provide a key. The mutex makes each exported call one step. A
-- `map[Peer]struct{}` is a list of distinct peers; `get` changes it in place, and the store is the
-- only one to hold it. The expiry is not negative.
pub mod Peers
pub mod Laws
pub mod Get
pub mod GetAll
use inu.Base.{
  ℕ, ◌+◌, Bool, true, false, ◌&&◌, List, [], ◌∷◌, map, some, none, ltb, ◌==◌, if◌then◌else◌, ℤ,
  int_eq, Run, ok, err, panic, out_of_fuel,
}
use inu.Key.{Key, key_eq}
use inu.KeyMap.{KeyMap, lookup, insert}
use inu.KeyMap
use inu.Asn.{Addr, v4, v6, invalid}

-- `time.Time`: an instant, and what else the struct holds (its location and its monotonic reading),
-- which `==` compares too.
pub record Time : Type 0 where
  pub instant : ℕ
  pub form : ℕ

pub record Peer : Type 0 where
  pub ip : Addr
  pub port : ℕ
  pub asn : ℤ
  pub published : Time

unfoldable pub addr_eq : Addr → Addr → Bool
addr_eq (v4 a) (v4 b) = key_eq a b
addr_eq (v4 a) (v6 b) = false
addr_eq (v4 a) invalid = false
addr_eq (v6 a) (v4 b) = false
addr_eq (v6 a) (v6 b) = key_eq a b
addr_eq (v6 a) invalid = false
addr_eq invalid (v4 b) = false
addr_eq invalid (v6 b) = false
addr_eq invalid invalid = true

-- Equality of the structs, by which the map tells peers apart.
unfoldable pub peer_eq : Peer → Peer → Bool
unfolding addr_eq
peer_eq p q =
    addr_eq p.ip q.ip
    && (p.port == q.port
        && (int_eq p.asn q.asn
            && (p.published.instant == q.published.instant
                && p.published.form == q.published.form)))

-- `_, found := m[p]`
unfoldable pub has : Peer → List Peer → Bool
unfolding peer_eq
has p [] = false
has p (q ∷ ps) = if peer_eq q p then true else has p ps

-- `m[p] = struct{}{}`
unfoldable pub add : Peer → List Peer → List Peer
unfolding has
add p ps = if has p ps then ps else p ∷ ps

pub record PeerStore : Type 0 where
  pub entries : KeyMap (List Peer)
  pub expiry : ℕ

pub data Error : Type 0 where
  not_found all_dead : Error

abbrev pub new_peer_store : ℕ → PeerStore
new_peer_store expiry = record { entries = []; expiry = expiry }

-- `time.Now().After(p.Published.Add(s.expiry))`
unfoldable pub is_expired : ℕ → ℕ → Peer → Bool
is_expired expiry now p = ltb (p.published.instant + expiry) now

-- The first loop of `get`. The clock is read for each peer: `now p` is the reading for `p`.
unfoldable pub drop_expired : ℕ → (Peer → ℕ) → List Peer → List Peer
unfolding is_expired
drop_expired expiry now [] = []
drop_expired expiry now (p ∷ ps) =
    let rest = drop_expired expiry now ps in if is_expired expiry (now p) p then rest else p ∷ rest

-- The end of `get`, with the peers that are left.
unfoldable pub give : PeerStore → Key → List Peer → PeerStore × Run Error (List Peer)
give s k [] = (record s { entries = KeyMap.delete k s.entries }, err all_dead)
give s k (p ∷ ps) = (record s { entries = insert k (p ∷ ps) s.entries }, ok (p ∷ ps))

unfoldable pub get : PeerStore → Key → (Peer → ℕ) → PeerStore × Run Error (List Peer)
unfolding drop_expired give
get s k now = elim (lookup k s.entries) [
  | none ↦ (s, err not_found)
  | some ps ↦ give s k (drop_expired s.expiry now ps)
]

unfoldable pub put_each : List Peer → List Peer → List Peer
unfolding add
put_each [] m = m
put_each (p ∷ ps) m = put_each ps (add p m)

unfoldable pub put : PeerStore → Key → List Peer → PeerStore
unfolding put_each
put s k ps =
    let m : List Peer = elim (lookup k s.entries) [ none ↦ [] | some old ↦ old ] in
    record s { entries = insert k (put_each ps m) s.entries }

unfoldable pub delete : PeerStore → Key → PeerStore
delete s k = record s { entries = KeyMap.delete k s.entries }

-- `if err == nil { pairs = append(pairs, pair{k, ps}) }`, with the pairs that follow.
abbrev pub with_pair : Key → Run Error (List Peer) → List (Key × List Peer) → List (Key × List Peer)
with_pair k (ok ps) pairs = (k, ps) ∷ pairs
with_pair k (err e) pairs = pairs
with_pair k panic pairs = pairs
with_pair k out_of_fuel pairs = pairs

-- The second loop of `GetAll`; `now k p` is the reading for the peer `p` of the key `k`.
unfoldable pub get_each :
    (Key → Peer → ℕ) → List Key → PeerStore → PeerStore × List (Key × List Peer)
unfolding get
get_each now [] s = (s, [])
get_each now (k ∷ ks) s =
    let (s', r) = get s k (now k) in
    let (s'', pairs) = get_each now ks s' in (s'', with_pair k r pairs)

unfoldable pub get_all : PeerStore → (Key → Peer → ℕ) → PeerStore × List (Key × List Peer)
unfolding get_each
get_all s now = get_each now (map (λ e. e.0) s.entries) s
