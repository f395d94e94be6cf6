-- ===== src/PeerStore/Peers.antt =====
-- The sets of peers in dht/peer_store.go.
use inu.Base.{
  ℕ, ◌≡◌, ◌↔◌, refl, ap, true, false, ◌&&◌, ◌||◌, not, List, [], ◌∷◌, int_eq_iff, arith, Bool-cases,
  inl, inr,
}
use inu.Key.Number.{key_eq_iff}
use inu.Asn.{Addr, v4, v6, invalid}
use inu.PeerStore.{Peer, addr_eq, peer_eq, has, add, put_each, is_expired, drop_expired}

addr_eq_iff : (a b : Addr) → (addr_eq a b ≡ true) ↔ (a ≡ b)
unfolding addr_eq
addr_eq_iff (v4 a) (v4 b) = ground (arith, key_eq_iff a b)
addr_eq_iff (v4 a) (v6 b) = ground arith
addr_eq_iff (v4 a) invalid = ground arith
addr_eq_iff (v6 a) (v4 b) = ground arith
addr_eq_iff (v6 a) (v6 b) = ground (arith, key_eq_iff a b)
addr_eq_iff (v6 a) invalid = ground arith
addr_eq_iff invalid (v4 b) = ground arith
addr_eq_iff invalid (v6 b) = ground arith
addr_eq_iff invalid invalid = ground arith

pub peer_eq_iff : (p q : Peer) → (peer_eq p q ≡ true) ↔ (p ≡ q)
unfolding peer_eq
peer_eq_iff p q = ground (arith, addr_eq_iff p.ip q.ip, int_eq_iff p.asn q.asn)

-- No peer stands twice, as in a map.
abbrev pub Distinct : List Peer → Type 0
Distinct [] = Unit
Distinct (p ∷ ps) = (has p ps ≡ false) × Distinct ps

pub has-add : (p q : Peer) (ps : List Peer) → has q (add p ps) ≡ (peer_eq p q || has q ps)
unfolding add has
has-add p q ps = ground (arith, peer_eq_iff p q)

add-Distinct : (p : Peer) (ps : List Peer) → Distinct ps → Distinct (add p ps)
unfolding add
add-Distinct p ps d = elim (Bool-cases (has p ps)) [ inl e ↦ rw e d | inr e ↦ rw e (e, d) ]

pub has-put_each : (ps m : List Peer) (q : Peer) → has q (put_each ps m) ≡ (has q ps || has q m)
unfolding put_each has
has-put_each [] m q = refl
has-put_each (p ∷ ps) m q = ground (arith, has-put_each ps (add p m) q, has-add p q m)

pub put_each-Distinct : (ps m : List Peer) → Distinct m → Distinct (put_each ps m)
unfolding put_each
put_each-Distinct [] m d = d
put_each-Distinct (p ∷ ps) m d = put_each-Distinct ps (add p m) (add-Distinct p m d)

module _ (expiry : ℕ) (now : Peer → ℕ) where
  pub has-drop_expired :
      (ps : List Peer) (q : Peer)
      → has q (drop_expired expiry now ps) ≡ (has q ps && not (is_expired expiry (now q) q))
  unfolding drop_expired has
  has-drop_expired [] q = refl
  has-drop_expired (p ∷ ps) q = elim (Bool-cases (peer_eq p q)) [
    | inl e ↦
        let expired = ap (λ z. is_expired expiry (now z) z) ((peer_eq_iff p q).0 e) in
        ground (arith, e, expired, has-drop_expired ps q)
    | inr e ↦ ground (arith, e, has-drop_expired ps q)
  ]

  pub drop_expired-Distinct : (ps : List Peer) → Distinct ps → Distinct (drop_expired expiry now ps)
  unfolding drop_expired
  drop_expired-Distinct [] d = tt
  drop_expired-Distinct (p ∷ ps) d = elim (Bool-cases (is_expired expiry (now p) p)) [
    | inl e ↦ rw e (drop_expired-Distinct ps d.1)
    | inr e ↦ rw e (ground (arith, has-drop_expired ps p, d.0), drop_expired-Distinct ps d.1)
  ]
