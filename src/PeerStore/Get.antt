-- ===== src/PeerStore/Get.antt =====
-- `get` of dht/peer_store.go.
use inu.Base.{
  ℕ, ◌≡◌, ◌≢◌, refl, ap, subst, ◌∙◌, ◌⊎◌, Bool, false, ◌&&◌, ◌||◌, not, List, [], ◌∷◌, Option, none,
  some, arith, Option-cases, inl, inr, Run, ok, err,
}
use inu.Key.{Key, key_eq}
use inu.Key.Number.{key_eq_iff, key_eq_refl}
use inu.KeyMap.{lookup}
use inu.KeyMap.Laws.{lookup-insert, lookup-delete, insert-Distinct, delete-Distinct}
use inu.PeerStore.{
  Peer, PeerStore, Error, not_found, all_dead, has, is_expired, drop_expired, give, get,
}
use inu.PeerStore.Peers.{Distinct, has-drop_expired, drop_expired-Distinct}
use inu.PeerStore.Laws.{IsValid, provides, peers_of, Distinct-if}

-- Whether the peer has not expired at the reading.
abbrev pub is_alive : PeerStore → (Peer → ℕ) → Peer → Bool
is_alive s now p = not (is_expired s.expiry (now p) p)

-- The answer for a key that the store then has this under.
abbrev pub Answers : Option (List Peer) → Run Error (List Peer) → Type 0
Answers none r = (r ≡ err not_found) ⊎ (r ≡ err all_dead)
Answers (some ps) r = (r ≡ ok ps) × (ps ≢ [])

pub record Gets (s : PeerStore) (k : Key) (now : Peer → ℕ) (out : PeerStore × Run Error (List Peer))
    : Type 0 where
  pub valid : IsValid out.0
  pub same_expiry : out.0.expiry ≡ s.expiry
  pub answers : Answers (lookup k out.0.entries) out.1
  pub others : (j : Key) → key_eq k j ≡ false → lookup j out.0.entries ≡ lookup j s.entries
  pub holds :
      (j : Key) (p : Peer)
      → provides out.0 j p ≡ (provides s j p && (not (key_eq k j) || is_alive s now p))

module _ (s : PeerStore) (k : Key) (now : Peer → ℕ) (v : IsValid s) where
  get-none : lookup k s.entries ≡ none → Gets s k now (get s k now)
  unfolding get provides has
  get-none e =
      rw (e, get)
        (record {
          valid = v;
          same_expiry = refl;
          answers = rw e (inl refl);
          others = λ j h. refl;
          holds = λ j p. ground (arith, e, key_eq_iff k j);
        })

  get-some : (ps : List Peer) → lookup k s.entries ≡ some ps → Gets s k now (get s k now)
  unfolding get provides
  get-some ps e = rw (e, get) (left (drop_expired s.expiry now ps) refl)
    where
      left :
          (alive : List Peer) → drop_expired s.expiry now ps ≡ alive → Gets s k now (give s k alive)
      left [] same =
          let at = λ (j : Key). lookup-delete k j s.entries v.keys in
          unfold give in
          record {
            valid = record {
              keys = delete-Distinct k s.entries v.keys;
              peers = λ j.
                  rw (at j) (Distinct-if (key_eq k j) none (lookup j s.entries) tt (v.peers j));
            };
            same_expiry = refl;
            answers = rw (at k, key_eq_refl k) (inr refl);
            others = λ j h. at j ∙ rw h;
            holds = λ j p. rw (at j) (
                unfold has in
                ground
                  (arith, key_eq_iff k j, e, has-drop_expired s.expiry now ps p, ap (has p) same));
          }
      left (q ∷ qs) same =
          let at = λ (j : Key). lookup-insert k j (q ∷ qs) s.entries in
          unfold give in
          record {
            valid = record {
              keys = insert-Distinct k (q ∷ qs) s.entries v.keys;
              peers = λ j. rw (at j) (
                  Distinct-if (key_eq k j) (some (q ∷ qs)) (lookup j s.entries)
                    (subst Distinct same (
                      drop_expired-Distinct s.expiry now ps
                        (subst (λ o. Distinct (peers_of o)) e (v.peers k))))
                    (v.peers j));
            };
            same_expiry = refl;
            answers = rw (at k, key_eq_refl k) (refl, λ h. cc);
            others = λ j h. at j ∙ rw h;
            holds = λ j p. rw (at j) (
                ground
                  (arith, key_eq_iff k j, e, has-drop_expired s.expiry now ps p, ap (has p) same));
          }

  -- `get` on a valid store: it leaves a valid store with the same expiry, from which the expired
  -- peers of the key are gone and in which nothing else has changed; it returns the peers that the
  -- key then has, at least one, and an error if there is none, when the key is gone too.
  pub get_lem : Gets s k now (get s k now)
  get_lem = elim (Option-cases (lookup k s.entries)) [
    | inl e ↦ get-none e
    | inr (ps, e) ↦ get-some ps e
  ]
