-- ===== src/PeerStore/GetAll.antt =====
-- `GetAll` of dht/peer_store.go.
use inu.Base.{
  ℕ, ◌≡◌, refl, subst, ◌∙◌, Bool, true, false, ◌&&◌, ◌||◌, not, List, [], ◌∷◌, map, none, some,
  if◌then◌else◌, arith, Option-cases, inl, inr, Run, ok,
}
use inu.Key.{Key, key_eq}
use inu.Key.Number.{key_eq_iff}
use inu.KeyMap.{KeyMap, lookup, insert}
use inu.KeyMap
use inu.PeerStore.{Peer, PeerStore, Error, has, with_pair, get, get_each, get_all}
use inu.PeerStore.Laws.{IsValid, provides}
use inu.PeerStore.Get.{is_alive, Answers, Gets, get_lem}

unfoldable pub asked : Key → List Key → Bool
asked j [] = false
asked j (k ∷ ks) = if key_eq k j then true else asked j ks

abbrev NoRepeat : List Key → Type 0
NoRepeat [] = Unit
NoRepeat (k ∷ ks) = (asked k ks ≡ false) × NoRepeat ks

-- What `GetAll` returns and leaves.
pub record Gathers (s : PeerStore) (now : Key → Peer → ℕ) (out : PeerStore × List (Key × List Peer))
    : Type 0 where
  pub valid : IsValid out.0
  pub same_expiry : out.0.expiry ≡ s.expiry
  pub once : KeyMap.Distinct out.1
  pub agree : (j : Key) → lookup j out.1 ≡ lookup j out.0.entries
  pub holds : (j : Key) (p : Peer) → provides out.0 j p ≡ (provides s j p && is_alive s (now j) p)

record Each (s : PeerStore) (now : Key → Peer → ℕ) (ks : List Key)
    (out : PeerStore × List (Key × List Peer)) : Type 0 where
  valid : IsValid out.0
  same_expiry : out.0.expiry ≡ s.expiry
  once : KeyMap.Distinct out.1
  others : (j : Key) → asked j ks ≡ false → lookup j out.0.entries ≡ lookup j s.entries
  agree : (j : Key) → lookup j out.1 ≡ (if asked j ks then lookup j out.0.entries else none)
  holds :
      (j : Key) (p : Peer)
      → provides out.0 j p ≡ (provides s j p && (not (asked j ks) || is_alive s (now j) p))

module _ (now : Key → Peer → ℕ) (s : PeerStore) (k : Key) (ks : List Key) (s' s'' : PeerStore)
    (r : Run Error (List Peer)) (pairs : List (Key × List Peer)) (g : Gets s k (now k) (s', r))
    (rest : Each s' now ks (s'', pairs)) (d : asked k ks ≡ false) where
  abbrev kept : lookup k s''.entries ≡ lookup k s'.entries
  kept = rest.others k d

  Each-skip :
      lookup k s'.entries ≡ none
      → with_pair k r pairs ≡ pairs
      → Each s now (k ∷ ks) (s'', with_pair k r pairs)
  unfolding asked
  Each-skip e w = rw w (record {
    valid = rest.valid;
    same_expiry = rest.same_expiry ∙ g.same_expiry;
    once = rest.once;
    others = λ j h. ground (arith, rest.others j, g.others j, h);
    agree = λ j. ground (arith, rest.agree j, key_eq_iff k j, kept, e, d);
    holds = λ j p. ground (arith, rest.holds j p, g.holds j p, key_eq_iff k j, d);
  })

  Each-pair :
      (ps : List Peer)
      → lookup k s'.entries ≡ some ps
      → r ≡ ok ps
      → Each s now (k ∷ ks) (s'', with_pair k r pairs)
  unfolding asked lookup
  Each-pair ps e w = rw w (record {
    valid = rest.valid;
    same_expiry = rest.same_expiry ∙ g.same_expiry;
    once = (ground (arith, rest.agree k, d), rest.once);
    others = λ j h. ground (arith, rest.others j, g.others j, h);
    agree = λ j. ground (arith, rest.agree j, key_eq_iff k j, kept, e, d);
    holds = λ j p. ground (arith, rest.holds j p, g.holds j p, key_eq_iff k j, d);
  })

  no_pair : Answers none r → with_pair k r pairs ≡ pairs
  no_pair (inl h) = rw h
  no_pair (inr h) = rw h

  Each-cons : Each s now (k ∷ ks) (s'', with_pair k r pairs)
  Each-cons = elim (Option-cases (lookup k s'.entries)) [
    | inl e ↦ Each-skip e (no_pair (subst (λ o. Answers o r) e g.answers))
    | inr (ps, e) ↦ Each-pair ps e (subst (λ o. Answers o r) e g.answers).0
  ]

module _ (now : Key → Peer → ℕ) where
  Each-get_each :
      (ks : List Key) (s : PeerStore) → IsValid s → NoRepeat ks → Each s now ks (get_each now ks s)
  unfolding get_each
  Each-get_each [] s v d = record {
    valid = v;
    same_expiry = refl;
    once = tt;
    others = λ j h. refl;
    agree = λ j. unfold asked lookup in refl;
    holds = λ j p. unfold asked in ground arith;
  }
  Each-get_each (k ∷ ks) s v d =
      let g = get_lem s k (now k) v in
      let (s', r) = get s k (now k) in
      let rest = Each-get_each ks s' g.valid d.1 in
      let (s'', pairs) = get_each now ks s' in Each-cons now s k ks s' s'' r pairs g rest d.0

asked-keys :
    (m : KeyMap (List Peer)) (j : Key) → asked j (map (λ e. e.0) m) ≡ false → lookup j m ≡ none
unfolding asked lookup
asked-keys [] j h = refl
asked-keys ((k, ps) ∷ m) j h = ground (arith, asked-keys m j, h)

keys-asked :
    (m : KeyMap (List Peer)) (j : Key) → lookup j m ≡ none → asked j (map (λ e. e.0) m) ≡ false
unfolding asked lookup
keys-asked [] j h = refl
keys-asked ((k, ps) ∷ m) j h = ground (arith, keys-asked m j, h)

NoRepeat-keys : (m : KeyMap (List Peer)) → KeyMap.Distinct m → NoRepeat (map (λ e. e.0) m)
NoRepeat-keys [] d = tt
NoRepeat-keys ((k, ps) ∷ m) d = (keys-asked m k d.0, NoRepeat-keys m d.1)

-- `GetAll` on a valid store: it leaves a valid store with the same expiry and exactly the peers that
-- have not expired, each at the reading made for it; and it returns, once for each key that is left,
-- the key with its peers.
pub get_all_lem : (s : PeerStore) (now : Key → Peer → ℕ) → IsValid s → Gathers s now (get_all s now)
unfolding get_all
get_all_lem s now v =
    let ks = map (λ (e : Key × List Peer). e.0) s.entries in
    let each = Each-get_each now ks s v (NoRepeat-keys s.entries v.keys) in
    record {
      valid = each.valid;
      same_expiry = each.same_expiry;
      once = each.once;
      agree = λ j. ground (arith, each.agree j, each.others j, asked-keys s.entries j);
      holds = λ j p. unfold provides has in ground (arith, each.holds j p, asked-keys s.entries j);
    }
