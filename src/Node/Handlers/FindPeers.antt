-- ===== src/Node/Handlers/FindPeers.antt =====
-- The answer of `handleFindPeers` of dht/node.go.
use inu.Base.{
  ℕ, ◌≡◌, ◌≢◌, ◌⊎◌, inl, inr, refl, subst, sym, ◌∙◌, true, false, ◌&&◌, List, [], none, some, Run,
  arith, Option-cases,
}
use inu.Key.{Key, IsKey}
use inu.Key.Number.{key_eq_refl}
use inu.Key.Encoding.{Base32}
use inu.KeyMap.{lookup}
use inu.PeerStore.{Peer, PeerStore, get, has}
use inu.PeerStore
use inu.PeerStore.Laws.{IsValid, provides}
use inu.PeerStore.Get.{is_alive, Answers, Gets, get_lem}
use inu.Routing.Table.{find_closest_nodes}
use inu.Routing.Table.Covers.{Covers}
use inu.Routing.Table.Closest.{Closest, find_closest_nodes-Closest}
use inu.Node.{Verdict, serve, read_key}
use inu.Node.Handlers.{Node, FindPeersResp, resp_of, handle_find_peers}

-- Either the live peers, at least one, or, where there is none, the closest contacts.
abbrev pub Informs : Node → Key → Key → (Peer → ℕ) → FindPeersResp → Type 0
Informs n k src now resp =
    ((resp.found ≡ true)
      × (resp.contacts ≡ [])
      × (resp.peers ≢ [])
      × ((p : Peer)
          → has p resp.peers ≡ (provides n.peer_store k p && is_alive n.peer_store now p)))
    ⊎ ((resp.found ≡ false)
        × (resp.peers ≡ [])
        × Closest n.rt k src resp.contacts
        × ((p : Peer) → (provides n.peer_store k p && is_alive n.peer_store now p) ≡ false))

module _ (n : Node) (k src : Key) (now : Peer → ℕ) (s : PeerStore)
    (r : Run PeerStore.Error (List Peer)) (g : Gets n.peer_store k now (s, r))
    (close : Closest n.rt k src (find_closest_nodes n.rt k src)) where
  Informs-resp : Informs n k src now (resp_of (find_closest_nodes n.rt k src) r)
  Informs-resp = elim (Option-cases (lookup k s.entries)) [
    | inl e ↦ nobody e (subst (λ o. Answers o r) e g.answers)
    | inr (ps, e) ↦ somebody ps e (subst (λ o. Answers o r) e g.answers)
  ]
    where
      left :
          (p : Peer) → provides s k p ≡ (provides n.peer_store k p && is_alive n.peer_store now p)
      left p = ground (arith, g.holds k p, key_eq_refl k)

      nobody :
          lookup k s.entries ≡ none
          → Answers none r
          → Informs n k src now (resp_of (find_closest_nodes n.rt k src) r)
      nobody e (inl h) =
          rw h (inr (refl, refl, close, λ p. sym (left p) ∙ (unfold provides has in rw e)))
      nobody e (inr h) =
          rw h (inr (refl, refl, close, λ p. sym (left p) ∙ (unfold provides has in rw e)))

      somebody :
          (ps : List Peer)
          → lookup k s.entries ≡ some ps
          → Answers (some ps) r
          → Informs n k src now (resp_of (find_closest_nodes n.rt k src) r)
      somebody ps e (h, more) =
          rw h (inl (refl, refl, more, λ p. (unfold provides in ground (arith, left p, e))))

-- What the call for the peers of a key answers and leaves.
pub record Served (b : Base32) (n : Node) (text : List ℕ) (k src : Key) (now : Peer → ℕ)
    (out : Node × Verdict FindPeersResp) : Type 0 where
  pub resp : FindPeersResp
  pub reply : out.1 ≡ serve resp
  pub informs : Informs n k src now resp
  pub store : Gets n.peer_store k now (get n.peer_store k now)
  pub same_store : out.0.peer_store ≡ (get n.peer_store k now).0
  pub same_rt : out.0.rt ≡ n.rt

-- The call for the peers of a key, on a node with a valid store and a table that covers its keys:
-- it answers with exactly the peers of the key that have not expired, if there is one; if there is
-- none, with the contacts closest to the key, without the caller. The table stays, and the store is
-- left as `get` leaves it.
pub handle_find_peers-Served :
    (b : Base32) (n : Node) (text : List ℕ) (k src : Key) (now : Peer → ℕ) (top : ℕ)
    → read_key b text ≡ some k
    → IsKey k
    → IsValid n.peer_store
    → Covers n.rt.k 0 top n.rt.buckets
    → Served b n text k src now (handle_find_peers b n text src now)
unfolding handle_find_peers
handle_find_peers-Served b n text k src now top read key v covers =
    let g = get_lem n.peer_store k now v in
    let (s, r) = get n.peer_store k now in
    let close = find_closest_nodes-Closest n.rt top k src covers key in
    rw (handle_find_peers, read)
      (record {
        resp = resp_of (find_closest_nodes n.rt k src) r;
        reply = refl;
        informs = Informs-resp n k src now s r g close;
        store = g;
        same_store = refl;
        same_rt = refl;
      })
