-- ===== src/Daemon/Downloads/Ordered.antt =====
-- The calls of `PutKey` of a group of downloads: a block is stored before its key is told.
use inu.Base.{List, [], ◌∷◌, ◌++◌, ◌≡◌, ◌⊎◌, inl, inr, subst}
use inu.Key.{Key}
use inu.Cid.{Cid}
use inu.Http.{Text}
use inu.Store.{IsDb}
use inu.Merkle.{Node}
use inu.Fs.{Env}
use inu.Daemon.{Network, Task, start, fetch, save, announce, run}
use inu.Daemon.Downloads.{Group, turn, Reaches, stay, more}
use inu.Daemon.Downloads.Steps.{turn-Grows}
use inu.Daemon.Downloads.Held.{IsHonest, IsHeld, IsReady, Grows, IsHeld-kept}
use inu.Daemon.Downloads.Log.{Logs, IsTold, Announces, run-only, turn-world}

module _ {State World : Type 0} (env : Env State) (net : Network World) (public_ip : Text)
    (told : World → List Key) (log : Logs net told) where
  -- At every moment of a download from honest peers, over a network with a log of the keys it is told,
  -- whatever the order of the steps and their errors: for each key that the network has been told and had
  -- not been told when the download began, the store has a block under the key's name.
  pub download-IsHeld :
      (c : Cid) (j : Key) (g h : Group State World)
      → IsDb env.db
      → IsHonest env net
      → g.tasks ≡ start c ∷ []
      → g.announced ≡ []
      → Reaches env net public_ip g h
      → IsTold env net public_ip told log h.world j
      → IsTold env net public_ip told log g.world j ⊎ IsHeld env net public_ip h.store j
  download-IsHeld c j g h law honest one unknown stay a = inl a
  download-IsHeld c j g _ law honest one unknown (more front back t h r e) a =
      let (ready, grows) =
        turn-Grows env net public_ip (IsReady env net public_ip)
          (λ s (x : Key × Node). IsHeld env net public_ip s x.0) (Grows env net public_ip) c g h
          front back t (IsHeld-kept env net public_ip law honest) one unknown r e in
      let larger : (k : Key)
          → IsHeld env net public_ip h.store k
          → IsHeld env net public_ip (turn env net public_ip t (front ++ back) h).store k =
        unfold Grows in grows in
      let ran : IsTold env net public_ip told log (run env net public_ip t h.store h.world).0 j =
        subst (λ w. IsTold env net public_ip told log w j)
          (turn-world env net public_ip told log t (front ++ back) h) a in
      elim (run-only env net public_ip told log t h.store h.world j ran) [
        | inl made ↦ inr (larger j (own t ready made))
        | inr before ↦ elim (download-IsHeld c j g h law honest one unknown r before) [
          | inl at_start ↦ inl at_start
          | inr held ↦ inr (larger j held)
        ]
      ]
    where
      own :
          (u : Task)
          → IsReady env net public_ip h.store u
          → Announces u j
          → IsHeld env net public_ip h.store j
      own (start d) p m = absurd m
      own (fetch k) p m = absurd m
      own (save k m) p n = absurd n
      own (announce k m) p n = subst (IsHeld env net public_ip h.store) n p
