-- ===== src/Eval/Churn/Alternate.antt =====
-- The nodes of a churn go on and off by turns.
use inu.Base.{◌≡◌, refl, sym, subst, Bool, true, false, List, [], ◌∷◌}
use inu.Eval.Churn.{
  Phase, up, down, starting, joining, returned, panicked, Event, elapsed, started, joined, failed,
  done, ChurnNode, churn_a, churn_b, step_from, churn,
}

-- Whether a node is online in a phase; of one that has returned or panicked it is left open.
abbrev IsOnline : Phase → Bool → Type 0
IsOnline up b = b ≡ true
IsOnline joining b = b ≡ true
IsOnline down b = b ≡ false
IsOnline starting b = b ≡ false
IsOnline returned b = Unit
IsOnline panicked b = Unit

step_from-IsOnline :
    (p : Phase) (e : Event) (n : ChurnNode)
    → n.phase ≡ p
    → IsOnline p n.online
    → IsOnline (step_from p e n).phase (step_from p e n).online
step_from-IsOnline up elapsed n q h = refl
step_from-IsOnline up started n q h = subst (λ z. IsOnline z n.online) (sym q) h
step_from-IsOnline up joined n q h = subst (λ z. IsOnline z n.online) (sym q) h
step_from-IsOnline up failed n q h = subst (λ z. IsOnline z n.online) (sym q) h
step_from-IsOnline up done n q h = tt
step_from-IsOnline down elapsed n q h = h
step_from-IsOnline down started n q h = subst (λ z. IsOnline z n.online) (sym q) h
step_from-IsOnline down joined n q h = subst (λ z. IsOnline z n.online) (sym q) h
step_from-IsOnline down failed n q h = subst (λ z. IsOnline z n.online) (sym q) h
step_from-IsOnline down done n q h = tt
step_from-IsOnline starting elapsed n q h = subst (λ z. IsOnline z n.online) (sym q) h
step_from-IsOnline starting started n q h = refl
step_from-IsOnline starting joined n q h = subst (λ z. IsOnline z n.online) (sym q) h
step_from-IsOnline starting failed n q h = tt
step_from-IsOnline starting done n q h = tt
step_from-IsOnline joining elapsed n q h = subst (λ z. IsOnline z n.online) (sym q) h
step_from-IsOnline joining started n q h = subst (λ z. IsOnline z n.online) (sym q) h
step_from-IsOnline joining joined n q h = h
step_from-IsOnline joining failed n q h = subst (λ z. IsOnline z n.online) (sym q) h
step_from-IsOnline joining done n q h = h
step_from-IsOnline returned e n q h = subst (λ z. IsOnline z n.online) (sym q) tt
step_from-IsOnline panicked e n q h = subst (λ z. IsOnline z n.online) (sym q) tt

churn-online :
    (es : List Event) (n : ChurnNode)
    → IsOnline n.phase n.online
    → IsOnline (churn es n).phase (churn es n).online
unfolding churn
churn-online [] n h = h
churn-online (e ∷ es) n h =
    churn-online es (step_from n.phase e n) (step_from-IsOnline n.phase e n refl h)

-- Whatever the events, a node of either kind is online while it waits to go or joins, and offline while
-- it waits to come: it is stopped only when it is online and started only when it is not.
pub churn-IsOnline :
    (es : List Event)
    → IsOnline (churn es churn_a).phase (churn es churn_a).online
      × IsOnline (churn es churn_b).phase (churn es churn_b).online
churn-IsOnline es = (churn-online es churn_a refl, churn-online es churn_b refl)
