-- ===== src/Daemon/Calls.antt =====
-- The calls of daemon.go that succeeded, one after the other.
use inu.Base.{
  ◌≡◌, refl, ap, ◌∙◌, Bool, true, false, ◌>>=◌, >>=-eq-ok, Run, ok, err, panic, out_of_fuel, arith,
}
use inu.Http
use inu.Http.{Text}
use inu.Key.{Key}
use inu.Store.{Block, valid}
use inu.Merkle.{Node, parse_block}
use inu.Fs.{Env}
use inu.Daemon.{Error, Result, Network, Peer, lift, next, call, checked, fetch_node, store_error}

pub next-ok :
    {World A B : Type 0} (r : World × Result A) (f : World → A → World × Result B) (w' : World)
    (y : B)
    → next r f ≡ (w', ok y)
    → (w : World) × (x : A) × (r ≡ (w, ok x)) × (f w x ≡ (w', ok y))
unfolding next
next-ok (w, ok x) f w' y e = (w, x, refl, e)
next-ok (w, err z) f w' y e = cc
next-ok (w, panic) f w' y e = cc
next-ok (w, out_of_fuel) f w' y e = cc

pub lift-ok : {E A : Type 0} (f : E → Error) (r : Run E A) (x : A) → lift f r ≡ ok x → r ≡ ok x
lift-ok f (ok y) x e = ground (arith, e)
lift-ok f (err z) x e = cc
lift-ok f panic x e = cc
lift-ok f out_of_fuel x e = cc

pub call-ok :
    {World A : Type 0} (r : World × Http.Result A) (w : World) (x : A)
    → call r ≡ (w, ok x)
    → r ≡ (w, ok x)
unfolding call
call-ok (v, ok y) w x e = ground (arith, e)
call-ok (v, err z) w x e = cc
call-ok (v, panic) w x e = cc
call-ok (v, out_of_fuel) w x e = cc

checked-ok : (v : Bool) (b b' : Block) → checked v b ≡ ok b' → b ≡ b'
checked-ok true b b' e = ground (arith, e)
checked-ok false b b' e = cc

-- A node that `download` gets is the block of some peer's answer, parsed.
pub fetch_node-block :
    {State World : Type 0} (env : Env State) (net : Network World) (public_ip : Text) (w w' : World)
    (k : Key) (m : Node)
    → fetch_node env net public_ip w k ≡ (w', ok m)
    → (v : World) × (u : World) × (p : Peer) × (b : Block) × (net.get_block v p k ≡ (u, ok b))
      × (parse_block env.nodes b ≡ ok m)
unfolding fetch_node
fetch_node-block env net public_ip w w' k m e =
    let (v, peers, asked, e') = next-ok _ _ w' m e in
    let (v', p, chosen, e'') = next-ok _ _ w' m e' in
    let (u, b, got, e3) = next-ok _ _ w' m e'' in
    let (ok_name, named, e4) =
      >>=-eq-ok (lift store_error (valid env.hashing b))
        (λ v. checked v b >>= λ b'. lift store_error (parse_block env.nodes b'))
        (ap (λ z. z.1) e3) in
    let (b', same, e5) =
      >>=-eq-ok (checked ok_name b) (λ b'. lift store_error (parse_block env.nodes b')) e4 in
    let parsed = lift-ok store_error (parse_block env.nodes b') m e5 in
    (
      v',
      u,
      p,
      b,
      call-ok _ u b got,
      ap (parse_block env.nodes) (checked-ok ok_name b b' same) ∙ parsed,
    )
