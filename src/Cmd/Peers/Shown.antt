-- ===== src/Cmd/Peers/Shown.antt =====
-- The paths that `peer add` prints.
use inu.Base.{◌≡◌, refl, ap, ◌∙◌, [], ◌∷◌, ◌++◌, some, arith}
use mathlib.Core.List.{append_assoc}
use inu.Http.{Text}
use inu.Fs.{Record}
use inu.Cmd.Peers.{cut_prefix, trim_prefix, reversed, trim_suffix, shown, or_whole}

cut_prefix-append : (p s : Text) → cut_prefix p (p ++ s) ≡ some s
unfolding cut_prefix
cut_prefix-append [] s = refl
cut_prefix-append (c ∷ p) s = ground (arith, cut_prefix-append p s)

reversed-append : (s t u : Text) → reversed (s ++ t) u ≡ reversed t (reversed s u)
unfolding reversed
reversed-append [] t u = refl
reversed-append (c ∷ s) t u = reversed-append s t (c ∷ u)

reversed-front : (s u v : Text) → reversed s (u ++ v) ≡ reversed s u ++ v
unfolding reversed
reversed-front [] u v = refl
reversed-front (c ∷ s) u v = reversed-front s (c ∷ u) v

reversed-reversed : (s u : Text) → reversed (reversed s u) [] ≡ reversed u s
unfolding reversed
reversed-reversed [] u = refl
reversed-reversed (c ∷ s) u = reversed-reversed s (c ∷ u)

trim_suffix-append : (s p : Text) → trim_suffix p (s ++ p) ≡ s
unfolding trim_suffix
trim_suffix-append s p =
    let back : reversed (s ++ p) [] ≡ reversed p [] ++ reversed s [] =
      reversed-append s p [] ∙ reversed-front p [] (reversed s []) in
    let cut : trim_prefix (reversed p []) (reversed (s ++ p) []) ≡ reversed s [] =
      ap (λ t. trim_prefix (reversed p []) t) back
      ∙ ap (λ o. or_whole o (reversed p [] ++ reversed s []))
          (cut_prefix-append (reversed p []) (reversed s [])) in
    ap (λ t. reversed t []) cut ∙ reversed-reversed s [] ∙ (unfold reversed in refl)

-- When the absolute path ends with the argument, `add` prints each record with the argument in the
-- place of the absolute path, whatever stands behind it.
pub shown-append :
    (dir arg rest : Text) (r : Record)
    → r.path ≡ (dir ++ arg) ++ rest
    → shown (dir ++ arg) arg r ≡ arg ++ rest
unfolding shown
shown-append dir arg rest r e =
    ap (λ p. trim_prefix p r.path) (trim_suffix-append dir arg)
    ∙ ap (trim_prefix dir) (e ∙ append_assoc dir arg rest)
    ∙ ap (λ o. or_whole o (dir ++ (arg ++ rest))) (cut_prefix-append dir (arg ++ rest))
