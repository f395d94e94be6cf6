-- ===== src/Fs/Dag.antt =====
-- `DAG` of fs/fs.go lists a node and all that stands below it.
use mathlib.Core.List.{Mem, mem-append_left, mem-append_right, mem-cons_self, mem-cons_of_mem}
use inu.Base.{
  ℕ, zero, suc, ◌+◌, ◌≡◌, sym, ap, ◌∙◌, List, [], ◌∷◌, ◌++◌, length, subst, some, Option-cases,
  Bool-cases, inl, inr, ok, ◌>>=◌, >>=-eq-ok, arith,
}
use inu.Cid.{Bytes, Cid}
use inu.Key.{key_eq}
use inu.Store.{Result, get}
use inu.Merkle.{Link, Node, parse_block}
use inu.Fs.{Env, fetch, dag, dag_links, find_link, resolve_parts}
use inu.Fs.Resolve.{fetch_first, resolve_parts-some}

module _ {State : Type 0} (env : Env State) where
  get_cid : (s : State) (c : Cid) (m : Node) → fetch env s c ≡ ok m → m.block.cid ≡ c
  unfolding fetch get parse_block
  get_cid s c m e = elim (Option-cases (env.db.select s c)) [
    | inl free ↦ absurd (ground (arith, free, e))
    | inr (bytes, h) ↦ elim (Option-cases (env.nodes.unmarshal bytes)) [
      | inl bad ↦ absurd (ground (arith, h, bad, e))
      | inr (a, g) ↦ ground (arith, h, g, e)
    ]
  ]

  dag_links-find :
      (go : Cid → Result (List Cid × ℕ)) (name : Bytes) (ls : List Link) (l : Link) (cs : List Cid)
      (k : ℕ)
      → dag_links go ls ≡ ok (cs, k)
      → find_link name ls ≡ some l
      → (ds : List Cid) × (j : ℕ) × (go l.cid ≡ ok (ds, j)) × ((x : Cid) → Mem x ds → Mem x cs)
  unfolding dag_links
  dag_links-find go name [] l cs k e h = cc
  dag_links-find go name (i ∷ ls) l cs k e h =
      let (a, ran, e') =
        >>=-eq-ok (go i.cid) (λ a. dag_links go ls >>= λ b. ok (a.0 ++ b.0, a.1 + b.1)) e in
      let (b, ran', e'') = >>=-eq-ok (dag_links go ls) (λ b. ok (a.0 ++ b.0, a.1 + b.1)) e' in
      let same : a.0 ++ b.0 ≡ cs = cc in
      elim (Bool-cases (key_eq name i.name)) [
        | inl here ↦
            let eq : i ≡ l = ground (arith, here, h) in
            (
              a.0,
              a.1,
              ap (λ (z : Link). go z.cid) (sym eq) ∙ ran,
              λ x m. subst (Mem x) same (mem-append_left b.0 m),
            )
        | inr off ↦
            let (ds, j, ran'', all) =
              dag_links-find go name ls l b.0 b.1 ran' (ground (arith, off, h)) in
            (ds, j, ran'', λ x m. subst (Mem x) same (mem-append_right a.0 (all x m)))
      ]

  -- When `DAG` returns, its list has every node that `resolvePath` finds below the name.
  pub dag-resolve_parts :
      (depth : ℕ) (s : State) (c : Cid) (cs : List Cid) (n : ℕ) (parts : List Bytes) (m : Node)
      → dag env depth s c ≡ ok (cs, n)
      → resolve_parts env s c parts ≡ ok m
      → Mem m.block.cid cs
  unfolding dag resolve_parts
  dag-resolve_parts zero s c cs n parts m e h = cc
  dag-resolve_parts (suc f) s c cs n parts m e h =
      let (a, got, e') =
        >>=-eq-ok (fetch env s c)
          (λ m. dag_links (dag env f s) m.attr.links >>= λ b.
            ok (c ∷ b.0, length m.block.content + b.1))
          e in
      let (b, ran, e'') =
        >>=-eq-ok (dag_links (dag env f s) a.attr.links)
          (λ b. ok (c ∷ b.0, length a.block.content + b.1)) e' in
      let same : c ∷ b.0 ≡ cs = cc in
      go (λ l ps ds j u v. dag-resolve_parts f s l ds j ps m u v) a b got ran same parts h
    where
      go :
          ((l : Cid) (ps : List Bytes) (ds : List Cid) (j : ℕ)
            → dag env f s l ≡ ok (ds, j)
            → resolve_parts env s l ps ≡ ok m
            → Mem m.block.cid ds)
          → (a : Node) (b : List Cid × ℕ) → fetch env s c ≡ ok a
          → dag_links (dag env f s) a.attr.links ≡ ok b
          → c ∷ b.0 ≡ cs
          → (ps : List Bytes) → resolve_parts env s c ps ≡ ok m
          → Mem m.block.cid cs
      go below a b got ran same [] h =
          subst (λ z. Mem z cs) (sym (get_cid s c m h)) (subst (Mem c) same mem-cons_self)
      go below a b got ran same (name ∷ ps) h =
          let (a', l, got', found) = fetch_first env s c name ps m h in
          let eq : a' ≡ a = cc in
          let found' = sym (ap (λ (z : Node). find_link name z.attr.links) eq) ∙ found in
          let (ds, j, ran', all) =
            dag_links-find (dag env f s) name a.attr.links l b.0 b.1 ran found' in
          let on = sym (resolve_parts-some env s c name ps a' l got' found) ∙ h in
          subst (Mem m.block.cid) same
            (mem-cons_of_mem c (all m.block.cid (below l.cid ps ds j ran' on)))
