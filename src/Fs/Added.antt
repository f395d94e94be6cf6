-- ===== src/Fs/Added.antt =====
-- `AddBytes` of fs/fs.go, and `ReadBytes` of what it added.
use inu.Base.{
  ℕ, zero, suc, ◌+◌, ◌≤◌, ◌<◌, ◌≡◌, refl, sym, ap, subst, ◌∙◌, List, [], ◌∷◌, ◌++◌, length,
  length-append, none, some, All, ok, arith, Option-cases, inl, inr,
}
use mathlib.Core.List.{append-nil}
use inu.Cid.{Bytes, IsText}
use inu.Store.Laws.{IsValid, Extends, Extends-refl, Extends-trans}
use inu.Store.Guard.{Outcome, Outcome-bind, Outcome-map, Outcome-ok}
use inu.Merkle.{Node, parse_block}
use inu.Fs.{
  Env, num_children, chunk_size, single, read_bytes, add_leaves, add_parents, build_dag_level,
  add_bytes,
}
use inu.Fs.Chunks.{joined, Fits, chunks_lem, Fits-length, Fits-some}
use inu.Fs.Contents.{
  IsEnv, content_of, contents, Good, Good-Extends, All-Good-Extends, content_of-Extends,
  contents-Extends, contents-append, read_bytes_mono,
}
use inu.Fs.Nodes.{guarded_env, Adds, add_leaf_lem, add_parent_lem}

All-front {ℓ κ} : {A : Type ℓ} (P : A → Type κ) (xs ys : List A) → All P (xs ++ ys) → All P xs
All-front P [] ys h = tt
All-front P (x ∷ xs) ys h = (h.0, All-front P xs ys h.1)

All-back {ℓ κ} : {A : Type ℓ} (P : A → Type κ) (xs ys : List A) → All P (xs ++ ys) → All P ys
All-back P [] ys h = h
All-back P (x ∷ xs) ys h = All-back P xs ys h.1

-- Each chunk is at most as large as the size, and none is empty when there is anything.
abbrev IsGroup {ℓ} : {A : Type ℓ} → ℕ → List A → Type 0
IsGroup size g = (0 < length g) × (length g ≤ size)

Fits-small {ℓ} :
    {A : Type ℓ} (size : ℕ) (cs : List (List A)) → Fits size cs → All (λ c. length c ≤ size) cs
Fits-small size [] f = tt
Fits-small size (c ∷ []) f = (f, tt)
Fits-small size (c ∷ d ∷ cs) f = (omega (arith, f.0), Fits-small size (d ∷ cs) f.2)

Fits-groups {ℓ} :
    {A : Type ℓ} (size : ℕ) (cs : List (List A))
    → 0 < size
    → 0 < length (joined cs)
    → Fits size cs
    → All (IsGroup size) cs
unfolding joined
Fits-groups size [] p h f = tt
Fits-groups size (c ∷ []) p h f = ((omega (arith, h, length-append c []), f), tt)
Fits-groups size (c ∷ d ∷ cs) p h f =
    ((omega (arith, f.0), omega (arith, f.0)), Fits-groups size (d ∷ cs) p f.1 f.2)

single-some : (ns : List Node) (n : Node) → single ns ≡ some n → ns ≡ n ∷ []
unfolding single
single-some [] n e = cc
single-some (m ∷ []) n e = cc
single-some (m ∷ k ∷ ns) n e = cc

single-none : (ns : List Node) → single ns ≡ none → 0 < length ns → 2 ≤ length ns
unfolding single
single-none [] e h = absurd (omega arith)
single-none (m ∷ []) e h = cc
single-none (m ∷ k ∷ ns) e h = omega arith

module _ {State : Type 0} (env : Env State) (law : IsEnv env) where
  -- Nodes that were added, and read as `d` one after the other.
  record AddsAll (f : ℕ) (s : State) (d : Bytes) (k : ℕ) (ns : List Node) (s' : State)
      : Type 0 where
    valid : IsValid env.hashing env.db s'
    extends : Extends env.db s s'
    good : All (Good env f s') ns
    content : contents env f s' ns ≡ d
    count : length ns ≡ k

  AddsAll-nil : (f : ℕ) (s : State) → IsValid env.hashing env.db s → AddsAll f s [] 0 [] s
  AddsAll-nil f s v = record {
    valid = v;
    extends = Extends-refl env.db s;
    good = tt;
    content = refl;
    count = refl;
  }

  AddsAll-cons :
      (f : ℕ) (s s' s'' : State) (c d : Bytes) (k : ℕ) (n : Node) (ns : List Node)
      → Adds env law f s c n s'
      → AddsAll f s' d k ns s''
      → AddsAll f s (c ++ d) (suc k) (n ∷ ns) s''
  AddsAll-cons f s s' s'' c d k n ns a b = record {
    valid = b.valid;
    extends = Extends-trans env.db s s' s'' a.extends b.extends;
    good = (Good-Extends env s' s'' b.extends f n a.good, b.good);
    content = rw (content_of-Extends env s' s'' b.extends f n a.good, a.content, b.content) refl;
    count = ap suc b.count;
  }

  add_leaves_lem :
      (cs : List Bytes) (s : State)
      → IsValid env.hashing env.db s
      → All (λ c. length c ≤ chunk_size) cs
      → Outcome
          (add_leaves (guarded_env env) s cs)
          (add_leaves env s cs)
          (λ r. AddsAll 1 s (joined cs) (length cs) r.0 r.1)
  unfolding add_leaves joined
  add_leaves_lem [] s v h = Outcome-ok ([], s) (λ r. AddsAll 1 s [] 0 r.0 r.1) (AddsAll-nil 1 s v)
  add_leaves_lem (c ∷ cs) s v h =
      Outcome-bind _ _ (λ r. Adds env law 1 s c r.0 r.1) _ _ _ (add_leaf_lem env law s c v h.0)
        λ (n, s') a.
          Outcome-bind _ _ (λ r. AddsAll 1 s' (joined cs) (length cs) r.0 r.1) _ _ _
            (add_leaves_lem cs s' a.valid h.1)
            λ (ns, s'') b.
              Outcome-ok (n ∷ ns, s'') _
                (AddsAll-cons 1 s s' s'' c (joined cs) (length cs) n ns a b)

  add_parents_lem :
      (f : ℕ) (gs : List (List Node)) (s : State)
      → IsValid env.hashing env.db s
      → All (Good env f s) (joined gs)
      → All (IsGroup num_children) gs
      → Outcome
          (add_parents (guarded_env env) s gs)
          (add_parents env s gs)
          (λ r. AddsAll (suc f) s (contents env f s (joined gs)) (length gs) r.0 r.1)
  unfolding add_parents joined
  add_parents_lem f [] s v good h =
      Outcome-ok ([], s) (λ r. AddsAll (suc f) s [] 0 r.0 r.1) (AddsAll-nil (suc f) s v)
  add_parents_lem f (g ∷ gs) s v good h =
      let front = All-front (Good env f s) g (joined gs) good in
      let back = All-back (Good env f s) g (joined gs) good in
      Outcome-bind _ _ (λ r. Adds env law (suc f) s (contents env f s g) r.0 r.1) _ _ _
        (add_parent_lem env law f s g v front h.0.0 h.0.1)
        λ (p, s') a.
          Outcome-bind _ _
            (λ r. AddsAll (suc f) s' (contents env f s' (joined gs)) (length gs) r.0 r.1) _ _ _
            (add_parents_lem f gs s' a.valid
              (All-Good-Extends env s s' a.extends f (joined gs) back) h.1)
            λ (ps, s'') b.
              let all =
                AddsAll-cons (suc f) s s' s'' (contents env f s g) (contents env f s' (joined gs))
                  (length gs) p ps a b in
              let same : contents env f s g ++ contents env f s' (joined gs)
                  ≡ contents env f s (g ++ joined gs) =
                rw (contents-Extends env s s' a.extends f (joined gs) back)
                  (sym (contents-append env f s g (joined gs))) in
              Outcome-ok (p ∷ ps, s'') _
                (subst (λ d. AddsAll (suc f) s d (suc (length gs)) (p ∷ ps) s'') same all)

  -- What is added reads as the bytes at every depth from `k` on.
  pub record Added (s : State) (d : Bytes) (k : ℕ) (n : Node) (s' : State) : Type 0 where
    pub valid : IsValid env.hashing env.db s'
    pub extends : Extends env.db s s'
    pub stored : env.db.select s' n.block.cid ≡ some n.block.content
    pub text : IsText n.block.cid
    pub parses : parse_block env.nodes n.block ≡ ok n
    pub reads : (depth : ℕ) → k ≤ depth → read_bytes env depth s' n ≡ ok d

  Added-single :
      (f : ℕ) (s s' : State) (d : Bytes) (k m : ℕ) (n : Node) (ns : List Node)
      → ns ≡ n ∷ []
      → AddsAll f s d k ns s'
      → f ≤ m
      → Added s d m n s'
  Added-single f s s' d k m n ns e a h =
      let good : Good env f s' n = (subst (All (Good env f s')) e a.good).0 in
      let whole : content_of env f s' n ≡ d =
        sym (append-nil (content_of env f s' n)) ∙ sym (ap (contents env f s') e) ∙ a.content in
      record {
        valid = a.valid;
        extends = a.extends;
        stored = good.stored;
        text = good.text;
        parses = good.parses;
        reads = λ depth g.
            read_bytes_mono env f depth s' n d (omega (arith, g, h)) (good.reads ∙ ap ok whole);
      }

  Added-after :
      (s s' s'' : State) (c d : Bytes) (k m : ℕ) (n : Node)
      → Extends env.db s s'
      → c ≡ d
      → k ≤ m
      → Added s' c k n s''
      → Added s d m n s''
  Added-after s s' s'' c d k m n x e h a = record {
    valid = a.valid;
    extends = Extends-trans env.db s s' s'' x a.extends;
    stored = a.stored;
    text = a.text;
    parses = a.parses;
    reads = λ depth g. a.reads depth (omega (arith, g, h)) ∙ ap ok e;
  }

  build_dag_level_lem :
      (fuel f : ℕ) (gs : List (List Node)) (ns : List Node) (s : State)
      → IsValid env.hashing env.db s
      → joined gs ≡ ns
      → Fits num_children gs
      → 0 < length ns
      → All (Good env f s) ns
      → length gs ≤ fuel
      → Outcome
          (build_dag_level (guarded_env env) fuel s gs)
          (build_dag_level env fuel s gs)
          (λ r. Added s (contents env f s ns) (f + fuel) r.0 r.1)
  unfolding build_dag_level
  build_dag_level_lem zero f gs ns s v e fits h good enough =
      absurd (omega (arith, Fits-some num_children gs fits))
  build_dag_level_lem (suc fuel) f gs ns s v e fits h good enough =
      let groups = Fits-groups num_children gs (omega arith) (omega (arith, ap length e, h)) fits in
      let same : contents env f s (joined gs) ≡ contents env f s ns = ap (contents env f s) e in
      Outcome-bind _ _ (λ r. AddsAll (suc f) s (contents env f s (joined gs)) (length gs) r.0 r.1) _
        _ _ (add_parents_lem f gs s v (subst (All (Good env f s)) (sym e) good) groups)
        λ (ps, s') a. elim (Option-cases (single ps)) [
          | inr (p, one) ↦
              let done =
                Added-single (suc f) s s' (contents env f s (joined gs)) (length gs) (f + suc fuel)
                  p ps (single-some ps p one) a (omega arith) in
              rw (one) (
                Outcome-ok (p, s') (λ r. Added s (contents env f s ns) (f + suc fuel) r.0 r.1)
                  (subst (λ d. Added s d (f + suc fuel) p s') same done))
          | inl many ↦
              let two =
                single-none ps many (omega (arith, a.count, Fits-some num_children gs fits)) in
              let (gs', cut, whole, fits') = chunks_lem ps num_children (omega arith) in
              let less : length gs' ≤ fuel =
                elim (Fits-length num_children gs' (omega arith) fits') [
                  | inl l ↦ omega (arith, l, two, a.count, enough)
                  | inr l ↦ omega (arith, l, ap length whole, a.count, enough)
                ] in
              rw (many, cut)
                (Outcome-map _ _ _ (λ r. Added s (contents env f s ns) (f + suc fuel) r.0 r.1)
                  (build_dag_level_lem fuel (suc f) gs' ps s' a.valid whole fits'
                    (omega (arith, two)) a.good less)
                  λ (n, s'') b.
                    Added-after s s' s'' (contents env (suc f) s' ps) (contents env f s ns)
                      (suc f + fuel) (f + suc fuel) n a.extends (a.content ∙ same) (omega arith) b)
        ]

  -- `AddBytes`, into a store whose blocks stand under their names, with a hash that gives 32 bytes, a
  -- database with room that does what it is told and JSON that reads back what it wrote: if no write
  -- replaces a block by another content, it returns a node, within as many levels as there are chunks.
  -- The node is stored, every block that was there stays, and `ReadBytes` of the node returns the
  -- bytes, at every depth from two more than their number on.
  pub add_bytes_lem :
      (s : State) (d : Bytes)
      → IsValid env.hashing env.db s
      → Outcome
          (add_bytes (guarded_env env) s d)
          (add_bytes env s d)
          (λ r. Added s d (length d + 2) r.0 r.1)
  unfolding add_bytes
  add_bytes_lem s d v =
      let (cs, cut, whole, fits) = chunks_lem d chunk_size (omega arith) in
      let few : length cs ≤ length d + 1 = elim (Fits-length chunk_size cs (omega arith) fits) [
        | inl l ↦ omega (arith, l)
        | inr l ↦ omega (arith, l, ap length whole)
      ] in
      rw (cut) (
        Outcome-bind _ _ (λ r. AddsAll 1 s (joined cs) (length cs) r.0 r.1) _ _ _
          (add_leaves_lem cs s v (Fits-small chunk_size cs fits))
          λ (ns, s') a. elim (Option-cases (single ns)) [
            | inr (n, one) ↦
                let done =
                  Added-single 1 s s' (joined cs) (length cs) (length d + 2) n ns
                    (single-some ns n one) a (omega arith) in
                rw (one) (
                  Outcome-ok (n, s') (λ r. Added s d (length d + 2) r.0 r.1)
                    (subst (λ z. Added s z (length d + 2) n s') whole done))
            | inl many ↦
                let two =
                  single-none ns many (omega (arith, a.count, Fits-some chunk_size cs fits)) in
                let (gs, cut', whole', fits') = chunks_lem ns num_children (omega arith) in
                let less : length gs ≤ length ns =
                  elim (Fits-length num_children gs (omega arith) fits') [
                    | inl l ↦ omega (arith, l, two)
                    | inr l ↦ omega (arith, l, ap length whole')
                  ] in
                rw (many, cut')
                  (Outcome-map _ _ _ (λ r. Added s d (length d + 2) r.0 r.1)
                    (build_dag_level_lem (length ns) 1 gs ns s' a.valid whole' fits'
                      (omega (arith, two)) a.good less)
                    λ (n, s'') b.
                      Added-after s s' s'' (contents env 1 s' ns) d (1 + length ns) (length d + 2) n
                        a.extends (a.content ∙ whole) (omega (arith, few, a.count)) b)
          ])
