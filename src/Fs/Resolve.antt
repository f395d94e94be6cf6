-- ===== src/Fs/Resolve.antt =====
-- `resolvePath` of fs/fs.go, a step at a time, and the paths that `strings.Split` takes apart.
use inu.Base.{
  ◌≡◌, refl, sym, ap, ◌∙◌, false, List, [], ◌∷◌, ◌++◌, ◌==◌, All, none, some, ok, err, ◌>>=◌,
  >>=-eq-ok, arith, Option-cases, inl, inr,
}
use inu.Cid.{Bytes, Cid, IsText}
use inu.Store.{invalid_path}
use inu.Store.Laws.{Extends}
use inu.Merkle.{Link, Node}
use inu.Fs.{Env, fetch, find_link, link_cid, resolve_parts, resolve_path, split}
use inu.Fs.Contents.{fetch-Extends}

-- A name without a separator.
abbrev pub IsName : Bytes → Type 0
IsName = All (λ c. (c == 47) ≡ false)

pub split-name : (name : Bytes) → IsName name → split name ≡ name ∷ []
unfolding split
split-name [] h = refl
split-name (c ∷ name) h = rw (split-name name h.1, h.0, split) refl

pub split-append :
    (name rest : Bytes) → IsName name → split (name ++ (47 ∷ rest)) ≡ name ∷ split rest
unfolding split
split-append [] rest h = refl
split-append (c ∷ name) rest h = rw (split-append name rest h.1, h.0, split) refl

pub text-IsName : (c : Cid) → IsText c → IsName c
text-IsName [] h = tt
text-IsName (x ∷ c) h = (ground (arith, h.0), text-IsName c h.1)

-- The path with the names behind its first part.
abbrev pub path_of : Bytes → List Bytes → Bytes
path_of c [] = c
path_of c (name ∷ names) = c ++ (47 ∷ path_of name names)

pub split-path_of :
    (c : Bytes) (names : List Bytes)
    → IsName c
    → All IsName names
    → split (path_of c names) ≡ c ∷ names
split-path_of c [] h g = split-name c h
split-path_of c (name ∷ names) h g =
    split-append c (path_of name names) h ∙ ap (◌∷◌ c) (split-path_of name names g.0 g.1)

module _ {State : Type 0} (env : Env State) where
  pub resolve_path-path_of :
      (s : State) (c : Cid) (names : List Bytes)
      → IsName c
      → All IsName names
      → resolve_path env s (path_of c names) ≡ resolve_parts env s c names
  unfolding resolve_path
  resolve_path-path_of s c names h g = rw (split-path_of c names h g, resolve_path) refl

  pub resolve_parts-some :
      (s : State) (c : Cid) (name : Bytes) (parts : List Bytes) (m : Node) (l : Link)
      → fetch env s c ≡ ok m
      → find_link name m.attr.links ≡ some l
      → resolve_parts env s c (name ∷ parts) ≡ resolve_parts env s l.cid parts
  unfolding resolve_parts
  resolve_parts-some s c name parts m l e h = rw (e, h) refl

  pub resolve_parts-none :
      (s : State) (c : Cid) (name : Bytes) (parts : List Bytes) (m : Node)
      → fetch env s c ≡ ok m
      → find_link name m.attr.links ≡ none
      → resolve_parts env s c (name ∷ parts) ≡ err invalid_path
  unfolding resolve_parts
  resolve_parts-none s c name parts m e h = rw (e, h) refl

  -- A path with names goes on from a link of the first node.
  pub fetch_first :
      (s : State) (c : Cid) (name : Bytes) (parts : List Bytes) (m : Node)
      → resolve_parts env s c (name ∷ parts) ≡ ok m
      → (n : Node) × (l : Link) × (fetch env s c ≡ ok n) × (find_link name n.attr.links ≡ some l)
  unfolding resolve_parts
  fetch_first s c name parts m e =
      let (n, got, e') =
        >>=-eq-ok (fetch env s c)
          (λ n. link_cid (find_link name n.attr.links) >>= λ child. resolve_parts env s child parts)
          e in
      elim (Option-cases (find_link name n.attr.links)) [
        | inl none_found ↦
            absurd (ground (arith, sym (resolve_parts-none s c name parts n got none_found) ∙ e))
        | inr (l, found) ↦ (n, l, got, found)
      ]

  -- What a path leads to is still there in a larger store.
  pub resolve_parts-Extends :
      (s s' : State) (c : Cid) (parts : List Bytes) (m : Node)
      → Extends env.db s s'
      → resolve_parts env s c parts ≡ ok m
      → resolve_parts env s' c parts ≡ ok m
  unfolding resolve_parts
  resolve_parts-Extends s s' c [] m x e = fetch-Extends env s s' x c m e
  resolve_parts-Extends s s' c (name ∷ parts) m x e =
      let (n, l, got, found) = fetch_first s c name parts m e in
      let below = sym (resolve_parts-some s c name parts n l got found) ∙ e in
      resolve_parts-some s' c name parts n l (fetch-Extends env s s' x c n got) found
      ∙ resolve_parts-Extends s s' l.cid parts m x below
