-- ===== src/Shortlist/Sorted.antt =====
-- The order of the list in `shortlist` of dht/node.go.
use inu.Base.{
  ℕ, zero, suc, ◌≤◌, ◌<◌, ◌≡◌, refl, ap, subst, true, false, List, [], ◌∷◌, ◌++◌, Option, some,
  none, All, All-map, All-append, length, take, drop, get_elem?, arith, pos, negsuc, Option-cases,
  inl, inr, ◌⊎◌,
}
use inu.Key.{Key, IsKey, xor, cmp}
use inu.Key.Distance.{distance, cmp-distance}
use inu.Contact.{Contact}
use inu.Shortlist.{is_at_or_after, search, search_rounds}
use inu.Shortlist.Search.{Found-search_rounds}

-- Nearest first; contacts at the same distance in any order.
abbrev pub Sorted : Key → List Contact → Type 0
Sorted t [] = Unit
Sorted t (c ∷ cs) = All (λ d. distance t c.id ≤ distance t d.id) cs × Sorted t cs

abbrev pub Keyed : Contact → Type 0
Keyed c = IsKey c.id

module _ {ℓ} (P : Contact → Type ℓ) where
  pub All-take : (i : ℕ) (cs : List Contact) → All P cs → All P (take i cs)
  All-take zero cs h = tt
  All-take (suc i) [] h = tt
  All-take (suc i) (c ∷ cs) h = (h.0, All-take i cs h.1)

  pub All-drop : (i : ℕ) (cs : List Contact) → All P cs → All P (drop i cs)
  All-drop zero cs h = h
  All-drop (suc i) [] h = tt
  All-drop (suc i) (c ∷ cs) h = All-drop i cs h.1

  pub All-get : (i : ℕ) (cs : List Contact) (d : Contact) → All P cs → get_elem? cs i ≡ some d → P d
  All-get i [] d h e = cc
  All-get zero (c ∷ cs) d h e = subst P (ground (arith, e)) h.0
  All-get (suc i) (c ∷ cs) d h e = All-get i cs d h.1 e

module _ (t : Key) where
  abbrev gap : Contact → ℕ
  gap c = distance t c.id

  pub before_lem :
      (i : ℕ) (cs : List Contact) (d : Contact) (n : ℕ)
      → Sorted t cs
      → get_elem? cs i ≡ some d
      → gap d < n
      → All (λ e. gap e < n) (take (suc i) cs)
  before_lem i [] d n s e h = tt
  before_lem zero (c ∷ cs) d n s e h = (ground (arith, e, h), tt)
  before_lem (suc i) (c ∷ cs) d n s e h =
      (omega (arith, All-get (λ z. gap c ≤ gap z) i cs d s.0 e, h), before_lem i cs d n s.1 e h)

  pub after_lem :
      (i : ℕ) (cs : List Contact) (d : Contact) (n : ℕ)
      → Sorted t cs
      → get_elem? cs i ≡ some d
      → n ≤ gap d
      → All (λ e. n ≤ gap e) (drop i cs)
  after_lem i [] d n s e h = cc
  after_lem zero (c ∷ cs) d n s e h =
      let same = ap {B = ℕ} (λ (o : Option Contact). elim o [ none ↦ 0 | some z ↦ gap z ]) e in
      (
        omega (arith, same, h),
        All-map (λ z. gap c ≤ gap z) (λ z. n ≤ gap z) (λ z g. omega (arith, same, h, g)) cs s.0,
      )
  after_lem (suc i) (c ∷ cs) d n s e h = after_lem i cs d n s.1 e h

  -- The list with the contact put between the entries before `i` and those from `i` on.
  pub Sorted-middle :
      (i : ℕ) (cs : List Contact) (c : Contact)
      → Sorted t cs
      → All (λ e. gap e < gap c) (take i cs)
      → All (λ e. gap c ≤ gap e) (drop i cs)
      → Sorted t (take i cs ++ (c ∷ drop i cs))
  Sorted-middle zero cs c s b a = (a, s)
  Sorted-middle (suc i) [] c s b a = (tt, tt)
  Sorted-middle (suc i) (d ∷ cs) c s b a = (
    All-append (λ e. gap d ≤ gap e) (take i cs) (c ∷ drop i cs)
        (All-take (λ e. gap d ≤ gap e) i cs s.0)
        (omega (arith, b.0), All-drop (λ e. gap d ≤ gap e) i cs s.0),
    Sorted-middle i cs c s.1 b.1 a,
  )

  pub Sorted-take : (i : ℕ) (cs : List Contact) → Sorted t cs → Sorted t (take i cs)
  Sorted-take zero cs s = tt
  Sorted-take (suc i) [] s = tt
  Sorted-take (suc i) (d ∷ cs) s = (All-take (λ e. gap d ≤ gap e) i cs s.0, Sorted-take i cs s.1)

  pub Sorted-cut :
      (i : ℕ) (cs : List Contact) → Sorted t cs → Sorted t (take i cs ++ drop (suc i) cs)
  Sorted-cut zero [] s = tt
  Sorted-cut zero (d ∷ cs) s = s.1
  Sorted-cut (suc i) [] s = tt
  Sorted-cut (suc i) (d ∷ cs) s = (
    All-append (λ e. gap d ≤ gap e) (take i cs) (drop (suc i) cs)
        (All-take (λ e. gap d ≤ gap e) i cs s.0) (All-drop (λ e. gap d ≤ gap e) (suc i) cs s.0),
    Sorted-cut i cs s.1,
  )

cmp-cases : (a b : Key) → (cmp a b ≡ pos 0) ⊎ ((cmp a b ≡ pos 1) ⊎ (cmp a b ≡ negsuc 0))
unfolding cmp
cmp-cases [] b = inl refl
cmp-cases (x ∷ a) [] = inl refl
cmp-cases (x ∷ a) (y ∷ b) = ground (arith, cmp-cases a b)

get_elem?-lt : (i : ℕ) (cs : List Contact) (d : Contact) → get_elem? cs i ≡ some d → i < length cs
get_elem?-lt i [] d e = cc
get_elem?-lt zero (c ∷ cs) d e = omega arith
get_elem?-lt (suc i) (c ∷ cs) d e = omega (arith, get_elem?-lt i cs d e)

-- Where the search stops: what is before is nearer, and what is from there on is not.
pub record Place (t : Key) (cs : List Contact) (c : Contact) (i : ℕ) : Type 0 where
  pub inside : i ≤ length cs
  pub before : All (λ d. distance t d.id < distance t c.id) (take i cs)
  pub after : All (λ d. distance t c.id ≤ distance t d.id) (drop i cs)

module _ (t : Key) (cs : List Contact) (c : Contact) (kt : IsKey t) (kc : IsKey c.id)
    (ks : All Keyed cs) where
  nearer :
      (i : ℕ) (d : Contact)
      → get_elem? cs i ≡ some d
      → is_at_or_after t c cs i ≡ false
      → distance t d.id < distance t c.id
  unfolding is_at_or_after
  nearer i d e h = ground (
    arith,
    e,
    h,
    cmp-cases (xor t d.id) (xor t c.id),
    cmp-distance t d.id c.id kt (All-get Keyed i cs d ks e) kc,
  )

  not_nearer :
      (i : ℕ) (d : Contact)
      → get_elem? cs i ≡ some d
      → is_at_or_after t c cs i ≡ true
      → distance t c.id ≤ distance t d.id
  unfolding is_at_or_after
  not_nearer i d e h = ground (
    arith,
    e,
    h,
    cmp-cases (xor t d.id) (xor t c.id),
    cmp-distance t d.id c.id kt (All-get Keyed i cs d ks e) kc,
  )

  past_end : (i : ℕ) → get_elem? cs i ≡ none → is_at_or_after t c cs i ≡ true
  unfolding is_at_or_after
  past_end i e = rw (e, is_at_or_after)

  drop-nil : (i : ℕ) (ds : List Contact) → get_elem? ds i ≡ none → drop i ds ≡ []
  drop-nil zero [] e = refl
  drop-nil (suc i) [] e = refl
  drop-nil zero (d ∷ ds) e = cc
  drop-nil (suc i) (d ∷ ds) e = drop-nil i ds e

  -- On a sorted list the search stops at the contact's place.
  pub Place-search : Sorted t cs → Place t cs c (search t cs c)
  unfolding search
  Place-search s =
      let found =
        Found-search_rounds (length cs) (is_at_or_after t c cs) 0 (length cs) (omega arith)
          (omega arith) in
      let i = search_rounds (length cs) (is_at_or_after t c cs) 0 (length cs) in
      record { inside = found.high; before = ahead i found.before; after = behind i found.here }
    where
      ahead :
          (i : ℕ)
          → (i ≡ 0) ⊎ ((p : ℕ) × (i ≡ suc p) × (is_at_or_after t c cs p ≡ false))
          → All (λ d. distance t d.id < distance t c.id) (take i cs)
      ahead i (inl e) = rw e tt
      ahead i (inr (p, e, h)) = elim (Option-cases (get_elem? cs p)) [
        | inl out ↦ absurd (ground (arith, past_end p out, h))
        | inr (d, at) ↦ rw e (before_lem t p cs d (distance t c.id) s at (nearer p d at h))
      ]

      behind :
          (i : ℕ)
          → (i ≡ length cs) ⊎ (is_at_or_after t c cs i ≡ true)
          → All (λ d. distance t c.id ≤ distance t d.id) (drop i cs)
      behind i h = elim (Option-cases (get_elem? cs i)) [
        | inl out ↦ rw (drop-nil i cs out) tt
        | inr (d, at) ↦ elim h [
          | inl e ↦ absurd (omega (arith, get_elem?-lt i cs d at, e))
          | inr w ↦ after_lem t i cs d (distance t c.id) s at (not_nearer i d at w)
        ]
      ]
