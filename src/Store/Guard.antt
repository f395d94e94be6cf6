-- ===== src/Store/Guard.antt =====
-- A store that does not replace a block by another content, to compare the store of store/ with.
use inu.Base.{
  ◌≡◌, ◌⊎◌, inl, inr, refl, sym, ap, subst, ◌∙◌, Bool, false, not, Option, none, some,
  if◌then◌else◌, ok, err, panic, out_of_fuel, ◌>>=◌, Bool-cases, Option-cases, arith,
}
use inu.Key.{key_eq}
use inu.Key.Number.{key_eq_iff, key_eq_refl}
use inu.Cid
use inu.Cid.{Bytes, Cid, Hashing}
use inu.Store.{Block, Error, Result, Db, IsDb, IsWritable, put, write_failed}
use inu.Store.Laws.{IsValid, Extends}

abbrev pub is_other : Option Bytes → Bytes → Bool
is_other none bytes = false
is_other (some old) bytes = not (key_eq old bytes)

-- The database, whose writes fail where they would replace a content by another one.
abbrev pub guarded : {State : Type 0} → Db State → Db State
guarded db = record db {
  replace = λ s c bytes. if is_other (db.select s c) bytes then none else db.replace s c bytes;
}

-- A guarded run that stops at a write, or two runs that return the same.
abbrev pub Outcome : {A : Type 0} → Result A → Result A → (A → Type 0) → Type 0
Outcome {A} guard run P =
    (guard ≡ err write_failed) ⊎ ((x : A) × (run ≡ ok x) × (guard ≡ ok x) × P x)

pub Outcome-bind :
    {A B : Type 0} (guard run : Result A) (P : A → Type 0) (k l : A → Result B) (Q : B → Type 0)
    → Outcome guard run P
    → ((x : A) → P x → Outcome (k x) (l x) Q)
    → Outcome (guard >>= k) (run >>= l) Q
Outcome-bind {B = B} guard run P k l Q (inl e) next = inl (ap (λ r. r >>= k) e)
Outcome-bind {B = B} guard run P k l Q (inr (x, e, g, p)) next = elim (next x p) [
  | inl h ↦ inl (ap (λ r. r >>= k) g ∙ h)
  | inr (y, e', g', q) ↦ inr (y, ap (λ r. r >>= l) e ∙ e', ap (λ r. r >>= k) g ∙ g', q)
]

pub Outcome-map :
    {A : Type 0} (guard run : Result A) (P Q : A → Type 0)
    → Outcome guard run P
    → ((x : A) → P x → Q x)
    → Outcome guard run Q
Outcome-map guard run P Q (inl e) f = inl e
Outcome-map guard run P Q (inr (x, e, g, p)) f = inr (x, e, g, f x p)

pub Outcome-ok : {A : Type 0} (x : A) (P : A → Type 0) → P x → Outcome (ok x) (ok x) P
Outcome-ok x P p = inr (x, refl, refl, p)

-- What a `Put` of a block leaves.
pub record Puts {State : Type 0} (h : Hashing) (db : Db State) (s : State) (b : Block) (s' : State)
    : Type 0 where
  pub valid : IsValid h db s'
  pub extends : Extends db s s'
  pub stored : db.select s' b.cid ≡ some b.content

module _ {State : Type 0} (h : Hashing) (db : Db State) (law : IsDb db) (w : IsWritable db) where
  -- `Put` of a block under the name of its content, into a database that does what its statements
  -- say and has room, whose blocks stand under their names: if it does not replace a block by another
  -- content, the block is stored, and all blocks stay and stand under their names.
  pub put_block :
      (s : State) (b : Block)
      → IsValid h db s
      → Cid.new h {E = Error} b.content ≡ ok b.cid
      → Outcome (put (guarded db) s b) (put db s b) (Puts h db s b)
  unfolding put
  put_block s b v name = elim (Option-cases (db.replace s b.cid b.content)) [
    | inl full ↦ absurd (w s b.cid b.content full)
    | inr (s', wrote) ↦
        let at = λ (j : Cid). law.select-replace s s' b.cid j b.content wrote in
        let valid : IsValid h db s' = record {
          named = λ c x e. ground (arith, at c, e, v.named c x, name, key_eq_iff b.cid c);
        } in
        elim (Option-cases (db.select s b.cid)) [
          | inl free ↦ inr (
            s',
            rw (wrote) refl,
            rw (free, wrote) refl,
            record {
              valid = valid;
              extends = record {
                keeps = λ c x e. ground (arith, at c, e, free, key_eq_iff b.cid c);
              };
              stored = rw (at b.cid, key_eq_refl b.cid) refl;
            },
          )
          | inr (old, e) ↦ elim (Bool-cases (key_eq old b.content)) [
            | inl same ↦ inr (
              s',
              rw (wrote) refl,
              rw (e, same, wrote) refl,
              record {
                valid = valid;
                extends = record {
                  keeps = λ c x g.
                      ground
                        (arith, at c, e, g, key_eq_iff b.cid c, key_eq_iff old b.content, same);
                };
                stored = rw (at b.cid, key_eq_refl b.cid) refl;
              },
            )
            | inr other ↦ inl (rw (e, other) refl)
          ]
        ]
  ]

-- The same for runs that may return an error: it is the same one, or the guarded run stops at a write.
abbrev pub Follows : {A : Type 0} → Result A → Result A → (A → Type 0) → Type 0
Follows {A} guard run P =
    (guard ≡ err write_failed) ⊎ ((guard ≡ run) × ((x : A) → run ≡ ok x → P x))

pub Follows_of_Outcome :
    {A : Type 0} (guard run : Result A) (P : A → Type 0) → Outcome guard run P → Follows guard run P
Follows_of_Outcome guard run P (inl e) = inl e
Follows_of_Outcome guard run P (inr (x, e, g, p)) =
    inr (g ∙ sym e, λ y h. let same : x ≡ y = cc in subst P same p)

pub Follows-bind :
    {A B : Type 0} (guard run : Result A) (P : A → Type 0) (k l : A → Result B) (Q : B → Type 0)
    → Follows guard run P
    → ((x : A) → P x → Follows (k x) (l x) Q)
    → Follows (guard >>= k) (run >>= l) Q
Follows-bind guard run P k l Q (inl e) next = inl (ap (λ r. r >>= k) e)
Follows-bind {A = A} {B = B} guard run P k l Q (inr (same, p)) next = go run same p
  where
    go : (r : Result A) → guard ≡ r → ((x : A) → r ≡ ok x → P x) → Follows (guard >>= k) (r >>= l) Q
    go panic g p = inr (ap (λ r. r >>= k) g, λ y h. cc)
    go out_of_fuel g p = inr (ap (λ r. r >>= k) g, λ y h. cc)
    go (err e) g p = inr (ap (λ r. r >>= k) g, λ y h. cc)
    go (ok x) g p = elim (next x (p x refl)) [
      | inl h ↦ inl (ap (λ r. r >>= k) g ∙ h)
      | inr (h, q) ↦ inr (ap (λ r. r >>= k) g ∙ h, q)
    ]

pub Follows_same :
    {A : Type 0} (run : Result A) (P : A → Type 0)
    → ((x : A) → run ≡ ok x → P x)
    → Follows run run P
Follows_same run P p = inr (refl, p)

pub Follows-map :
    {A : Type 0} (guard run : Result A) (P Q : A → Type 0)
    → Follows guard run P
    → ((x : A) → P x → Q x)
    → Follows guard run Q
Follows-map guard run P Q (inl e) f = inl e
Follows-map guard run P Q (inr (same, p)) f = inr (same, λ x e. f x (p x e))
