-- ===== src/Store/Laws.antt =====
-- What store/ keeps: each block stands under the name of its bytes.
use inu.Base.{◌≡◌, some, ok, arith}
use inu.Cid
use inu.Cid.{Bytes, Cid, Hashing, IsHashing}
use inu.Store.{Error, Db}

-- Each stored content has the name that it stands under.
pub record IsValid {State : Type 0} (h : Hashing) (db : Db State) (s : State) : Type 0 where
  pub named : (c : Cid) (x : Bytes) → db.select s c ≡ some x → Cid.new h {E = Error} x ≡ ok c

-- What is stored stays.
pub record Extends {State : Type 0} (db : Db State) (s s' : State) : Type 0 where
  pub keeps : (c : Cid) (x : Bytes) → db.select s c ≡ some x → db.select s' c ≡ some x

pub Extends-refl : {State : Type 0} (db : Db State) (s : State) → Extends db s s
Extends-refl db s = record { keeps = λ c x e. e }

pub Extends-trans :
    {State : Type 0} (db : Db State) (s t u : State)
    → Extends db s t
    → Extends db t u
    → Extends db s u
Extends-trans db s t u a b = record { keeps = λ c x e. b.keeps c x (a.keeps c x e) }

pub Cid-new_ok :
    (h : Hashing) (x : Bytes)
    → IsHashing h
    → Cid.new h {E = Error} x ≡ ok (h.base32.encode (h.sha256 x))
unfolding Cid.new
Cid-new_ok h x l = ground (arith, l.length-sha256 x)
