-- ===== src/Store.antt =====
-- store/: blocks, and the table of blocks of a SQLite database. The database is a parameter: what
-- it answers, and the state that it leaves.
pub mod Laws
pub mod Guard
use inu.Base.{
  ℕ, ◌*◌, ◌≡◌, ◌≢◌, Bool, true, false, List, Option, none, some, length, ltb, if◌then◌else◌, Run,
  ok, err, ◌>>=◌,
}
use inu.Key.{key_eq}
use inu.Cid
use inu.Cid.{Bytes, Cid, Hashing}

abbrev pub max_block_size : ℕ
max_block_size = 5 * 1024 * 1024

pub record Block : Type 0 where
  pub cid : Cid
  pub content : Bytes

-- The errors of the packages that stand on the store.
pub data Error : Type 0 where
  too_large not_found write_failed bad_json bad_inode is_directory invalid_path read_failed : Error

abbrev pub Result {ℓ} : Type ℓ → Type ℓ
Result = Run Error

unfoldable pub new_block : Hashing → Bytes → Result Block
unfolding Cid.new
new_block h bytes =
    if ltb max_block_size (length bytes)
    then err too_large
    else (do c ← Cid.new h bytes; ok (record { cid = c; content = bytes }))

-- `Valid`
unfoldable pub valid : Hashing → Block → Result Bool
unfolding Cid.new
valid h b = do c ← Cid.new h b.content; ok (key_eq c b.cid)

-- The statements on the table `blocks`, by its primary key. `none` is no row, and for a write a
-- failure of the database.
pub record Db (State : Type 0) : Type 0 where
  pub select : State → Cid → Option Bytes
  pub replace : State → Cid → Bytes → Option State
  pub erase : State → Cid → Option State
  pub count : State → ℕ

-- What `Exec` of a write returns.
abbrev pub written : {State : Type 0} → Option State → Result State
written none = err write_failed
written (some s) = ok s

module _ {State : Type 0} (db : Db State) where
  unfoldable pub get : State → Cid → Result Block
  get s c = elim (db.select s c) [
    | none ↦ err not_found
    | some bytes ↦ ok (record { cid = c; content = bytes })
  ]

  unfoldable pub put : State → Block → Result State
  put s b = written (db.replace s b.cid b.content)

  unfoldable pub delete : State → Cid → Result State
  delete s c = written (db.erase s c)

  abbrev pub size : State → ℕ
  size s = db.count s

-- What the code relies on of the database: a write that does not fail does what its statement says.
pub record IsDb {State : Type 0} (db : Db State) : Type 0 where
  pub select-replace :
      (s s' : State) (c j : Cid) (bytes : Bytes)
      → db.replace s c bytes ≡ some s'
      → db.select s' j ≡ (if key_eq c j then some bytes else db.select s j)
  pub select-erase :
      (s s' : State) (c j : Cid)
      → db.erase s c ≡ some s'
      → db.select s' j ≡ (if key_eq c j then none else db.select s j)

-- No write fails.
abbrev pub IsWritable : {State : Type 0} → Db State → Type 0
IsWritable {State} db = (s : State) (c : Cid) (bytes : Bytes) → db.replace s c bytes ≢ none
