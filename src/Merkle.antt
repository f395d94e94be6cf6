-- ===== src/Merkle.antt =====
-- merkle/: nodes of a directed graph, linked by the names of their blocks. JSON is a parameter.

use inu.Base.{List, [], ◌∷◌, ◌++◌, Option, none, some, ok, err, ◌>>=◌, All, ◌<◌}
use inu.Cid.{Bytes, Cid, Hashing}
use inu.Store.{Block, Result, bad_json, new_block}

pub record Link : Type 0 where
  pub name : Bytes
  pub cid : Cid

pub record Attributes : Type 0 where
  pub links : List Link
  pub content : Bytes

pub record Node : Type 0 where
  pub attr : Attributes
  pub block : Block

-- `json.Marshal` and `json.Unmarshal` of attributes.
pub record NodeJson : Type 0 where
  pub marshal : Attributes → Bytes
  pub unmarshal : Bytes → Option Attributes

unfoldable pub parse_block : NodeJson → Block → Result Node
parse_block j b = elim (j.unmarshal b.content) [
  | none ↦ err bad_json
  | some a ↦ ok (record { attr = a; block = b })
]

-- A builder is its attributes; `empty` is a new or a reset one.
abbrev pub empty : Attributes
empty = record { links = []; content = [] }

abbrev pub set_data : Bytes → Attributes → Attributes
set_data bytes a = record a { content = bytes }

abbrev pub add_link : Bytes → Node → Attributes → Attributes
add_link name n a = record a { links = a.links ++ (record { name = name; cid = n.block.cid } ∷ []) }

unfoldable pub build : Hashing → NodeJson → Attributes → Result Node
unfolding new_block
build h j a = do b ← new_block h (j.marshal a); ok (record { attr = a; block = b })

-- Text that JSON keeps as it is.
abbrev pub IsPlain : Attributes → Type 0
IsPlain a = All (λ l. All (λ c. c < 128) l.name × All (λ c. c < 128) l.cid) a.links
