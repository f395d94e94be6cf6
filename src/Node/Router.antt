-- ===== src/Node/Router.antt =====
-- The routes of `router` in dht/node.go: which handler answers a request, and behind which checks. A path
-- is its parts between the slashes, none of them empty, as chi gives no empty part to a `{key}`.
pub mod Guarded
use inu.Base.{ℕ, Bool, true, false, List, [], ◌∷◌, ◌++◌, Option, none, some, if◌then◌else◌}
use inu.Key.{key_eq}
use inu.Http.{Text, Method, get, put, post}

-- The middleware but for the logger, and the handlers, with the key of the path.
pub data Check : Type 0 where
  upload_check swarm_check src_check : Check

pub data Handler : Type 0 where
  key_get key_put find_node find_peers : Text → Handler
  ping store : Handler

pub record Route : Type 0 where
  pub checks : List Check
  pub handler : Handler

-- "key", "rpc", "ping", "store", "find-node" and "find-peers"
abbrev pub key_part : Text
key_part = 107 ∷ 101 ∷ 121 ∷ []

abbrev pub rpc_part : Text
rpc_part = 114 ∷ 112 ∷ 99 ∷ []

abbrev pub ping_part : Text
ping_part = 112 ∷ 105 ∷ 110 ∷ 103 ∷ []

abbrev pub store_part : Text
store_part = 115 ∷ 116 ∷ 111 ∷ 114 ∷ 101 ∷ []

abbrev pub find_node_part : Text
find_node_part = 102 ∷ 105 ∷ 110 ∷ 100 ∷ 45 ∷ 110 ∷ 111 ∷ 100 ∷ 101 ∷ []

abbrev pub find_peers_part : Text
find_peers_part = 102 ∷ 105 ∷ 110 ∷ 100 ∷ 45 ∷ 112 ∷ 101 ∷ 101 ∷ 114 ∷ 115 ∷ []

-- The routes of `/key/{key}`; `none` is a route that is not there, or not with the method.
unfoldable pub key_route : Method → Text → Option Route
key_route get k = some (record { checks = []; handler = key_get k })
key_route put k = some (record { checks = upload_check ∷ []; handler = key_put k })
key_route post k = none

-- The handlers below `/rpc`, of one part and of two.
unfoldable pub rpc_call : Method → Text → Option Handler
rpc_call get a = if key_eq a ping_part then some ping else none
rpc_call post a = if key_eq a store_part then some store else none
rpc_call put a = none

unfoldable pub rpc_find : Method → Text → Text → Option Handler
rpc_find get a k =
    if key_eq a find_node_part
    then some (find_node k)
    else if key_eq a find_peers_part
    then some (find_peers k)
    else none
rpc_find post a k = none
rpc_find put a k = none

abbrev pub rpc_handler : Method → List Text → Option Handler
rpc_handler m [] = none
rpc_handler m (a ∷ []) = rpc_call m a
rpc_handler m (a ∷ k ∷ []) = rpc_find m a k
rpc_handler m (a ∷ k ∷ l ∷ parts) = none

-- `r.Use` of the two checks, in their order.
abbrev pub behind_checks : Option Handler → Option Route
behind_checks none = none
behind_checks (some h) = some (record { checks = swarm_check ∷ src_check ∷ []; handler = h })

abbrev pub key_routes : Method → List Text → Option Route
key_routes m [] = none
key_routes m (k ∷ []) = key_route m k
key_routes m (k ∷ l ∷ parts) = none

unfoldable pub router : Method → List Text → Option Route
unfolding key_route rpc_call rpc_find
router m [] = none
router m (a ∷ parts) =
    if key_eq a key_part
    then key_routes m parts
    else if key_eq a rpc_part
    then behind_checks (rpc_handler m parts)
    else none
