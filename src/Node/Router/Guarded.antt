-- ===== src/Node/Router/Guarded.antt =====
-- Which requests of dht/node.go reach a handler, and behind what.
use inu.Base.{◌≡◌, refl, Bool, true, false, List, [], ◌∷◌, Option, none, some, if◌then◌else◌}
use inu.Key.{key_eq}
use inu.Http.{Text, Method, get, put, post}
use inu.Node.Router.{
  Check, upload_check, swarm_check, src_check, Handler, key_get, key_put, find_node, find_peers,
  ping, store, Route, key_part, rpc_part, ping_part, store_part, find_node_part, find_peers_part,
  key_route, rpc_call, rpc_find, rpc_handler, behind_checks, key_routes, router,
}

-- The checks that a handler needs: the ones between nodes need the swarm key and then the source, the
-- announcement of a peer needs the upload key, and the search of peers needs nothing.
abbrev needs : Handler → List Check
needs (key_get k) = []
needs (key_put k) = upload_check ∷ []
needs (find_node k) = swarm_check ∷ src_check ∷ []
needs (find_peers k) = swarm_check ∷ src_check ∷ []
needs ping = swarm_check ∷ src_check ∷ []
needs store = swarm_check ∷ src_check ∷ []

pub IsGuarded : Option Route → Type 0
IsGuarded none = Unit
IsGuarded (some r) = r.checks ≡ needs r.handler

either-IsGuarded :
    (b : Bool) (r q : Option Route) → IsGuarded r → IsGuarded q → IsGuarded (if b then r else q)
either-IsGuarded true r q h g = h
either-IsGuarded false r q h g = g

rpc_either :
    (b : Bool) (r q : Option Handler)
    → IsGuarded (behind_checks r)
    → IsGuarded (behind_checks q)
    → IsGuarded (behind_checks (if b then r else q))
rpc_either true r q h g = h
rpc_either false r q h g = g

key_route-IsGuarded : (m : Method) (k : Text) → IsGuarded (key_route m k)
unfolding key_route IsGuarded
key_route-IsGuarded get k = refl
key_route-IsGuarded put k = refl
key_route-IsGuarded post k = tt

rpc_handler-IsGuarded :
    (m : Method) (parts : List Text) → IsGuarded (behind_checks (rpc_handler m parts))
unfolding rpc_call rpc_find IsGuarded
rpc_handler-IsGuarded m [] = tt
rpc_handler-IsGuarded get (a ∷ []) = rpc_either (key_eq a ping_part) (some ping) none refl tt
rpc_handler-IsGuarded post (a ∷ []) = rpc_either (key_eq a store_part) (some store) none refl tt
rpc_handler-IsGuarded put (a ∷ []) = tt
rpc_handler-IsGuarded get (a ∷ k ∷ []) =
    rpc_either (key_eq a find_node_part) (some (find_node k)) _ refl
      (rpc_either (key_eq a find_peers_part) (some (find_peers k)) none refl tt)
rpc_handler-IsGuarded post (a ∷ k ∷ []) = tt
rpc_handler-IsGuarded put (a ∷ k ∷ []) = tt
rpc_handler-IsGuarded m (a ∷ k ∷ l ∷ parts) = tt

key_routes-IsGuarded : (m : Method) (parts : List Text) → IsGuarded (key_routes m parts)
unfolding IsGuarded
key_routes-IsGuarded m [] = tt
key_routes-IsGuarded m (k ∷ []) = key_route-IsGuarded m k
key_routes-IsGuarded m (k ∷ l ∷ parts) = tt

guarded : (m : Method) (parts : List Text) → IsGuarded (router m parts)
unfolding router IsGuarded
guarded m [] = tt
guarded m (a ∷ parts) =
    either-IsGuarded (key_eq a key_part) (key_routes m parts) _ (key_routes-IsGuarded m parts) (
      either-IsGuarded (key_eq a rpc_part) (behind_checks (rpc_handler m parts)) none
        (rpc_handler-IsGuarded m parts) tt)

abbrev route_of : Handler → Route
route_of h = record { checks = needs h; handler = h }

reached : (h : Handler) → (m : Method) × (parts : List Text) × (router m parts ≡ some (route_of h))
unfolding router key_route rpc_call rpc_find key_eq
reached (key_get k) = (get, key_part ∷ k ∷ [], refl)
reached (key_put k) = (put, key_part ∷ k ∷ [], refl)
reached (find_node k) = (get, rpc_part ∷ find_node_part ∷ k ∷ [], refl)
reached (find_peers k) = (get, rpc_part ∷ find_peers_part ∷ k ∷ [], refl)
reached ping = (get, rpc_part ∷ ping_part ∷ [], refl)
reached store = (post, rpc_part ∷ store_part ∷ [], refl)

-- Whatever the method and the path, a request that has a route comes to its handler behind the checks
-- that the handler needs, in their order: behind the swarm key and the source for a call between nodes,
-- behind the upload key for the announcement of a peer. Each handler has a route.
pub router-IsGuarded :
    ((m : Method) (parts : List Text) → IsGuarded (router m parts))
    × ((h : Handler) → (m : Method) × (parts : List Text) × (router m parts ≡ some (route_of h)))
router-IsGuarded = (guarded, reached)
