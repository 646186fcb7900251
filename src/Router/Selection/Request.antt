-- ===== src/Router/Selection/Request.antt =====
-- _cli_impl.py: `select_replica_for_request`. What it works out before it reads the router's state,
-- from the configuration, the request and the published routes, is the `RouteContext`; the log is
-- left out. `response_id` is the stripped previous_response_id, "" if there is none.
use heimdall_gateway.Prelude.{
  ℕ, String, Bool, true, false, not, ◌&&◌, Option, none, some, List, [], ◌∷◌, if◌then◌else◌,
  or_else, ◌==◌, nat_key, string_key, is_empty, contains,
}
use heimdall_gateway.Dict.{Dict, get, put}
use heimdall_gateway.Policy.Targets.{initial_bind, responses_chain}
use heimdall_gateway.Policy.Config.{AffinityConfig}
use heimdall_gateway.Router.State.{ReplicaRecord, new_record, ReplicaRouterState}
use heimdall_gateway.Router.Binding.{bind, owner_of}
use heimdall_gateway.Router.Prune.{response_replica, prune}
use heimdall_gateway.Router.Health.{health_of}
use heimdall_gateway.Router.Selection.{
  RouteContext, replica_ids, published_replica_ids, Selection, route_owned,
}
use heimdall_gateway.Router.Selection.Fresh.{route_new}

-- REPLICA_ROUTER_STATE.records.setdefault(...), and the current gpu_set
unfoldable pub set_records :
    String → List (String × List ℕ) → Dict String ReplicaRecord → Dict String ReplicaRecord
set_records base [] records = records
set_records base ((rid, gpu_set) ∷ replicas) records = set_records base replicas (
    put records rid
      (record (or_else (get records rid) (new_record base rid gpu_set)) { gpu_set = gpu_set }))

-- mapped_response_replica
unfoldable pub mapped_replica : String → ℕ → ReplicaRouterState → ReplicaRouterState × Option String
mapped_replica response_id now s =
    if response_id == "" then (s, none) else response_replica response_id now s

-- mapped_response_replica and mapped_response_replica in replica_ids
unfoldable pub known_replica : RouteContext → Option String → Option String
known_replica ctx none = none
known_replica ctx (some rid) = if contains (replica_ids ctx) rid then some rid else none

module _ (pid_alive : ℕ → Bool) (probe : ℕ → ℕ → Option ℕ) (show : ℕ → String)
    (fits : List ℕ → Dict ℕ ℕ → Bool × Option ℕ) (add_route : String → Bool) (cfg : AffinityConfig)
    (ctx : RouteContext) where
  -- the sections that follow the lookup of the owner
  unfoldable pub route :
      Option String
      → Option String
      → ℕ
      → ℕ
      → ℕ
      → ReplicaRouterState
      → ReplicaRouterState × Selection
  route (some rid) owner capacity now later s =
      ((bind cfg ctx.affinity_key rid responses_chain ctx.sticky_ttl now s).0, (rid, true))
  route none (some owner) capacity now later s =
      let (t, health) = health_of pid_alive probe show cfg owner capacity now s in
      route_owned ctx cfg owner health now t
  route none none capacity now later s = route_new fits add_route cfg ctx now later s

  unfoldable pub select_replica_for_request :
      Bool → String → ℕ → ℕ → ℕ → ReplicaRouterState → ReplicaRouterState × Selection
  unfolding set_records mapped_replica known_replica route
  select_replica_for_request enabled response_id capacity now later s =
      if not enabled
      then (s, (ctx.base, false))
      else (let (p, mapped) = mapped_replica response_id now (prune now s) in
          if is_empty ctx.replicas
          then (p, (ctx.base, false))
          else if is_empty (published_replica_ids ctx) && not ctx.dynamic_routes
          then (
            (bind cfg ctx.affinity_key ctx.base initial_bind ctx.sticky_ttl now p).0,
            (ctx.base, false),
          )
          else (let t = record p { records = set_records ctx.base ctx.replicas p.records } in
              route (known_replica ctx mapped) (owner_of t ctx.affinity_key now) capacity now later
                t))
