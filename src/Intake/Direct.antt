-- ===== src/Intake/Direct.antt =====
-- _cli_impl.py: `_prepare_direct_replica_request` and `_ensure_direct_replica_route_for_request`, for a
-- request that names a replica. Whether its GPUs are free, the published routes, the GPUs that the
-- configuration gives it, and how the writing of its route ended come from outside.
use Prim.Native.String.{◌++◌ as ◌+++◌}
use heimdall_gateway.Prelude.{
  ℕ, String, Bool, not, ◌||◌, Option, none, some, List, [], ◌∷◌, if◌then◌else◌, ◌==◌, nat_key,
  string_key, is_empty,
}
use heimdall_gateway.Dict.{get}
use heimdall_gateway.Router.State.{ReplicaRecord, ReplicaRouterState}
use heimdall_gateway.Router.Claims.{release_loading_claim}
use heimdall_gateway.Router.Sync.{PlannedReplica, Observed, sync_replica_runtime_state}

pub record DirectReplica : Type 0 where
  pub conflict : Option String
  pub in_catalog : Bool
  pub is_published : Bool
  pub observed : Observed
  pub replicas : List PlannedReplica
  pub configured_gpu_set : List ℕ
  pub write_error : Option String
  pub gets_published : Bool

abbrev pub no_gpu_text : String → String
no_gpu_text replica_id =
    "Cannot route request: no GPU set assigned to replica '" +++ (replica_id +++ "'.")

abbrev pub write_text : String → String → String
write_text replica_id error =
    "Cannot route request: failed to create route for replica '"
    +++ (replica_id +++ ("': " +++ (error +++ ".")))

abbrev pub unpublished_text : String → String
unpublished_text replica_id =
    "Cannot route request: replica '"
    +++ (replica_id +++ "' was not published by llama-swap in time.")

-- the GPUs of its record, if it has some, else those of the configuration
unfoldable pub direct_gpu_set : List ℕ → Option ReplicaRecord → List ℕ
direct_gpu_set configured none = configured
direct_gpu_set configured (some rec) = if is_empty rec.gpu_set then configured else rec.gpu_set

-- the end of the call: the route is written and waited for
unfoldable pub write_direct_route : DirectReplica → String → List ℕ → Option String
write_direct_route d replica_id [] = some (no_gpu_text replica_id)
write_direct_route d replica_id (gpu ∷ gpus) = elim d.write_error [
  | some error ↦ some (write_text replica_id error)
  | none ↦ if d.gets_published then none else some (unpublished_text replica_id)
]

-- the new state, and the error if the route cannot be established
unfoldable pub ensure_direct_replica_route_for_request :
    DirectReplica → String → ℕ → ReplicaRouterState → ReplicaRouterState × Option String
unfolding direct_gpu_set write_direct_route
ensure_direct_replica_route_for_request d replica_id now s =
    let t = sync_replica_runtime_state now d.observed d.replicas s in
    if not d.in_catalog || d.is_published then (s, none) else (
      t,
      write_direct_route d replica_id
          (direct_gpu_set d.configured_gpu_set (get t.records replica_id)),
    )

unfoldable pub prepare_direct_replica_request :
    DirectReplica → String → ℕ → ReplicaRouterState → ReplicaRouterState × Option String
unfolding ensure_direct_replica_route_for_request
prepare_direct_replica_request d model_name now s =
    let ensured = ensure_direct_replica_route_for_request d model_name now s in
    elim d.conflict [
      | none ↦ ensured
      | some message ↦
          if message == "" then ensured else (release_loading_claim model_name s, some message)
    ]
