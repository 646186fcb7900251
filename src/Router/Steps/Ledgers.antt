-- ===== src/Router/Steps/Ledgers.antt =====
-- _cli_impl.py, `ReplicaRouterState`: the transfer budgets and the measurements that are kept. Only `bind`,
-- `prune` and `health_of` write them.
use heimdall_gateway.Router.Steps.{
  admits, passes, finishes, binds, prunes, binds_response, reads_response, claims_loading,
  releases_claim, notes_demand, claims_override, measures, starts, fails_to_start, registers,
  synchronises, at_first, later,
}
use Prim.Native.String.{String}
use heimdall_gateway.Prelude.{
  ℕ, refl, ◌∙◌, Bool, Option, List, [], ◌∷◌, arith, Option-cases, nat_key, string_key,
}
use heimdall_gateway.Dict.{Dict, get}
use heimdall_gateway.Policy.Faults.{Fault}
use heimdall_gateway.Policy.Targets.{TransferReason, initial_bind}
use heimdall_gateway.Policy.Config.{AffinityConfig}
use heimdall_gateway.Router.State.{ReplicaRecord, ReplicaRouterState, new_state}
use heimdall_gateway.Router.Binding.{bind}
use heimdall_gateway.Router.Prune.{prune}
use heimdall_gateway.Router.Requests.{request_started, drop_claims, request_finished}
use heimdall_gateway.Router.Health.{health_of}
use heimdall_gateway.Router.Sync.{PlannedReplica, Observed, sync_one, sync_replica_runtime_state}
use heimdall_gateway.Router.Limit.{take_slot, limited_target, reject_if_concurrent_limit_exceeded}
use heimdall_gateway.Router.Selection.{RouteContext}
use heimdall_gateway.Router.Selection.Fresh.{bind_new, claim_replica, mark_failed}
use heimdall_gateway.Router.Steps.{Step, Event, Reach}
use heimdall_gateway.Router.Steps.Loads.{
  SameLedgers, response_replica-SameCore, bind_response-SameCore, claim_loading-SameCore,
  release-SameCore, note_gpu_demand-SameCore, claim_gpu_override-SameCore,
}

take_slot-SameLedgers :
    (target : String) (now : ℕ) (s : ReplicaRouterState) → SameLedgers s (take_slot target now s)
unfolding take_slot
take_slot-SameLedgers target now s = (
  ground (arith, Option-cases (get s.records target)),
  ground (arith, Option-cases (get s.records target)),
)

admits-SameLedgers :
    (limit : ℕ) (model_name : String) (upstream : Option String) (now : ℕ) (s : ReplicaRouterState)
    → SameLedgers s (reject_if_concurrent_limit_exceeded limit model_name upstream now s).0
unfolding reject_if_concurrent_limit_exceeded
admits-SameLedgers limit model_name upstream now s =
    let (budgets, cache) = take_slot-SameLedgers (limited_target model_name upstream) now s in
    (ground (arith, budgets), ground (arith, cache))

request_started-SameLedgers :
    (target : String) (now : ℕ) (s : ReplicaRouterState)
    → SameLedgers s (request_started target now s)
unfolding request_started
request_started-SameLedgers target now s = (
  ground (arith, Option-cases (get s.records target)),
  ground (arith, Option-cases (get s.records target)),
)

request_finished-SameLedgers :
    (target : String) (ok : Bool) (fault : Fault) (now : ℕ) (s : ReplicaRouterState)
    → SameLedgers s (request_finished target ok fault now s)
unfolding request_finished drop_claims
request_finished-SameLedgers target ok fault now s = (
  ground (arith, Option-cases (get s.records target)),
  ground (arith, Option-cases (get s.records target)),
)

sync_one-SameLedgers :
    (now : ℕ) (o : Observed) (r : PlannedReplica) (s : ReplicaRouterState)
    → SameLedgers s (sync_one now o r s)
unfolding sync_one
sync_one-SameLedgers now o r s = (refl, refl)

sync-SameLedgers :
    (now : ℕ) (o : Observed) (replicas : List PlannedReplica) (s : ReplicaRouterState)
    → SameLedgers s (sync_replica_runtime_state now o replicas s)
unfolding sync_replica_runtime_state
sync-SameLedgers now o [] s = (refl, refl)
sync-SameLedgers now o (r ∷ replicas) s =
    let (budgets, cache) = sync-SameLedgers now o replicas (sync_one now o r s) in
    let (budgets_one, cache_one) = sync_one-SameLedgers now o r s in
    (budgets ∙ budgets_one, cache ∙ cache_one)

module _ (fits : List ℕ → Dict ℕ ℕ → Bool × Option ℕ) (add_route : String → Bool)
    (cfg : AffinityConfig) (ctx : RouteContext) (s : ReplicaRouterState) where
  mark_failed-SameLedgers :
      (replica_id : String) → SameLedgers s (mark_failed fits add_route cfg ctx replica_id s)
  unfolding mark_failed
  mark_failed-SameLedgers replica_id = (
    ground (arith, Option-cases (get s.records replica_id)),
    ground (arith, Option-cases (get s.records replica_id)),
  )

-- what depends on the budgets and the measurements alone, and what their writers keep
module _ (limit : ℕ) (cfg : AffinityConfig) (Q : ReplicaRouterState → Type 0)
    (same : (s t : ReplicaRouterState) → SameLedgers s t → Q s → Q t)
    (on_bind : (key target : String) (reason : TransferReason) (ttl now : ℕ)
        (s : ReplicaRouterState)
      → Q s
      → Q (bind cfg key target reason ttl now s).0)
    (on_prune : (now : ℕ) (s : ReplicaRouterState) → Q s → Q (prune now s))
    (on_measure : (pid_alive : ℕ → Bool) (probe : ℕ → ℕ → Option ℕ) (show : ℕ → String)
        (target : String) (capacity now : ℕ) (s : ReplicaRouterState)
      → Q s
      → Q (health_of pid_alive probe show cfg target capacity now s).0) where
  claim_replica_kept :
      (fits : List ℕ → Dict ℕ ℕ → Bool × Option ℕ) (add_route : String → Bool) (ctx : RouteContext)
      (replica_id : String) (rec : ReplicaRecord) (required : Option ℕ) (now : ℕ)
      (s : ReplicaRouterState)
      → Q s
      → Q (claim_replica fits add_route cfg ctx replica_id rec required now s)
  unfolding claim_replica bind_new
  claim_replica_kept fits add_route ctx replica_id rec required now s holds =
      on_bind ctx.affinity_key replica_id initial_bind ctx.sticky_ttl now _
        (same s _ (refl, refl) holds)

  Step_kept : (s t : ReplicaRouterState) → Step limit cfg s t → Q s → Q t
  Step_kept s _ (admits model_name upstream now) =
      same s _ (admits-SameLedgers limit model_name upstream now s)
  Step_kept s _ (passes target now) = same s _ (request_started-SameLedgers target now s)
  Step_kept s _ (finishes target ok fault now) =
      same s _ (request_finished-SameLedgers target ok fault now s)
  Step_kept s _ (binds key target reason ttl now) = on_bind key target reason ttl now s
  Step_kept s _ (prunes now) = on_prune now s
  Step_kept s _ (binds_response response_id replica_id ttl now) =
      same s _ (bind_response-SameCore response_id replica_id ttl now s).1
  Step_kept s _ (reads_response response_id now) =
      same s _ (response_replica-SameCore response_id now s).1
  Step_kept s _ (claims_loading model_id is_replica running claim_key now) =
      same s _ (claim_loading-SameCore model_id is_replica running claim_key now s).1
  Step_kept s _ (releases_claim model_id) = same s _ (release-SameCore model_id s).1
  Step_kept s _ (notes_demand gpu_set ttl now) =
      same s _ (note_gpu_demand-SameCore gpu_set ttl now s).1
  Step_kept s _ (claims_override model_id gpu_set ttl min_interval now) =
      same s _ (claim_gpu_override-SameCore model_id gpu_set ttl min_interval now s).1
  Step_kept s _ (measures pid_alive probe show target capacity now) =
      on_measure pid_alive probe show target capacity now s
  Step_kept s _ (starts fits add_route ctx replica_id rec required now found) =
      claim_replica_kept fits add_route ctx replica_id rec required now s
  Step_kept s _ (fails_to_start fits add_route ctx replica_id) =
      same s _ (mark_failed-SameLedgers fits add_route cfg ctx s replica_id)
  Step_kept s _ (registers base replicas) = same s _ (refl, refl)
  Step_kept s _ (synchronises now o replicas) = same s _ (sync-SameLedgers now o replicas s)

  pub Reach_kept :
      (history : List Event) (s : ReplicaRouterState)
      → Q new_state
      → Reach limit cfg history s
      → Q s
  Reach_kept _ _ holds at_first = holds
  Reach_kept _ _ holds (later history s t reached step) =
      Step_kept s t step (Reach_kept history s holds reached)
