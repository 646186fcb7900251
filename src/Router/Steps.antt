-- ===== src/Router/Steps.antt =====
-- _cli_impl.py, `ReplicaRouterState`: the sections that run under its lock as the steps of one machine,
-- in any order, whichever requests and loops they belong to. A history has the newest event first.
pub mod Loads
pub mod Counts
pub mod Ledgers
pub mod Budgets
pub mod Measured
pub mod Runs
pub mod Selected
use Prim.Native.String.{String}
use heimdall_gateway.Prelude.{
  ℕ, ◌≡◌, Bool, ◌||◌, Option, some, List, [], ◌∷◌, leb, nat_eq, if◌then◌else◌, ◌==◌, nat_key,
  string_key,
}
use heimdall_gateway.Dict.{Dict, get}
use heimdall_gateway.Policy.Faults.{Fault}
use heimdall_gateway.Policy.Targets.{TransferReason}
use heimdall_gateway.Policy.Config.{AffinityConfig}
use heimdall_gateway.Router.State.{ReplicaRecord, ReplicaRouterState, new_state}
use heimdall_gateway.Router.Binding.{bind}
use heimdall_gateway.Router.Prune.{bind_response, response_replica, prune}
use heimdall_gateway.Router.Requests.{request_started, request_finished, in_flight_of}
use heimdall_gateway.Router.Claims.{claim_loading, release_loading_claim}
use heimdall_gateway.Router.Overrides.{note_gpu_demand, claim_gpu_override}
use heimdall_gateway.Router.Health.{health_of}
use heimdall_gateway.Router.Sync.{PlannedReplica, Observed, sync_replica_runtime_state}
use heimdall_gateway.Router.Limit.{limited_target, reject_if_concurrent_limit_exceeded}
use heimdall_gateway.Router.Selection.{RouteContext}
use heimdall_gateway.Router.Selection.Fresh.{claim_replica, mark_failed}
use heimdall_gateway.Router.Selection.Request.{set_records}

-- `passes` is a request that is counted without asking for the limit, as the handlers do where there is
-- none, and as a request does that is proxied
pub data Step (limit : ℕ) (cfg : AffinityConfig) (s : ReplicaRouterState)
    : ReplicaRouterState → Type 0 where
  admits :
      (model_name : String) (upstream : Option String) (now : ℕ)
      → Step limit cfg s (reject_if_concurrent_limit_exceeded limit model_name upstream now s).0
  passes : (target : String) (now : ℕ) → Step limit cfg s (request_started target now s)
  finishes :
      (target : String) (ok : Bool) (fault : Fault) (now : ℕ)
      → Step limit cfg s (request_finished target ok fault now s)
  binds :
      (key target : String) (reason : TransferReason) (ttl now : ℕ)
      → Step limit cfg s (bind cfg key target reason ttl now s).0
  prunes : (now : ℕ) → Step limit cfg s (prune now s)
  binds_response :
      (response_id replica_id : String) (ttl now : ℕ)
      → Step limit cfg s (bind_response response_id replica_id ttl now s)
  reads_response :
      (response_id : String) (now : ℕ) → Step limit cfg s (response_replica response_id now s).0
  claims_loading :
      (model_id : String) (is_replica running : Bool) (claim_key : Option String) (now : ℕ)
      → Step limit cfg s (claim_loading model_id is_replica running claim_key now s).0
  releases_claim : (model_id : String) → Step limit cfg s (release_loading_claim model_id s)
  notes_demand :
      (gpu_set : Option (List ℕ)) (ttl now : ℕ)
      → Step limit cfg s (note_gpu_demand gpu_set ttl now s)
  claims_override :
      (model_id : String) (gpu_set : List ℕ) (ttl min_interval now : ℕ)
      → Step limit cfg s (claim_gpu_override model_id gpu_set ttl min_interval now s).0
  measures :
      (pid_alive : ℕ → Bool) (probe : ℕ → ℕ → Option ℕ) (show : ℕ → String) (target : String)
      (capacity now : ℕ)
      → Step limit cfg s (health_of pid_alive probe show cfg target capacity now s).0
  starts :
      (fits : List ℕ → Dict ℕ ℕ → Bool × Option ℕ) (add_route : String → Bool) (ctx : RouteContext)
      (replica_id : String) (rec : ReplicaRecord) (required : Option ℕ) (now : ℕ)
      → get s.records replica_id ≡ some rec
      → Step limit cfg s (claim_replica fits add_route cfg ctx replica_id rec required now s)
  fails_to_start :
      (fits : List ℕ → Dict ℕ ℕ → Bool × Option ℕ) (add_route : String → Bool) (ctx : RouteContext)
      (replica_id : String)
      → Step limit cfg s (mark_failed fits add_route cfg ctx replica_id s)
  registers :
      (base : String) (replicas : List (String × List ℕ))
      → Step limit cfg s (record s { records = set_records base replicas s.records })
  synchronises :
      (now : ℕ) (o : Observed) (replicas : List PlannedReplica)
      → Step limit cfg s (sync_replica_runtime_state now o replicas s)

-- what a step means for the requests that run; one that has passed did not ask for the limit
pub data Event : Type 0 where
  began passed ended : String → Event
  nothing : Event

-- a request that is let pass begins, unless there is no limit or no target
unfoldable pub admission_event : ℕ → String → Option String → ReplicaRouterState → Event
unfolding in_flight_of
admission_event limit model_name upstream s =
    let target = limited_target model_name upstream in
    if nat_eq limit 0 || target == ""
    then nothing
    else if leb limit (in_flight_of s target)
    then nothing
    else began target

abbrev pub event_of :
    (limit : ℕ) (cfg : AffinityConfig) (s t : ReplicaRouterState) → Step limit cfg s t → Event
event_of limit cfg s _ (admits model_name upstream now) =
    admission_event limit model_name upstream s
event_of limit cfg s _ (passes target now) = passed target
event_of limit cfg s _ (finishes target ok fault now) = ended target
event_of limit cfg s _ step = nothing

pub data Reach (limit : ℕ) (cfg : AffinityConfig) : List Event → ReplicaRouterState → Type 0 where
  at_first : Reach limit cfg [] new_state
  later :
      (history : List Event) (s t : ReplicaRouterState)
      → Reach limit cfg history s
      → (step : Step limit cfg s t) → Reach limit cfg (event_of limit cfg s t step ∷ history) t

-- several steps in a row, none of which begins or ends a request
pub data Run (limit : ℕ) (cfg : AffinityConfig) (s : ReplicaRouterState)
    : ReplicaRouterState → Type 0 where
  done : Run limit cfg s s
  after :
      (t u : ReplicaRouterState)
      → Run limit cfg s t
      → (step : Step limit cfg t u) → event_of limit cfg t u step ≡ nothing
      → Run limit cfg s u
