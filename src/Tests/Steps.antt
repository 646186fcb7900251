-- ===== src/Tests/Steps.antt =====
-- Runs of the router: the model m, with one request at a time, is asked for by a request that is
-- admitted, by one that is proxied, and by one that is refused; then the first ends. Then
-- a replica that is found running dies. Last, a request on its
-- whole way, to the model m with a replica on GPU 1, which starts on its base.
use heimdall_gateway.Router.Steps.{admits, passes, finishes, synchronises, at_first, later}
use heimdall_gateway.Prelude.{
  ℕ, ◌+◌, ◌≤◌, String, ◌≡◌, refl, ◌⊎◌, Bool, true, false, Option, none, some, List, [], ◌∷◌, arith,
  ◌==◌, nat_key, string_key,
}
use heimdall_gateway.Dict.{get, put, pop, retain}
use heimdall_gateway.Prelude.Text.{has_prefix}
use heimdall_gateway.Router.Prune.{live_gpu_override, prune}
use heimdall_gateway.Router.Claims.{process_loaded, drop_expired_claims, claim_loading}
use heimdall_gateway.Router.Conflicts.{
  is_replica_tag, replica_base_model_id, oldest, blocking_conflicting_load,
}
use heimdall_gateway.Router.Admission.{other_style, refusal, reject_if_model_loading_request}
use heimdall_gateway.Policy.Faults.{client_abort, kind}
use heimdall_gateway.Policy.Targets.{TargetHealth}
use heimdall_gateway.Policy.Config.{AffinityConfig, affinity_policy_defaults}
use heimdall_gateway.Policy.Transfer.{decide, allow_transfer}
use heimdall_gateway.Router.State.{status_error, ReplicaRouterState, new_state}
use heimdall_gateway.Router.Binding.{live_binding, budget_of, bind_free, bind, owner_of}
use heimdall_gateway.Router.Binding.Budget.{AllWithin}
use heimdall_gateway.Router.Requests.{
  base_load, request_started, drop_claims, record_finished, request_finished, in_flight_of,
}
use heimdall_gateway.Router.Limit.{take_slot, reject_if_concurrent_limit_exceeded}
use heimdall_gateway.Router.Sync.{
  PlannedReplica, Observed, matches_port, matches_gpus, first_process, find_process, sum_mib,
  synced_record, sync_one, sync_replica_runtime_state,
}
use heimdall_gateway.Router.Health.{unprobed, fresh, remember, probed, measure, health_of}
use heimdall_gateway.Router.Selection.{has_alternatives, route_owned}
use heimdall_gateway.Router.Selection.Request.{
  mapped_replica, known_replica, route, select_replica_for_request,
}
use heimdall_gateway.Router.Steps.{Event, began, passed, ended, nothing, admission_event, Reach}
use heimdall_gateway.Router.Steps.Counts.{
  counted_after, running, unlimited_after, unlimited, Reach-in_flight_le, Reach-running,
}
use heimdall_gateway.Router.Steps.Budgets.{Reach-AllWithin}
use heimdall_gateway.Router.Steps.Measured.{Reach-Evidence}
use heimdall_gateway.Router.Health.Evidence.{status_of, Evidence}
use heimdall_gateway.Policy.Probe.{probe_target_health}
use heimdall_gateway.Runtime.{
  Host, is_replica_model_id, base_of, effective_model_gpu_set, instances_by_pid, running_on,
  other_instance, add_occupants, collect_occupants, gpu_occupants,
}
use heimdall_gateway.Runtime.Plan.{
  forward_placement, Outlook, is_left_alone, plan_pinned, plan_runtime_placement,
}
use heimdall_gateway.Runtime.Gate.{
  Surroundings, probe_blocker, settle_conflict, act_on, place, reject_if_gpu_busy,
}
use heimdall_gateway.Intake.{
  Listed, listed, with_images, Arrival, model_loading, overloaded, proceeds, resolve_target,
  start_unlimited, admit, pass_gate, pass_claim, begin_request,
}
use heimdall_gateway.Intake.Slots.{outcome_event}
use heimdall_gateway.Intake.Counted.{begin_request-counted}

abbrev cfg : AffinityConfig
cfg = affinity_policy_defaults

abbrev admitted : ReplicaRouterState
admitted = (reject_if_concurrent_limit_exceeded 1 "m" none 5 new_state).0

abbrev proxied : ReplicaRouterState
proxied = request_started "m" 6 admitted

abbrev refused : ReplicaRouterState
refused = (reject_if_concurrent_limit_exceeded 1 "m" none 7 proxied).0

abbrev finished : ReplicaRouterState
finished = request_finished "m" true (kind client_abort) 8 refused

abbrev history : List Event
history =
    ended "m"
    ∷ admission_event 1 "m" none proxied
    ∷ passed "m"
    ∷ admission_event 1 "m" none new_state
    ∷ []

abbrev run : Reach 1 cfg history finished
run =
    later _ refused finished
      (later _ proxied refused
        (later _ admitted proxied (later [] new_state admitted at_first (admits "m" none 5))
          (passes "m" 6))
        (admits "m" none 7))
      (finishes "m" true (kind client_abort) 8)

events : history ≡ ended "m" ∷ nothing ∷ passed "m" ∷ began "m" ∷ []
unfolding admission_event in_flight_of base_load request_started reject_if_concurrent_limit_exceeded
    take_slot get put
events = refl

one_left : (in_flight_of proxied "m" ≡ 2) × (in_flight_of finished "m" ≡ 1)
unfolding in_flight_of base_load request_started request_finished drop_claims record_finished
    reject_if_concurrent_limit_exceeded take_slot get put pop retain
one_left = (refl, refl)

Reach-in_flight_le_example : in_flight_of finished "m" ≤ 1 + unlimited history "m"
Reach-in_flight_le_example = Reach-in_flight_le 1 cfg history finished "m" (omega arith) run

Reach-running_example :
    (in_flight_of finished "m" ≡ running history "m")
    × (running history "m" ≤ 1 + unlimited history "m")
Reach-running_example =
    Reach-running 1 cfg history finished "m" (omega arith) run ((((tt, tt), tt), tt), tt)

Reach-AllWithin_example : AllWithin cfg finished
Reach-AllWithin_example = Reach-AllWithin 1 cfg history finished run

abbrev silent : ℕ → String
silent n = ""

-- the replica of m is found running, and then its process is gone
abbrev found : Observed
found = record {
  ports = ("m__replica_0", 5801) ∷ [];
  processes = record { pid = 7; port = some 5801; model_path = "/m.gguf" } ∷ [];
  memory_by_pid = (7, (1, 9000) ∷ []) ∷ [];
}

abbrev replica_of_m : PlannedReplica
replica_of_m = record {
  base_model_id = "m";
  replica_model_id = "m__replica_0";
  model_path = "/m.gguf";
  gpu_set = 1 ∷ [];
}

abbrev synced : ReplicaRouterState
synced = sync_replica_runtime_state 1 found (replica_of_m ∷ []) new_state

abbrev gone : ℕ → Bool
gone pid = false

abbrev answers : ℕ → ℕ → Option ℕ
answers port timeout = some 200

abbrev measured : ReplicaRouterState × TargetHealth
measured = health_of gone answers silent cfg "m__replica_0" 1 2 synced

marked_dead :
    (measured.1.confirmed_dead ≡ true)
    × (status_of (get measured.0.records "m__replica_0") ≡ some status_error)
unfolding health_of measure probed probe_target_health fresh remember unprobed
    sync_replica_runtime_state sync_one find_process first_process matches_port matches_gpus
    synced_record sum_mib in_flight_of base_load get put pop
marked_dead = (refl, refl)

Reach-Evidence_example :
    (measured.1.confirmed_dead ≡ true → Evidence gone answers silent cfg "m__replica_0" 1 2 synced)
    × (status_of (get measured.0.records "m__replica_0") ≡ some status_error
        → (status_of (get synced.records "m__replica_0") ≡ some status_error)
          ⊎ (◌≡◌ {A = String} "m__replica_0" "m__replica_0"
              × Evidence gone answers silent cfg "m__replica_0" 1 2 synced))
Reach-Evidence_example =
    Reach-Evidence 1 cfg gone answers silent "m__replica_0" 1 2 (nothing ∷ []) synced "m__replica_0"
      (later [] new_state synced at_first (synchronises 1 found (replica_of_m ∷ [])))

abbrev machine : Host
machine = record {
  memory_by_pid = [];
  is_ollama = λ pid. false;
  model_path_by_pid = [];
  model_by_path = [];
  free_mib = (0, 24000) ∷ (1, 24000) ∷ [];
}

abbrev outlook : Outlook
outlook = record {
  enabled = true;
  may_repin = true;
  in_catalog = true;
  is_running = false;
  has_replica_slots = some true;
  assigned = ("m", 0 ∷ []) ∷ [];
  estimate_mib = 12000;
  fits = λ gpus. true;
}

abbrev around : Surroundings
around = record {
  membership = [];
  probe_enabled = false;
  probe_grace_s = some 30;
  activity = [];
  host = machine;
  outlook = outlook;
  conflict = none;
  unloads = λ id. true;
}

abbrev listed_m : Listed
listed_m = record {
  observed = record { ports = []; processes = []; memory_by_pid = [] };
  replicas = [];
  ctx = record {
    base = "m";
    affinity_key = "chat";
    replicas = ("m__replica_0", 1 ∷ []) ∷ [];
    published = "m" ∷ [];
    dynamic_routes = false;
    load_blocked = false;
    prefer_base = false;
    idle_grace = 0;
    sticky_ttl = 1800000;
  };
  enabled = true;
  response_id = "";
  capacity = 1;
  pid_alive = λ pid. true;
  probe = λ port timeout. some 200;
  show = silent;
  fits = λ gpus used. (true, some 4096);
  add_route = λ rid. true;
}

abbrev chat : Arrival
chat = record {
  limit = 1;
  cfg = cfg;
  model_name = "m";
  payload = [];
  entry = listed listed_m;
  is_running = false;
  surroundings = around;
  show = silent;
  log = [];
  times = record { synced = 1; routed = 2; started = 3; claimed = 4; placed = 5; admitted = 6 };
}

m_named : (chat.model_name == "") ≡ false
m_named = refl

begin_request-counted_example :
    let m = begin_request chat new_state in
    (longer : List Event) × Reach 1 cfg longer m.0
    × ((j : String)
        → (running longer j ≡ counted_after (outcome_event chat m.1) j (running [] j))
          × (unlimited longer j ≡ unlimited_after (outcome_event chat m.1) j (unlimited [] j)))
begin_request-counted_example = begin_request-counted chat [] new_state m_named at_first

chat_proceeds : (begin_request chat new_state).1 ≡ proceeds "m"
unfolding begin_request resolve_target sync_replica_runtime_state select_replica_for_request
    mapped_replica known_replica route prune retain bind bind_free live_binding budget_of get put
    pass_claim reject_if_model_loading_request claim_loading process_loaded drop_expired_claims
    pass_gate reject_if_gpu_busy blocking_conflicting_load oldest probe_blocker place
    plan_runtime_placement is_left_alone is_replica_model_id act_on settle_conflict
    forward_placement effective_model_gpu_set live_gpu_override plan_pinned gpu_occupants
    collect_occupants other_instance running_on instances_by_pid base_of replica_base_model_id
    add_occupants admit reject_if_concurrent_limit_exceeded take_slot in_flight_of base_load
    start_unlimited is_replica_tag has_prefix
chat_proceeds = refl

-- the next request waits while the model loads, and is one too many once it runs
next_waits :
    (begin_request chat (begin_request chat new_state).0).1
    ≡ model_loading (refusal "m" other_style)
unfolding begin_request resolve_target sync_replica_runtime_state select_replica_for_request
    mapped_replica known_replica route prune retain bind bind_free live_binding budget_of get put
    pass_claim reject_if_model_loading_request claim_loading process_loaded drop_expired_claims
    pass_gate reject_if_gpu_busy blocking_conflicting_load oldest probe_blocker place
    plan_runtime_placement is_left_alone is_replica_model_id act_on settle_conflict
    forward_placement effective_model_gpu_set live_gpu_override plan_pinned gpu_occupants
    collect_occupants other_instance running_on instances_by_pid base_of replica_base_model_id
    add_occupants admit reject_if_concurrent_limit_exceeded take_slot in_flight_of base_load
    start_unlimited is_replica_tag has_prefix owner_of route_owned has_alternatives health_of decide
    allow_transfer measure unprobed
next_waits = refl

next_overloads :
    (begin_request (record chat { is_running = true }) (begin_request chat new_state).0).1
    ≡ overloaded 1
unfolding begin_request resolve_target sync_replica_runtime_state select_replica_for_request
    mapped_replica known_replica route prune retain bind bind_free live_binding budget_of get put
    pass_claim reject_if_model_loading_request claim_loading process_loaded drop_expired_claims
    pass_gate reject_if_gpu_busy blocking_conflicting_load oldest probe_blocker place
    plan_runtime_placement is_left_alone is_replica_model_id act_on settle_conflict
    forward_placement effective_model_gpu_set live_gpu_override plan_pinned gpu_occupants
    collect_occupants other_instance running_on instances_by_pid base_of replica_base_model_id
    add_occupants admit reject_if_concurrent_limit_exceeded take_slot in_flight_of base_load
    start_unlimited is_replica_tag has_prefix owner_of route_owned has_alternatives health_of decide
    allow_transfer measure unprobed
next_overloads = refl

-- m runs, and a request with an image is answered by its base: another one is told that m is loading
abbrev pictured : Arrival
pictured = record chat { limit = 2; entry = with_images "m"; is_running = true }

image_waits :
    ((begin_request pictured new_state).1 ≡ proceeds "m")
    × ((begin_request pictured (begin_request pictured new_state).0).1
        ≡ model_loading (refusal "m" other_style))
unfolding begin_request resolve_target pass_claim reject_if_model_loading_request claim_loading
    process_loaded drop_expired_claims retain pass_gate admit reject_if_concurrent_limit_exceeded
    take_slot in_flight_of base_load start_unlimited get put
image_waits = (refl, refl)
