-- ===== src/Tests/Router.antt =====
-- The methods of `ReplicaRouterState` at concrete inputs.
use heimdall_gateway.Prelude.{
  ◌+◌, ◌≤◌, String, ◌≡◌, refl, true, false, not, ◌||◌, none, some, List, [], ◌∷◌, arith, ltb,
  if◌then◌else◌, nat_key, string_key,
}
use heimdall_gateway.Dict.{get, put, pop, retain}
use heimdall_gateway.Policy.Faults.{client_abort, no_fault, kind, is_target_fatal}
use heimdall_gateway.Policy.Targets.{evacuate_no_route, in_transfer_reasons}
use heimdall_gateway.Policy.Config.{AffinityConfig}
use heimdall_gateway.Policy.Transfer.{new_budget, allow_transfer, record_transfer}
use heimdall_gateway.Policy.Probe.{probe_target_health}
use heimdall_gateway.Router.State.{
  status_ready, status_error, new_record, ReplicaRouterState, new_state,
}
use heimdall_gateway.Router.Binding.{budget_of, bind, owner_of}
use heimdall_gateway.Router.Binding.Ownership.{bind-moves}
use heimdall_gateway.Router.Requests.{request_finished, standing, request_finished-standing}
use heimdall_gateway.Router.Claims.{
  loading_claim_ttl, process_loaded, drop_expired_claims, claim_loading, release_loading_claim,
  held, claim_loading_lem, claim_loading-ends,
}
use heimdall_gateway.Router.Overrides.{
  placement_max_writes_per_hour, claim_gpu_override, claim_placement_write,
}
use heimdall_gateway.Router.Writes.{Call, calls, writes_within_hour, placement_writes_bounded}
use heimdall_gateway.Router.Health.{health_of}
use heimdall_gateway.Router.Health.Evidence.{CacheAlive, status_of}
use heimdall_gateway.Router.Admission.{
  openai, refusal, reject_if_model_loading_request, status_sent,
}

abbrev cfg : AffinityConfig
cfg = record {
  min_dwell = 120000;
  max_transfers = 2;
  max_hard_transfers = 5;
  evacuate_cooldown = 300000;
  saturated_target = "retry";
  queue_max_wait_ms = 0;
  queue_max_depth = 0;
  allow_suspected_transfers = false;
  probe_interval = 10000;
  probe_timeout = 1500;
}

-- a conversation bound to "a" at time 0 for an hour
abbrev owned : ReplicaRouterState
owned = record new_state {
  affinity = ("k", ("a", 3600000)) ∷ [];
  affinity_budget = ("k", new_budget) ∷ [];
}

owned_by_a : owner_of owned "k" 200000 ≡ some "a"
unfolding owner_of get
owned_by_a = refl

moved_to_b :
    owner_of (bind cfg "k" "b" evacuate_no_route 3600000 200000 owned).0 "k" 200000 ≡ some "b"
unfolding bind owner_of get put pop allow_transfer record_transfer
moved_to_b = refl

bind-moves_example :
    (◌≡◌ {A = String} "b" "b")
    × (in_transfer_reasons evacuate_no_route ≡ true)
    × ((allow_transfer (budget_of owned "k") evacuate_no_route "b" cfg 200000).0 ≡ true)
bind-moves_example =
    bind-moves cfg "k" "b" evacuate_no_route 3600000 200000 owned "a" "b" owned_by_a moved_to_b refl

abbrev one_replica : ReplicaRouterState
one_replica = record new_state {
  records =
      ("m__replica_0", record (new_record "m" "m__replica_0" (1 ∷ [])) { status = status_ready })
      ∷ [];
}

request_finished-standing_example :
    standing (
      get
        (request_finished "m__replica_0" false (kind client_abort) 9 one_replica).records
        "m__replica_0")
    ≡ standing (get one_replica.records "m__replica_0")
unfolding is_target_fatal
request_finished-standing_example =
    request_finished-standing "m__replica_0" "m__replica_0" (kind client_abort) 9 one_replica refl

claim_loading_lem_example :
    let (t, granted) = claim_loading "m" false false none 7 new_state in
    (granted ≡ process_loaded "m" false false new_state || not (held new_state "m" 7))
    × (held t "m" 8 ≡ (
        if process_loaded "m" false false new_state
        then false
        else if held new_state "m" 7
        then held new_state "m" 8
        else ltb 8 (7 + loading_claim_ttl)))
claim_loading_lem_example = claim_loading_lem "m" false false none 7 new_state 8 (omega arith)

second_is_refused :
    (claim_loading "m" false false none 8 (claim_loading "m" false false none 7 new_state).0).1
    ≡ false
unfolding claim_loading get put pop retain
second_is_refused = refl

first_is_granted : (claim_loading "m" false false none 7 new_state).1 ≡ true
unfolding claim_loading get put pop retain
first_is_granted = refl

claim_loading-ends_example :
    let t = (claim_loading "m" false false none 7 new_state).0 in
    (held (request_finished "m" false no_fault 9 t) "m" 10 ≡ false)
    × (held (release_loading_claim "m" t) "m" 10 ≡ false)
unfolding process_loaded
claim_loading-ends_example =
    claim_loading-ends "m" false false none 7 new_state false no_fault 9 10 refl refl
      first_is_granted

override_granted : (claim_gpu_override "m" (1 ∷ []) 1800000 900000 5 new_state).1 ≡ true
unfolding claim_gpu_override get
override_granted = refl

abbrev burst : List Call
burst =
    record { model_id = "a"; gpu_set = 0 ∷ []; now = 1 }
    ∷ record { model_id = "b"; gpu_set = 0 ∷ []; now = 2 }
    ∷ record { model_id = "c"; gpu_set = 0 ∷ []; now = 3 }
    ∷ record { model_id = "d"; gpu_set = 0 ∷ []; now = 4 }
    ∷ record { model_id = "e"; gpu_set = 0 ∷ []; now = 5 }
    ∷ []

fifth_write_is_refused :
    (calls (record { log = []; router = new_state; granted = [] }) burst).granted
    ≡ 1 ∷ 2 ∷ 3 ∷ 4 ∷ []
unfolding calls claim_placement_write claim_gpu_override get put
fifth_write_is_refused = refl

placement_writes_bounded_example :
    writes_within_hour 5
      (calls (record { log = []; router = new_state; granted = [] }) burst).granted
    ≤ placement_max_writes_per_hour
placement_writes_bounded_example = placement_writes_bounded new_state burst 0 (omega arith)

abbrev served : ReplicaRouterState
served = record new_state {
  records = ("r", record (new_record "m" "r" (1 ∷ [])) { pid = some 7; port = some 80 }) ∷ [];
}

served-CacheAlive : CacheAlive served
unfolding get
served-CacheAlive = record { at_key = λ j entry found. cc }

silent_is_dead :
    (health_of (λ pid. true) (λ port t. none) (λ n. "") cfg "r" 1 5 served).1.confirmed_dead ≡ true
unfolding health_of probe_target_health get put pop
silent_is_dead = refl

silent_is_marked :
    status_of
      (get (health_of (λ pid. true) (λ port t. none) (λ n. "") cfg "r" 1 5 served).0.records "r")
    ≡ some status_error
unfolding health_of probe_target_health get put pop
silent_is_marked = refl

abbrev loading_m : ReplicaRouterState
loading_m = record new_state { loading_claims = ("m", 900000) ∷ [] }

loading_is_refused :
    status_sent (reject_if_model_loading_request "m" false false openai 1000 loading_m).1 ≡ some 503
unfolding reject_if_model_loading_request claim_loading refusal process_loaded get put retain
    drop_expired_claims pop
loading_is_refused = refl
