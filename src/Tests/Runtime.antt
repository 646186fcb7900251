-- ===== src/Tests/Runtime.antt =====
-- Runtime placement at concrete inputs: the model m is pinned to GPU 0, which n holds; GPU 1 is idle.
use Prim.Native.String.{String}
use heimdall_gateway.Prelude.{
  ℕ, ◌≡◌, refl, true, false, not, ◌&&◌, none, some, [], ◌∷◌, arith, if◌then◌else◌, is_some, nat_key,
  string_key, any,
}
use heimdall_gateway.Dict.{get, put, retain}
use heimdall_gateway.Value.{text}
use heimdall_gateway.Prelude.Text.{has_prefix}
use heimdall_gateway.Router.Conflicts.{is_replica_tag, replica_base_model_id}
use heimdall_gateway.Router.State.{ReplicaRouterState, new_state}
use heimdall_gateway.Router.Claims.{process_loaded, drop_expired_claims, claim_loading, held}
use heimdall_gateway.Router.Requests.{base_load, in_flight_of}
use heimdall_gateway.Router.Overrides.{claim_gpu_override, drop_old_writes, claim_placement_write}
use heimdall_gateway.Router.Prune.{live_gpu_override}
use heimdall_gateway.Runtime.{
  Host, is_replica_model_id, base_of, effective_model_gpu_set, instances_by_pid, running_on,
  other_instance, add_occupants, collect_occupants, gpu_occupants, smaller, best_alternative_gpu,
}
use heimdall_gateway.Runtime.Plan.{
  reject, Outlook, is_left_alone, is_busy, Planned, fits_alternative, claim_alternative, held_plan,
  refused_plan, moving_plan, repin_plan, retire_plan, plan_held, obstacle_at, plan_pinned,
  plan_runtime_placement,
}
use heimdall_gateway.Runtime.Gate.{Surroundings, Passage, reject_if_gpu_busy}
use heimdall_gateway.Runtime.Decision.{is_reject, is_repin, holders}
use heimdall_gateway.Runtime.Moves.{
  plan_runtime_placement-reject, Lands, plan_runtime_placement-Lands,
}
use heimdall_gateway.Runtime.Turned.{Settles, reject_if_gpu_busy-Settles, reject_if_gpu_busy-held}

abbrev digits : ℕ → String
digits n = "n"

abbrev machine : Host
machine = record {
  memory_by_pid = (7, (0, 20000) ∷ []) ∷ [];
  is_ollama = λ pid. false;
  model_path_by_pid = (7, "/n.gguf") ∷ [];
  model_by_path = ("/n.gguf", "n") ∷ [];
  free_mib = (0, 4000) ∷ (1, 24000) ∷ [];
}

abbrev outlook_m : Outlook
outlook_m = record {
  enabled = true;
  may_repin = true;
  in_catalog = true;
  is_running = false;
  has_replica_slots = some false;
  assigned = ("m", 0 ∷ []) ∷ [];
  estimate_mib = 12000;
  fits = λ gpus. true;
}

-- n serves a request
abbrev busy_n : ReplicaRouterState
busy_n = record new_state { base_in_flight = ("n", 1) ∷ [] }

abbrev plan_of : Outlook → ReplicaRouterState → Planned
plan_of o s = plan_runtime_placement digits machine o "m" 0 [] s

refused_while_busy : (plan_of outlook_m busy_n).2.action ≡ reject
unfolding plan_runtime_placement is_left_alone is_replica_model_id is_replica_tag has_prefix
    effective_model_gpu_set live_gpu_override plan_pinned gpu_occupants collect_occupants
    other_instance running_on instances_by_pid base_of replica_base_model_id add_occupants is_busy
    in_flight_of base_load plan_held refused_plan held_plan get put
refused_while_busy = refl

plan_runtime_placement-reject_example : is_reject (plan_of outlook_m busy_n).2.action ≡ (
    not (is_left_alone outlook_m "m")
    && any (is_busy busy_n) (holders machine outlook_m "m" 0 busy_n))
plan_runtime_placement-reject_example =
    plan_runtime_placement-reject digits machine outlook_m "m" 0 [] busy_n

-- without leave to repin, the idle n is unloaded
abbrev fixed_m : Outlook
fixed_m = record outlook_m { may_repin = false }

retired_n : is_repin (plan_of fixed_m new_state).2.action ≡ false
unfolding plan_runtime_placement is_left_alone is_replica_model_id is_replica_tag has_prefix
    effective_model_gpu_set live_gpu_override plan_pinned gpu_occupants collect_occupants
    other_instance running_on instances_by_pid base_of replica_base_model_id add_occupants is_busy
    in_flight_of base_load plan_held retire_plan moving_plan held_plan fits_alternative
    best_alternative_gpu smaller obstacle_at get put
retired_n = refl

moved_m : is_repin (plan_of outlook_m new_state).2.action ≡ true
unfolding plan_runtime_placement is_left_alone is_replica_model_id is_replica_tag has_prefix
    effective_model_gpu_set live_gpu_override plan_pinned gpu_occupants collect_occupants
    other_instance running_on instances_by_pid base_of replica_base_model_id add_occupants is_busy
    in_flight_of base_load plan_held repin_plan moving_plan held_plan fits_alternative
    best_alternative_gpu smaller obstacle_at claim_alternative claim_placement_write
    claim_gpu_override drop_old_writes get put
moved_m = refl

plan_runtime_placement-Lands_example :
    (gpu : ℕ) × Lands machine outlook_m "m"
      (effective_model_gpu_set outlook_m.assigned "m" 0 new_state)
      60000
      new_state
      (plan_of outlook_m new_state)
      gpu
plan_runtime_placement-Lands_example =
    plan_runtime_placement-Lands digits machine outlook_m "m" 0 60000 [] new_state (omega arith)
      moved_m

abbrev around : Surroundings
around = record {
  membership = [];
  probe_enabled = true;
  probe_grace_s = some 30;
  activity = ("n", record { at = 1000; phase = "chat" }) ∷ [];
  host = machine;
  outlook = outlook_m;
  conflict = none;
  unloads = λ id. true;
}

reject_if_gpu_busy-Settles_example :
    Settles "m" busy_n
      (reject_if_gpu_busy digits around "m" (("prompt", text "hi") ∷ []) 2000 [] busy_n)
reject_if_gpu_busy-Settles_example =
    reject_if_gpu_busy-Settles digits around "m" (("prompt", text "hi") ∷ []) 2000 [] busy_n

abbrev claimed : ReplicaRouterState
claimed = (claim_loading "m" false false none 2000 busy_n).0

abbrev passage : Passage
passage = reject_if_gpu_busy digits around "m" (("prompt", text "hi") ∷ []) 2000 [] claimed

granted_m : (claim_loading "m" false false none 2000 busy_n).1 ≡ true
unfolding claim_loading process_loaded drop_expired_claims retain get
granted_m = refl

reject_if_gpu_busy-held_example :
    held passage.router "m" 3000
    ≡ (if is_some passage.refusal_sent then false else held claimed "m" 3000)
reject_if_gpu_busy-held_example =
    reject_if_gpu_busy-held digits around "m" (("prompt", text "hi") ∷ []) 2000 3000 [] busy_n refl
      granted_m
