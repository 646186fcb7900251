-- ===== src/Runtime/Gate.antt =====
-- _cli_impl.py, `_reject_if_gpu_busy`: the gate that a request passes before its model is loaded.
-- A request that passes may first have occupants of the model's GPU unloaded, or its route rewritten.
use Prim.Native.String.{String, ◌++◌ as ◌+++◌}
use heimdall_gateway.Prelude.{
  ℕ, Bool, true, false, not, ◌&&◌, Option, none, some, List, [], ◌∷◌, ltb, if◌then◌else◌, or_else,
  ◌==◌, nat_key, string_key,
}
use heimdall_gateway.Dict.{Dict, get}
use heimdall_gateway.Value.{text, fields, Object, of_object}
use heimdall_gateway.Router.State.{ReplicaRouterState}
use heimdall_gateway.Router.Claims.{release_loading_claim}
use heimdall_gateway.Router.Conflicts.{blocking_conflicting_load}
use heimdall_gateway.Router.Overrides.{note_gpu_demand}
use heimdall_gateway.Router.Admission.{ApiStyle, openai, other_style}
use heimdall_gateway.Activity.{Activity, Blocker, recent_activity_blocking_model_switch}
use heimdall_gateway.Runtime.{Host}
use heimdall_gateway.Runtime.Plan.{
  Action, forward, reject, repin_then_forward, retire_then_forward, PlacementPlan, Outlook,
  plan_runtime_placement,
}
use heimdall_gateway.Runtime.Retire.{retire_idle_occupants}
use heimdall_gateway.Runtime.Probe.{request_looks_like_model_probe}

-- GPU_DEMAND_TTL_S
abbrev pub gpu_demand_ttl : ℕ
gpu_demand_ttl = 120000

-- why a request is refused
pub data Refusal : Type 0 where
  by_load : String → ℕ → Refusal
  by_probe : String → ℕ → String → Refusal
  by_gpu : String → Refusal

-- What the gate reads of the program beside the router: the sets of models of the rendered
-- configuration, `experimental.model_probe_autoload` (`none` for a grace that is no number), the use
-- of the models, what the machine and the catalog say, the answer of `get_gpu_conflict_message`, and
-- whether llama-swap unloads an instance.
pub record Surroundings : Type 0 where
  pub membership : Dict String (List String)
  pub probe_enabled : Bool
  pub probe_grace_s : Option ℕ
  pub activity : Dict String Activity
  pub host : Host
  pub outlook : Outlook
  pub conflict : Option String
  pub unloads : String → Bool

-- what the gate leaves: the log of placement writes, the router, what it asked to unload, whether it
-- rewrote the model's route, and the refusal that it sent
pub record Passage : Type 0 where
  pub log : List ℕ
  pub router : ReplicaRouterState
  pub unloaded : List String
  pub repinned : Bool
  pub refusal_sent : Option Refusal

-- the activity that keeps a probe from loading its model
unfoldable pub probe_blocker : Surroundings → String → Object → ℕ → Option Blocker
unfolding request_looks_like_model_probe recent_activity_blocking_model_switch
probe_blocker x model_name payload now =
    let grace = or_else x.probe_grace_s 0 in
    if not x.outlook.is_running
      && request_looks_like_model_probe payload
      && x.probe_enabled
      && ltb 0 grace
    then recent_activity_blocking_model_switch model_name x.activity now grace
    else none

-- `if not gpu_conflict: return False`, and what follows it
unfoldable pub settle_conflict :
    Surroundings → String → ℕ → List ℕ → ReplicaRouterState → Option String → Passage
unfolding note_gpu_demand release_loading_claim
settle_conflict x model_name now log s none = record {
  log = log;
  router = s;
  unloaded = [];
  repinned = false;
  refusal_sent = none;
}
settle_conflict x model_name now log s (some message) =
    if message == ""
    then record { log = log; router = s; unloaded = []; repinned = false; refusal_sent = none }
    else record {
      log = log;
      router =
          release_loading_claim model_name
            (note_gpu_demand (get x.outlook.assigned model_name) gpu_demand_ttl now s);
      unloaded = [];
      repinned = false;
      refusal_sent = some (by_gpu message);
    }

-- what is done for a plan
unfoldable pub act_on :
    Surroundings → String → ℕ → List ℕ → ReplicaRouterState → PlacementPlan → Action → Passage
unfolding settle_conflict retire_idle_occupants
act_on x model_name now log s plan retire_then_forward = record {
  log = log;
  router = s;
  unloaded = (retire_idle_occupants x.unloads x.host plan model_name s).0;
  repinned = false;
  refusal_sent = none;
}
act_on x model_name now log s plan repin_then_forward = record {
  log = log;
  router = s;
  unloaded = [];
  repinned = true;
  refusal_sent = none;
}
act_on x model_name now log s plan reject = settle_conflict x model_name now log s plan.message
act_on x model_name now log s plan forward = settle_conflict x model_name now log s x.conflict

-- the gate behind its first two tests
unfoldable pub place :
    (ℕ → String) → Surroundings → String → ℕ → List ℕ → ReplicaRouterState → Passage
unfolding plan_runtime_placement act_on
place show x model_name now log s =
    let (new_log, t, plan) = plan_runtime_placement show x.host x.outlook model_name now log s in
    act_on x model_name now new_log t plan plan.action

-- a refusal that gives the loading claim back and touches nothing else
abbrev turned_away : String → List ℕ → ReplicaRouterState → Refusal → Passage
turned_away model_name log s why = record {
  log = log;
  router = release_loading_claim model_name s;
  unloaded = [];
  repinned = false;
  refusal_sent = some why;
}

unfoldable pub reject_if_gpu_busy :
    (ℕ → String) → Surroundings → String → Object → ℕ → List ℕ → ReplicaRouterState → Passage
unfolding blocking_conflicting_load probe_blocker place release_loading_claim
reject_if_gpu_busy show x model_name payload now log s =
    let free = place show x model_name now log s in
    elim (blocking_conflicting_load x.membership model_name now s) [
      | some (blocker, waited) ↦ turned_away model_name log s (by_load blocker waited)
      | none ↦ elim (probe_blocker x model_name payload now) [
        | some b ↦ turned_away model_name log s (by_probe b.model_id b.age b.phase)
        | none ↦ free
      ]
    ]

-- the text of a refusal; `seconds` and `tenths` write a time with no and one decimal
module _ (seconds tenths : ℕ → String) where
  unfoldable pub refusal_text : String → Refusal → String
  refusal_text model_name (by_load blocker waited) =
      "Model '"
      +++ (model_name
          +++ ("' is not loading: '"
              +++ (blocker
                  +++ ("' is already loading ("
                      +++ (seconds waited
                          +++ "s in) and shares its GPU set. The first load wins so it is not interrupted. Retry this request when that load completes.")))))
  refusal_text model_name (by_probe active age phase) =
      "Refusing to autoload probe for model '"
      +++ (model_name
          +++ ("' while model '"
              +++ (active
                  +++ ("' was active " +++ (tenths age +++ ("s ago (" +++ (phase +++ ").")))))))
  refusal_text model_name (by_gpu message) = message

  -- the body that is sent with status 503
  unfoldable pub refusal_body : ApiStyle → String → Refusal → Object
  unfolding refusal_text
  refusal_body openai model_name (by_load blocker waited) =
      (
        "error",
        fields (
            of_object (
              ("message", text (refusal_text model_name (by_load blocker waited)))
              ∷ ("type", text "model_loading")
              ∷ ("code", text "model_loading")
              ∷ [])),
      )
      ∷ []
  refusal_body other_style model_name (by_load blocker waited) =
      ("error", text (refusal_text model_name (by_load blocker waited)))
      ∷ ("code", text "model_loading")
      ∷ []
  refusal_body openai model_name why =
      (
        "error",
        fields (
            of_object (
              ("message", text (refusal_text model_name why))
              ∷ ("type", text "server_error")
              ∷ [])),
      )
      ∷ []
  refusal_body other_style model_name why = ("error", text (refusal_text model_name why)) ∷ []
