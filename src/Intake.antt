-- ===== src/Intake.antt =====
-- _cli_impl.py, `_handle_ollama_chat`: what a request passes from the name of its model to the count of
-- its target, as the other handlers of chats do too. What the calls find outside of the router is given,
-- with the time of each; so is the answer of `route_image_request_to_vision`, which reads the records and
-- keeps maps of its own. The log of placement writes that the gate leaves is left out.
pub mod Direct
pub mod Slots
pub mod Counted
use heimdall_gateway.Prelude.{
  ℕ, String, ◌⊎◌, inl, inr, Bool, true, false, not, ◌&&◌, Option, none, some, List, nat_eq,
  if◌then◌else◌, ◌==◌, nat_key, string_key,
}
use heimdall_gateway.Dict.{Dict}
use heimdall_gateway.Value.{Object}
use heimdall_gateway.Policy.Config.{AffinityConfig}
use heimdall_gateway.Router.State.{ReplicaRouterState}
use heimdall_gateway.Router.Requests.{request_started}
use heimdall_gateway.Router.Selection.{RouteContext}
use heimdall_gateway.Router.Selection.Request.{select_replica_for_request}
use heimdall_gateway.Router.Sync.{PlannedReplica, Observed, sync_replica_runtime_state}
use heimdall_gateway.Router.Admission.{other_style, Answer, reject_if_model_loading_request}
use heimdall_gateway.Router.Limit.{reject_if_concurrent_limit_exceeded}
use heimdall_gateway.Runtime.Gate.{Refusal, Surroundings, reject_if_gpu_busy}
use heimdall_gateway.Intake.Direct.{DirectReplica, prepare_direct_replica_request}

-- a model of the catalog: what the synchronisation finds, and what the selection works with
pub record Listed : Type 0 where
  pub observed : Observed
  pub replicas : List PlannedReplica
  pub ctx : RouteContext
  pub enabled : Bool
  pub response_id : String
  pub capacity : ℕ
  pub pid_alive : ℕ → Bool
  pub probe : ℕ → ℕ → Option ℕ
  pub show : ℕ → String
  pub fits : List ℕ → Dict ℕ ℕ → Bool × Option ℕ
  pub add_route : String → Bool

-- what the name of the model stands for: a model, one with images, which go to an instance or cannot be
-- served, a replica that is named directly, or none of these
pub data Entry : Type 0 where
  listed : Listed → Entry
  with_images : String → Entry
  unserved_images : String → Entry
  direct : DirectReplica → Entry
  unlisted : Entry

-- the clock at the sections
pub record Times : Type 0 where
  pub synced : ℕ
  pub routed : ℕ
  pub started : ℕ
  pub claimed : ℕ
  pub placed : ℕ
  pub admitted : ℕ

pub record Arrival : Type 0 where
  pub limit : ℕ
  pub cfg : AffinityConfig
  pub model_name : String
  pub payload : Object
  pub entry : Entry
  pub is_running : Bool
  pub surroundings : Surroundings
  pub show : ℕ → String
  pub log : List ℕ
  pub times : Times

-- how the request goes on: it is answered with an error, or sent to its target
pub data Outcome : Type 0 where
  unroutable : String → Outcome
  model_loading : Answer → Outcome
  gpu_busy : Refusal → Outcome
  overloaded : ℕ → Outcome
  proceeds : String → Outcome

-- upstream_model_name and is_replica_request, or the error
unfoldable pub resolve_target :
    Arrival → ReplicaRouterState → ReplicaRouterState × (String ⊎ (String × Bool))
resolve_target a s = elim a.entry [
  | listed l ↦
      let synced = sync_replica_runtime_state a.times.synced l.observed l.replicas s in
      let (t, chosen) =
        select_replica_for_request l.pid_alive l.probe l.show l.fits l.add_route a.cfg l.ctx
          l.enabled l.response_id l.capacity a.times.routed a.times.started synced in
      (t, inr chosen)
  | with_images target ↦ (s, inr (target, true))
  | unserved_images message ↦ (s, inl message)
  | direct d ↦
      let (t, failure) = prepare_direct_replica_request d a.model_name a.times.routed s in
      elim failure [ some message ↦ (t, inl message) | none ↦ (t, inr (a.model_name, true)) ]
  | unlisted ↦ (s, inr (a.model_name, false))
]

-- `request_started`, where there is no limit
unfoldable pub start_unlimited : Arrival → String → ReplicaRouterState → ReplicaRouterState
start_unlimited a upstream s =
    if nat_eq a.limit 0 && not (upstream == "")
    then request_started upstream a.times.admitted s
    else s

-- the limit, and the count
unfoldable pub admit : Arrival → String → ReplicaRouterState → ReplicaRouterState × Outcome
unfolding start_unlimited
admit a upstream s =
    let (t, full) =
      reject_if_concurrent_limit_exceeded a.limit a.model_name (some upstream) a.times.admitted s in
    elim full [
      | some total ↦ (t, overloaded total)
      | none ↦ (start_unlimited a upstream t, proceeds upstream)
    ]

-- the gate, which a request to a replica does not pass
unfoldable pub pass_gate :
    Arrival → String → Bool → ReplicaRouterState → ReplicaRouterState × Outcome
unfolding admit
pass_gate a upstream is_replica s =
    let passage =
      reject_if_gpu_busy a.show a.surroundings a.model_name a.payload a.times.placed a.log s in
    if is_replica then admit a upstream s else elim passage.refusal_sent [
      | some why ↦ (passage.router, gpu_busy why)
      | none ↦ admit a upstream passage.router
    ]

-- the loading claim
unfoldable pub pass_claim :
    Arrival → String → Bool → ReplicaRouterState → ReplicaRouterState × Outcome
unfolding pass_gate
pass_claim a upstream is_replica s =
    let (t, answer) =
      reject_if_model_loading_request upstream is_replica a.is_running other_style a.times.claimed
        s in
    elim answer [ some sent ↦ (t, model_loading sent) | none ↦ pass_gate a upstream is_replica t ]

unfoldable pub begin_request : Arrival → ReplicaRouterState → ReplicaRouterState × Outcome
unfolding resolve_target pass_claim
begin_request a s =
    let (t, target) = resolve_target a s in
    elim target [
      | inl message ↦ (t, unroutable message)
      | inr (upstream, is_replica) ↦ pass_claim a upstream is_replica t
    ]
