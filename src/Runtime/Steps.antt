-- ===== src/Runtime/Steps.antt =====
-- _cli_impl.py: `_reject_if_gpu_busy` as a run of the steps of the router.
use heimdall_gateway.Router.Steps.{claims_override, notes_demand, releases_claim, done, after}
use Prim.Native.String.{String}
use heimdall_gateway.Prelude.{
  ℕ, refl, inl, inr, Option, none, some, List, Option-cases, if_elim, ◌==◌, nat_key, string_key,
}
use heimdall_gateway.Dict.{get}
use heimdall_gateway.Value.{Object}
use heimdall_gateway.Policy.Config.{AffinityConfig}
use heimdall_gateway.Router.State.{ReplicaRouterState}
use heimdall_gateway.Router.Conflicts.{blocking_conflicting_load}
use heimdall_gateway.Router.Overrides.{
  placement_override_ttl, placement_override_min_interval, note_gpu_demand,
}
use heimdall_gateway.Router.Steps.{Run}
use heimdall_gateway.Router.Steps.Runs.{quiet-Run, Run-trans}
use heimdall_gateway.Runtime.{Host}
use heimdall_gateway.Runtime.Plan.{
  Action, forward, reject, repin_then_forward, retire_then_forward, PlacementPlan, Outlook,
  plan_runtime_placement,
}
use heimdall_gateway.Runtime.Gate.{
  gpu_demand_ttl, Surroundings, Passage, probe_blocker, settle_conflict, act_on, place,
  reject_if_gpu_busy,
}
use heimdall_gateway.Runtime.Overriding.{plan_runtime_placement_kept}

module _ (limit : ℕ) (cfg : AffinityConfig) where
  plan_runtime_placement-Run :
      (show : ℕ → String) (host : Host) (o : Outlook) (model_name : String) (now : ℕ) (log : List ℕ)
      (s : ReplicaRouterState)
      → Run limit cfg s (plan_runtime_placement show host o model_name now log s).1
  plan_runtime_placement-Run show host o model_name now log s =
      plan_runtime_placement_kept (Run limit cfg s) now s done
        (λ model gpus.
          quiet-Run limit cfg s _
            (claims_override model gpus placement_override_ttl placement_override_min_interval now)
            refl)
        show o host model_name log

  settle_conflict-Run :
      (x : Surroundings) (model_name : String) (now : ℕ) (log : List ℕ) (s : ReplicaRouterState)
      (conflict : Option String)
      → Run limit cfg s (settle_conflict x model_name now log s conflict).router
  unfolding settle_conflict
  settle_conflict-Run x model_name now log s none = done
  settle_conflict-Run x model_name now log s (some message) =
      let t = note_gpu_demand (get x.outlook.assigned model_name) gpu_demand_ttl now s in
      let noted =
        quiet-Run limit cfg s t
          (notes_demand (get x.outlook.assigned model_name) gpu_demand_ttl now) refl in
      if_elim {A = Passage} (λ p. Run limit cfg s p.router) (message == "") _ _ done
        (after t _ noted (releases_claim model_name) refl)

  act_on-Run :
      (x : Surroundings) (model_name : String) (now : ℕ) (log : List ℕ) (s : ReplicaRouterState)
      (plan : PlacementPlan) (action : Action)
      → Run limit cfg s (act_on x model_name now log s plan action).router
  unfolding act_on
  act_on-Run x model_name now log s plan retire_then_forward = done
  act_on-Run x model_name now log s plan repin_then_forward = done
  act_on-Run x model_name now log s plan reject =
      settle_conflict-Run x model_name now log s plan.message
  act_on-Run x model_name now log s plan forward =
      settle_conflict-Run x model_name now log s x.conflict

  place-Run :
      (show : ℕ → String) (x : Surroundings) (model_name : String) (now : ℕ) (log : List ℕ)
      (s : ReplicaRouterState)
      → Run limit cfg s (place show x model_name now log s).router
  unfolding place
  place-Run show x model_name now log s =
      let (new_log, t, plan) = plan_runtime_placement show x.host x.outlook model_name now log s in
      Run-trans limit cfg s t _
        (plan_runtime_placement-Run show x.host x.outlook model_name now log s)
        (act_on-Run x model_name now new_log t plan plan.action)

  -- The gate, whether it refuses a request or lets it pass, is a run of the steps of the router, none
  -- of which begins or ends a request.
  pub reject_if_gpu_busy-Run :
      (show : ℕ → String) (x : Surroundings) (model_name : String) (payload : Object) (now : ℕ)
      (log : List ℕ) (s : ReplicaRouterState)
      → Run limit cfg s (reject_if_gpu_busy show x model_name payload now log s).router
  unfolding reject_if_gpu_busy
  reject_if_gpu_busy-Run show x model_name payload now log s =
      let released = quiet-Run limit cfg s _ (releases_claim model_name) refl in
      elim (Option-cases (blocking_conflicting_load x.membership model_name now s)) [
        | inr (load, e) ↦ rw (reject_if_gpu_busy, e) released
        | inl none_loads ↦ elim (Option-cases (probe_blocker x model_name payload now)) [
          | inr (b, e) ↦ rw (reject_if_gpu_busy, none_loads, e) released
          | inl e ↦ rw (reject_if_gpu_busy, none_loads, e) (place-Run show x model_name now log s)
        ]
      ]
