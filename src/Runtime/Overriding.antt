-- ===== src/Runtime/Overriding.antt =====
-- _cli_impl.py, `plan_runtime_placement`: what it does to the router, which is one override at most.
use Prim.Native.String.{String}
use heimdall_gateway.Prelude.{
  ℕ, Bool, ◌&&◌, Option, none, some, List, [], ◌∷◌, leb, or_else, if_elim, nat_key, string_key,
  length, is_empty,
}
use heimdall_gateway.Dict.{get}
use heimdall_gateway.Router.State.{ReplicaRouterState}
use heimdall_gateway.Router.Overrides.{
  placement_override_ttl, placement_override_min_interval, placement_max_writes_per_hour,
  claim_gpu_override, drop_old_writes, claim_placement_write,
}
use heimdall_gateway.Runtime.{Host, Occupant, gpu_occupants}
use heimdall_gateway.Runtime.Plan.{
  Outlook, is_left_alone, Planned, fits_alternative, claim_alternative, Obstacle, plan_held,
  obstacle_at, plan_pinned, plan_runtime_placement,
}

-- what holds of the state, and after any override, holds after planning
module _ (P : ReplicaRouterState → Type 0) (now : ℕ) (s : ReplicaRouterState) (kept : P s)
    (overridden : (model_name : String) (gpus : List ℕ)
      → P
          (claim_gpu_override model_name gpus placement_override_ttl placement_override_min_interval
            now s).0) where
  claim_placement_write_kept :
      (model_name : String) (gpus log : List ℕ)
      → P (claim_placement_write model_name gpus now log s).1
  unfolding claim_placement_write
  claim_placement_write_kept model_name gpus log =
      let Written = λ (m : List ℕ × ReplicaRouterState × Bool). P m.1 in
      let written = overridden model_name gpus in
      let granted =
        (claim_gpu_override model_name gpus placement_override_ttl placement_override_min_interval
          now s).1 in
      if_elim Written (leb placement_max_writes_per_hour (length (drop_old_writes now log))) _ _
        kept (if_elim Written granted _ _ written written)

  claim_alternative_kept :
      (model_name : String) (alternative : Option (ℕ × ℕ)) (log : List ℕ)
      → P (claim_alternative model_name alternative now log s).1
  unfolding claim_alternative
  claim_alternative_kept model_name none log = kept
  claim_alternative_kept model_name (some (gpu, free)) log =
      claim_placement_write_kept model_name (gpu ∷ []) log

  module _ (show : ℕ → String) (o : Outlook) where
    abbrev Plans : Planned → Type 0
    Plans m = P m.1

    plan_held_kept :
        (x : Obstacle) (busy idle : List Occupant) (log : List ℕ)
        → P (plan_held show o x busy idle now log s).1
    unfolding plan_held
    plan_held_kept x (occupant ∷ busy) idle log = kept
    plan_held_kept x [] [] log = kept
    plan_held_kept x [] (occupant ∷ idle) log =
        let written = claim_alternative_kept x.model_name x.alternative log in
        let granted = (claim_alternative x.model_name x.alternative now log s).2 in
        if_elim Plans (fits_alternative o x.alternative && o.may_repin) _ _
          (if_elim Plans granted _ _ written written) kept

    plan_pinned_kept :
        (host : Host) (model_name : String) (pinned log : List ℕ)
        → P (plan_pinned show host o model_name pinned now log s).1
    unfolding plan_pinned
    plan_pinned_kept host model_name [] log = kept
    plan_pinned_kept host model_name (pin ∷ gpu ∷ pinned) log = kept
    plan_pinned_kept host model_name (pin ∷ []) log =
        if_elim Plans (is_empty (or_else (get (gpu_occupants host s model_name) pin) [])) _ _ kept
          (plan_held_kept (obstacle_at host model_name pin s) _ _ log)

    pub plan_runtime_placement_kept :
        (host : Host) (model_name : String) (log : List ℕ)
        → P (plan_runtime_placement show host o model_name now log s).1
    unfolding plan_runtime_placement
    plan_runtime_placement_kept host model_name log =
        if_elim Plans (is_left_alone o model_name) _ _ kept (plan_pinned_kept host model_name _ log)
