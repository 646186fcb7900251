-- ===== src/Runtime/Plan.antt =====
-- _cli_impl.py: `plan_runtime_placement`. `show` writes a number.
use Prim.Native.String.{◌++◌ as ◌+++◌}
use heimdall_gateway.Prelude.{
  ℕ, ◌+◌, ◌-◌, max, String, Bool, true, false, not, ◌&&◌, ◌||◌, Option, none, some, List, [], ◌∷◌,
  ltb, if◌then◌else◌, or_else, ◌==◌, nat_key, string_key, is_empty, filter,
}
use heimdall_gateway.Dict.{Dict, get}
use heimdall_gateway.Router.State.{ReplicaRouterState}
use heimdall_gateway.Router.Requests.{in_flight_of}
use heimdall_gateway.Router.Overrides.{claim_placement_write}
use heimdall_gateway.Runtime.{
  Host, Occupant, is_replica_model_id, effective_model_gpu_set, gpu_occupants, best_alternative_gpu,
}
use heimdall_gateway.Runtime.Texts.{
  placement_safety_vram_mib, placement_per_gpu_overhead_mib, held_text, need_text, detail_text,
  reject_text, pin_text, repin_text, retire_text,
}

pub data Action : Type 0 where
  forward reject repin_then_forward retire_then_forward : Action

pub record PlacementPlan : Type 0 where
  pub action : Action
  pub pinned : List ℕ
  pub occupant : Option Occupant
  pub occupied_mib : ℕ
  pub needed_mib : ℕ
  pub alt_gpu_set : Option (List ℕ)
  pub alt_free_mib : ℕ
  pub short_by_mib : ℕ
  pub message : Option String

unfoldable pub forward_placement : List ℕ → PlacementPlan
forward_placement pinned = record {
  action = forward;
  pinned = pinned;
  occupant = none;
  occupied_mib = 0;
  needed_mib = 0;
  alt_gpu_set = none;
  alt_free_mib = 0;
  short_by_mib = 0;
  message = none;
}

-- What the rest of the program knows of the model that is to be loaded: whether runtime placement
-- is on, and allowed to repin; whether the catalog names the model, and a process runs its weights;
-- whether it has replica slots (`none` when that raises); the static GPU sets; the estimate of its
-- memory; and whether it fits the free memory of a GPU set.
pub record Outlook : Type 0 where
  pub enabled : Bool
  pub may_repin : Bool
  pub in_catalog : Bool
  pub is_running : Bool
  pub has_replica_slots : Option Bool
  pub assigned : Dict String (List ℕ)
  pub estimate_mib : ℕ
  pub fits : List ℕ → Bool

-- the early returns before the pinned GPUs are looked at
unfoldable pub is_left_alone : Outlook → String → Bool
unfolding is_replica_model_id
is_left_alone o model_name =
    not o.enabled
    || (not o.in_catalog || is_replica_model_id model_name)
    || o.is_running
    || or_else o.has_replica_slots true

-- instance_in_flight(entry[0]) > 0
unfoldable pub is_busy : ReplicaRouterState → Occupant → Bool
unfolding in_flight_of
is_busy s entry = not (entry.instance_id == "") && ltb 0 (in_flight_of s entry.instance_id)

unfoldable pub most_used : List Occupant → ℕ
most_used [] = 0
most_used (entry ∷ entries) = max entry.used_mib (most_used entries)

-- the log of the writes of the last hour, the router state, and the plan
abbrev pub Planned : Type 0
Planned = List ℕ × ReplicaRouterState × PlacementPlan

-- `model_has_enough_free_vram_to_load` on the alternative, if there is one
unfoldable pub fits_alternative : Outlook → Option (ℕ × ℕ) → Bool
fits_alternative o none = false
fits_alternative o (some (gpu, free)) = o.fits (gpu ∷ [])

-- `_claim_placement_write` on the alternative GPU
unfoldable pub claim_alternative :
    String → Option (ℕ × ℕ) → ℕ → List ℕ → ReplicaRouterState → List ℕ × ReplicaRouterState × Bool
unfolding claim_placement_write
claim_alternative model_name none now log s = (log, s, false)
claim_alternative model_name (some (gpu, free)) now log s =
    claim_placement_write model_name (gpu ∷ []) now log s

abbrev pub free_on : Option (ℕ × ℕ) → ℕ
free_on none = 0
free_on (some (gpu, free)) = free

abbrev pub gpu_set_of : Option (ℕ × ℕ) → Option (List ℕ)
gpu_set_of none = none
gpu_set_of (some (gpu, free)) = some (gpu ∷ [])

-- the fields that the three plans behind a held pin share
unfoldable pub held_plan : Action → ℕ → Occupant → ℕ → ℕ → Option (ℕ × ℕ) → String → PlacementPlan
held_plan action pin occupant occupied needed alternative message =
    let free = free_on alternative in
    record {
      action = action;
      pinned = pin ∷ [];
      occupant = some occupant;
      occupied_mib = occupied;
      needed_mib = needed;
      alt_gpu_set = gpu_set_of alternative;
      alt_free_mib = free;
      short_by_mib = needed + placement_per_gpu_overhead_mib + placement_safety_vram_mib - free;
      message = some message;
    }

-- what stands in the way: the model to load, its pin, the memory held there, and the free GPU
pub record Obstacle : Type 0 where
  pub model_name : String
  pub pin : ℕ
  pub occupied_mib : ℕ
  pub alternative : Option (ℕ × ℕ)

module _ (show : ℕ → String) (o : Outlook) (x : Obstacle) where
  abbrev required_mib : ℕ
  required_mib = o.estimate_mib + placement_per_gpu_overhead_mib + placement_safety_vram_mib

  -- the plan behind an occupant that serves a request
  unfoldable pub refused_plan : Occupant → ReplicaRouterState → PlacementPlan
  unfolding held_plan held_text detail_text reject_text
  refused_plan occupant s =
      held_plan reject x.pin occupant x.occupied_mib o.estimate_mib x.alternative (
        reject_text show x.model_name x.pin (held_text show s occupant x.occupied_mib)
          (detail_text show x.model_name occupant x.alternative required_mib o.estimate_mib))

  unfoldable pub moving_plan : Action → String → Occupant → ReplicaRouterState → PlacementPlan
  unfolding held_plan held_text need_text pin_text
  moving_plan action text occupant s =
      held_plan action x.pin occupant x.occupied_mib o.estimate_mib x.alternative (
        pin_text show x.model_name x.pin (held_text show s occupant x.occupied_mib)
          (need_text show required_mib o.estimate_mib)
        +++ text)

  unfoldable pub repin_plan : Occupant → ReplicaRouterState → PlacementPlan
  unfolding moving_plan repin_text
  repin_plan occupant s =
      let (gpu, free) = or_else x.alternative (0, 0) in
      moving_plan repin_then_forward (repin_text show gpu free occupant.instance_id) occupant s

  unfoldable pub retire_plan : Occupant → ReplicaRouterState → PlacementPlan
  unfolding moving_plan retire_text
  retire_plan occupant s =
      moving_plan retire_then_forward (retire_text show occupant.instance_id) occupant s

  -- the decision, by the busy occupants of the pinned GPU and the idle ones; the named occupant is
  -- `(busy or idle)[0]`
  unfoldable pub plan_held :
      List Occupant → List Occupant → ℕ → List ℕ → ReplicaRouterState → Planned
  unfolding refused_plan repin_plan retire_plan fits_alternative claim_alternative forward_placement
  plan_held (occupant ∷ busy) idle now log s = (log, s, refused_plan occupant s)
  plan_held [] [] now log s = (log, s, forward_placement (x.pin ∷ []))
  plan_held [] (occupant ∷ idle) now log s =
      let (claimed_log, claimed, granted) =
        claim_alternative x.model_name x.alternative now log s in
      if fits_alternative o x.alternative && o.may_repin
      then if granted
        then (claimed_log, claimed, repin_plan occupant s)
        else (claimed_log, claimed, retire_plan occupant s)
      else (log, s, retire_plan occupant s)

unfoldable pub obstacle_at : Host → String → ℕ → ReplicaRouterState → Obstacle
unfolding gpu_occupants most_used best_alternative_gpu
obstacle_at host model_name pin s =
    let occupants = gpu_occupants host s model_name in
    record {
      model_name = model_name;
      pin = pin;
      occupied_mib = most_used (or_else (get occupants pin) []);
      alternative = best_alternative_gpu host.free_mib (pin ∷ []) occupants;
    }

-- the decision on the GPUs that the model is pinned to
unfoldable pub plan_pinned :
    (ℕ → String) → Host → Outlook → String → List ℕ → ℕ → List ℕ → ReplicaRouterState → Planned
unfolding plan_held obstacle_at is_busy forward_placement gpu_occupants
plan_pinned show host o model_name (pin ∷ []) now log s =
    let occupants = gpu_occupants host s model_name in
    let entries = or_else (get occupants pin) [] in
    if is_empty entries
    then (log, s, forward_placement (pin ∷ []))
    else plan_held show o (obstacle_at host model_name pin s) (filter (is_busy s) entries)
        (filter (λ entry. not (is_busy s entry)) entries) now log s
plan_pinned show host o model_name pinned now log s = (log, s, forward_placement [])

unfoldable pub plan_runtime_placement :
    (ℕ → String) → Host → Outlook → String → ℕ → List ℕ → ReplicaRouterState → Planned
unfolding is_left_alone effective_model_gpu_set plan_pinned forward_placement
plan_runtime_placement show host o model_name now log s =
    if is_left_alone o model_name
    then (log, s, forward_placement [])
    else plan_pinned show host o model_name (effective_model_gpu_set o.assigned model_name now s)
        now log s
