-- ===== src/Runtime/Safety.antt =====
-- _cli_impl.py, runtime placement: what the plans and the retirement of occupants never touch.
use Prim.Native.String.{String}
use heimdall_gateway.Prelude.{
  ℕ, ◌≡◌, inl, inr, Bool, false, not, ◌&&◌, some, List, [], ◌∷◌, arith, ltb, Bool-cases,
  Option-cases, or_else, ◌==◌, nat_key, string_key, All, append-All,
}
use heimdall_gateway.Dict.{Dict, get, get-put}
use heimdall_gateway.Router.State.{ReplicaRouterState}
use heimdall_gateway.Router.Requests.{in_flight_of}
use heimdall_gateway.Runtime.{
  Host, Occupant, base_of, other_instance, add_occupants, collect_occupants, gpu_occupants,
}
use heimdall_gateway.Runtime.Plan.{PlacementPlan, is_busy}
use heimdall_gateway.Runtime.Retire.{instances_to_unload, retire_on, retire_idle_occupants}

-- an occupant of another model than this one and its replicas
abbrev pub IsOther : String → Occupant → Type 0
IsOther model_id entry = (base_of entry.instance_id == base_of model_id) ≡ false

abbrev OnlyOthers : String → Dict ℕ (List Occupant) → Type 0
OnlyOthers model_id occupants = (gpu : ℕ) → All (IsOther model_id) (or_else (get occupants gpu) [])

other_instance-IsOther :
    (host : Host) (s : ReplicaRouterState) (model_id running : String) (pid : ℕ)
    → other_instance host s model_id pid ≡ some running
    → (base_of running == base_of model_id) ≡ false
unfolding other_instance
other_instance-IsOther host s model_id running pid e =
    elim (Option-cases (get host.model_path_by_pid pid)) [
      | inl f ↦ ground (arith, f)
      | inr (path, f) ↦ ground (arith, f)
    ]

add_occupants-OnlyOthers :
    (model_id running : String) (pid : ℕ) (per_gpu : Dict ℕ ℕ) (occupants : Dict ℕ (List Occupant))
    → (base_of running == base_of model_id) ≡ false
    → OnlyOthers model_id occupants
    → OnlyOthers model_id (add_occupants running pid per_gpu occupants)
unfolding add_occupants
add_occupants-OnlyOthers model_id running pid [] occupants other holds = holds
add_occupants-OnlyOthers model_id running pid ((gpu, used) ∷ per_gpu) occupants other holds =
    add_occupants-OnlyOthers model_id running pid per_gpu _ other λ g.
      elim (Bool-cases (gpu == g)) [
        | inl e ↦
            rw (get-put occupants gpu g, e)
              (append-All (IsOther model_id) (or_else (get occupants gpu) []) _ (holds gpu)
                (other, tt))
        | inr e ↦ rw (get-put occupants gpu g, e) (holds g)
      ]

collect_occupants-OnlyOthers :
    (host : Host) (s : ReplicaRouterState) (model_id : String) (memory : Dict ℕ (Dict ℕ ℕ))
    (occupants : Dict ℕ (List Occupant))
    → OnlyOthers model_id occupants
    → OnlyOthers model_id (collect_occupants host s model_id memory occupants)
unfolding collect_occupants
collect_occupants-OnlyOthers host s model_id [] occupants holds = holds
collect_occupants-OnlyOthers host s model_id ((pid, per_gpu) ∷ memory) occupants holds =
    elim (Option-cases (other_instance host s model_id pid)) [
      | inl e ↦
          rw (collect_occupants, e)
            (collect_occupants-OnlyOthers host s model_id memory occupants holds)
      | inr (running, e) ↦
          rw (collect_occupants, e)
            (collect_occupants-OnlyOthers host s model_id memory _ (
              add_occupants-OnlyOthers model_id running pid per_gpu occupants
                (other_instance-IsOther host s model_id running pid e) holds))
    ]

gpu_occupants-OnlyOthers :
    (host : Host) (s : ReplicaRouterState) (model_id : String)
    → OnlyOthers model_id (gpu_occupants host s model_id)
unfolding gpu_occupants get
gpu_occupants-OnlyOthers host s model_id =
    collect_occupants-OnlyOthers host s model_id host.memory_by_pid [] (λ gpu. tt)

-- an instance that no request runs on, of another model
abbrev pub IsExpendable : ReplicaRouterState → String → String → Type 0
IsExpendable s model_id id =
    ((not (id == "") && ltb 0 (in_flight_of s id)) ≡ false)
    × ((base_of id == base_of model_id) ≡ false)

instances_to_unload-All :
    (s : ReplicaRouterState) (model_id : String) (entries : List Occupant)
    → All (IsOther model_id) entries
    → All (IsExpendable s model_id) (instances_to_unload s entries)
unfolding instances_to_unload is_busy
instances_to_unload-All s model_id [] holds = tt
instances_to_unload-All s model_id (entry ∷ entries) (other, holds) =
    elim (Bool-cases (is_busy s entry)) [
      | inl e ↦ rw e (instances_to_unload-All s model_id entries holds)
      | inr e ↦ rw e ((e, other), instances_to_unload-All s model_id entries holds)
    ]

retire_on-IsExpendable :
    (unloads : String → Bool) (host : Host) (pinned : List ℕ) (model_name : String)
    (s : ReplicaRouterState)
    → All (IsExpendable s model_name) (retire_on unloads host pinned model_name s).0
unfolding retire_on
retire_on-IsExpendable unloads host [] model_name s = tt
retire_on-IsExpendable unloads host (pin ∷ pinned) model_name s =
    instances_to_unload-All s model_name _ (gpu_occupants-OnlyOthers host s model_name pin)

-- Whatever the plan and the machine's state, to make room for a model only instances are unloaded
-- that serve no request, and neither the model itself nor its replicas.
pub retire_idle_occupants-IsExpendable :
    (unloads : String → Bool) (host : Host) (plan : PlacementPlan) (model_name : String)
    (s : ReplicaRouterState)
    → All (IsExpendable s model_name) (retire_idle_occupants unloads host plan model_name s).0
unfolding retire_idle_occupants
retire_idle_occupants-IsExpendable unloads host plan model_name s =
    retire_on-IsExpendable unloads host plan.pinned model_name s
