-- ===== src/Runtime.antt =====
-- _cli_impl.py, runtime placement: `_gpu_occupants`, `best_alternative_gpu`, `effective_model_gpu_set`
-- and what they read. Amounts of memory are whole MiB.
pub mod Texts
pub mod Plan
pub mod Retire
pub mod Probe
pub mod Gate
pub mod Safety
pub mod Decision
pub mod Moves
pub mod Overriding
pub mod Turned
pub mod Steps
use Prim.Native.String.{String}
use heimdall_gateway.Prelude.{
  ℕ, Bool, false, not, ◌||◌, Option, none, some, List, [], ◌∷◌, ◌++◌, ltb, leb, if◌then◌else◌,
  or_else, ◌==◌, nat_key, string_key, is_empty, contains,
}
use heimdall_gateway.Dict.{Dict, get, put}
use heimdall_gateway.Prelude.Text.{codes}
use heimdall_gateway.Router.State.{ReplicaRecord, ReplicaRouterState}
use heimdall_gateway.Router.Prune.{live_gpu_override}
use heimdall_gateway.Router.Conflicts.{is_replica_tag, replica_base_model_id}

-- What the machine answers at one moment: the memory that each process holds on each GPU, the
-- ollama processes, the llama-server processes with the weights that they run, the model of each
-- weights file in the catalog, and the free memory of each GPU.
pub record Host : Type 0 where
  pub memory_by_pid : Dict ℕ (Dict ℕ ℕ)
  pub is_ollama : ℕ → Bool
  pub model_path_by_pid : Dict ℕ String
  pub model_by_path : Dict String String
  pub free_mib : Dict ℕ ℕ

-- a tuple (running_model, pid, used_mib)
pub record Occupant : Type 0 where
  pub instance_id : String
  pub pid : ℕ
  pub used_mib : ℕ

-- re.search(r"__replica_\d+$", model_id)
unfoldable pub is_replica_model_id : String → Bool
unfolding is_replica_tag
is_replica_model_id String.[] = false
is_replica_model_id (String.◌∷◌ c text) =
    is_replica_tag (codes (String.◌∷◌ c text)) || is_replica_model_id text

unfoldable pub base_of : String → String
unfolding is_replica_model_id replica_base_model_id
base_of id = if is_replica_model_id id then replica_base_model_id id else id

unfoldable pub effective_model_gpu_set :
    Dict String (List ℕ) → String → ℕ → ReplicaRouterState → List ℕ
unfolding live_gpu_override
effective_model_gpu_set assigned model_id now s = elim (live_gpu_override model_id now s) [
  | some (gpu ∷ gpus) ↦ gpu ∷ gpus
  | _ ↦ or_else (get assigned model_id) []
]

-- the loop that fills `instance_id_by_pid`
unfoldable pub instances_by_pid : Dict String ReplicaRecord → Dict ℕ String → Dict ℕ String
instances_by_pid [] found = found
instances_by_pid ((id, rec) ∷ records) found =
    instances_by_pid records
      (if ltb 0 (or_else rec.pid 0) then put found (or_else rec.pid 0) id else found)

-- `instance_id_by_pid.get(pid) or model_by_path.get(process.get("model_path") or "")`, where an
-- empty name is no name
unfoldable pub running_on : Host → ReplicaRouterState → ℕ → String → String
unfolding instances_by_pid
running_on host s pid path =
    let instance = or_else (get (instances_by_pid s.records []) pid) "" in
    if instance == "" then or_else (get host.model_by_path path) "" else instance

-- the instance that a process counts for, if it is another model's
unfoldable pub other_instance : Host → ReplicaRouterState → String → ℕ → Option String
unfolding running_on base_of
other_instance host s model_id pid =
    if host.is_ollama pid then none else elim (get host.model_path_by_pid pid) [
      | none ↦ none
      | some path ↦
          let running = running_on host s pid path in
          if running == "" || running == model_id || base_of running == base_of model_id
          then none
          else some running
    ]

-- `occupants.setdefault(gpu, []).append((running, pid, used_mib))`
unfoldable pub add_occupants :
    String → ℕ → Dict ℕ ℕ → Dict ℕ (List Occupant) → Dict ℕ (List Occupant)
add_occupants running pid [] occupants = occupants
add_occupants running pid ((gpu, used) ∷ per_gpu) occupants = add_occupants running pid per_gpu (
    put occupants gpu (
      or_else (get occupants gpu) []
      ++ record { instance_id = running; pid = pid; used_mib = used } ∷ []))

-- the loop over the processes that hold GPU memory
unfoldable pub collect_occupants :
    Host
    → ReplicaRouterState
    → String
    → Dict ℕ (Dict ℕ ℕ)
    → Dict ℕ (List Occupant)
    → Dict ℕ (List Occupant)
unfolding other_instance add_occupants
collect_occupants host s model_id [] occupants = occupants
collect_occupants host s model_id ((pid, per_gpu) ∷ memory) occupants =
    collect_occupants host s model_id memory (elim (other_instance host s model_id pid) [
      | none ↦ occupants
      | some running ↦ add_occupants running pid per_gpu occupants
    ])

unfoldable pub gpu_occupants : Host → ReplicaRouterState → String → Dict ℕ (List Occupant)
unfolding collect_occupants
gpu_occupants host s model_id = collect_occupants host s model_id host.memory_by_pid []

-- the smaller GPU of an entry and what is found so far
unfoldable pub smaller : ℕ → ℕ → Option (ℕ × ℕ) → Option (ℕ × ℕ)
smaller gpu free none = some (gpu, free)
smaller gpu free (some (other, other_free)) =
    if leb gpu other then some (gpu, free) else some (other, other_free)

-- the entry of the smallest GPU of the snapshot that is neither pinned nor held: the first in
-- `sorted(snapshot)`
unfoldable pub best_alternative_gpu : Dict ℕ ℕ → List ℕ → Dict ℕ (List Occupant) → Option (ℕ × ℕ)
unfolding smaller
best_alternative_gpu [] pinned occupants = none
best_alternative_gpu ((gpu, free) ∷ snapshot) pinned occupants =
    let best = best_alternative_gpu snapshot pinned occupants in
    if contains pinned gpu || not (is_empty (or_else (get occupants gpu) []))
    then best
    else smaller gpu free best
