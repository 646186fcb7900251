-- ===== src/Router/Sync.antt =====
-- _cli_impl.py: `sync_replica_runtime_state`, which brings the records of the replicas in line with
-- the processes that run, and `_find_llama_server_process_for_replica`. The replicas that the catalog
-- asks for, the ports of the configuration, the processes and their memory come from outside.
pub mod Found
pub mod Counts
use Prim.Native.String.{String}
use heimdall_gateway.Prelude.{
  ℕ, zero, suc, ◌+◌, Bool, false, ◌&&◌, ◌||◌, Option, none, some, List, [], ◌∷◌, map, nat_eq,
  if◌then◌else◌, or_else, ◌==◌, nat_key, string_key, is_empty, any, all,
}
use heimdall_gateway.Dict.{Dict, get, put}
use heimdall_gateway.Router.State.{
  RecordStatus, status_cold, status_loading, status_ready, status_error, ReplicaRecord, new_record,
  ReplicaRouterState,
}

pub record Process : Type 0 where
  pub pid : ℕ
  pub port : Option ℕ
  pub model_path : String

-- a replica that the catalog asks for, with the path of its model
pub record PlannedReplica : Type 0 where
  pub base_model_id : String
  pub replica_model_id : String
  pub model_path : String
  pub gpu_set : List ℕ

-- what a call finds: the configured ports, the processes, and the memory of each by GPU
pub record Observed : Type 0 where
  pub ports : Dict String ℕ
  pub processes : List Process
  pub memory_by_pid : Dict ℕ (Dict ℕ ℕ)

abbrev pub subset_of : List ℕ → List ℕ → Bool
subset_of gpus others = all (λ gpu. any (λ other. nat_eq other gpu) others) gpus

-- `actual_gpus == expected_gpus`, as sets
abbrev pub same_gpus : List ℕ → List ℕ → Bool
same_gpus gpus others = subset_of gpus others && subset_of others gpus

abbrev pub memory_of : Observed → Process → Dict ℕ ℕ
memory_of o p = or_else (get o.memory_by_pid p.pid) []

abbrev pub gpus_in_use : Observed → Process → List ℕ
gpus_in_use o p = map (λ entry. entry.0) (memory_of o p)

abbrev pub has_port : Option ℕ → Option ℕ → Bool
has_port none port = false
has_port (some preferred) none = false
has_port (some preferred) (some port) = nat_eq port preferred

-- a process at the preferred port
unfoldable pub matches_port : Observed → PlannedReplica → Option ℕ → Process → Bool
matches_port o r preferred p =
    has_port preferred p.port
    && p.model_path == r.model_path
    && (is_empty r.gpu_set || same_gpus (gpus_in_use o p) r.gpu_set)

unfoldable pub matches_gpus : Observed → PlannedReplica → Process → Bool
matches_gpus o r p = p.model_path == r.model_path && same_gpus (gpus_in_use o p) r.gpu_set

unfoldable pub first_process : (Process → Bool) → List Process → Option Process
first_process p [] = none
first_process p (process ∷ processes) =
    let later = first_process p processes in if p process then some process else later

abbrev pub or_other : Option Process → Option Process → Option Process
or_other none other = other
or_other (some p) other = some p

unfoldable pub find_process : Observed → PlannedReplica → Option ℕ → Option Process
unfolding first_process matches_port matches_gpus
find_process o r preferred =
    or_other (first_process (matches_port o r preferred) o.processes)
      (first_process (matches_gpus o r) o.processes)

-- `int(port or configured_port or 0) or configured_port`
abbrev pub port_or : Option ℕ → Option ℕ → Option ℕ
port_or none configured = configured
port_or (some zero) configured = configured
port_or (some (suc n)) configured = some (suc n)

unfoldable pub sum_mib : Dict ℕ ℕ → ℕ
sum_mib [] = 0
sum_mib ((gpu, mib) ∷ memory) = mib + sum_mib memory

-- `status in {"cold", "loading", "error"}` becomes "ready"
abbrev pub running_status : RecordStatus → RecordStatus
running_status status_cold = status_ready
running_status status_loading = status_ready
running_status status_error = status_ready
running_status status_ready = status_ready

abbrev pub stopped_status : RecordStatus → RecordStatus
stopped_status status_ready = status_cold
stopped_status status = status

unfoldable pub synced_record :
    ℕ → Observed → Option ℕ → Option Process → ReplicaRecord → ReplicaRecord
unfolding sum_mib
synced_record now o configured (some p) rec = record rec {
  pid = some p.pid;
  port = port_or p.port configured;
  gpu_actual_mib = memory_of o p;
  actual_mib = if is_empty (memory_of o p) then none else some (sum_mib (memory_of o p));
  status = running_status rec.status;
  last_used = if nat_eq rec.last_used 0 then now else rec.last_used;
}
synced_record now o configured none rec = record rec {
  pid = none;
  port = configured;
  gpu_actual_mib = [];
  actual_mib = none;
  status = stopped_status rec.status;
}

-- `setdefault`, and the GPUs that the replica has now
abbrev pub planned_record : PlannedReplica → Option ReplicaRecord → ReplicaRecord
planned_record r none = new_record r.base_model_id r.replica_model_id r.gpu_set
planned_record r (some rec) = record rec { gpu_set = r.gpu_set }

unfoldable pub sync_one : ℕ → Observed → PlannedReplica → ReplicaRouterState → ReplicaRouterState
unfolding find_process synced_record
sync_one now o r s =
    let rec = planned_record r (get s.records r.replica_model_id) in
    let configured = get o.ports r.replica_model_id in
    record s {
      records =
          put s.records r.replica_model_id
            (synced_record now o configured (find_process o r configured) rec);
    }

unfoldable pub sync_replica_runtime_state :
    ℕ → Observed → List PlannedReplica → ReplicaRouterState → ReplicaRouterState
unfolding sync_one
sync_replica_runtime_state now o [] s = s
sync_replica_runtime_state now o (r ∷ replicas) s =
    sync_replica_runtime_state now o replicas (sync_one now o r s)
