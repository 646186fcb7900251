-- ===== src/Tests/Sync.antt =====
-- A synchronisation at a concrete input: a replica that failed runs again, another has stopped.
use heimdall_gateway.Prelude.{
  ◌≡◌, refl, true, none, some, List, [], ◌∷◌, map, nat_key, string_key, All,
}
use heimdall_gateway.Dict.{get, put}
use heimdall_gateway.Router.State.{
  status_ready, status_error, ReplicaRecord, new_record, ReplicaRouterState, new_state,
}
use heimdall_gateway.Router.Sync.{
  PlannedReplica, Observed, matches_port, matches_gpus, first_process, find_process, sum_mib,
  synced_record, sync_one, sync_replica_runtime_state,
}
use heimdall_gateway.Router.Sync.Found.{agrees, sync_replica_runtime_state-agrees}

abbrev failed : ReplicaRecord
failed = record (new_record "m" "m@1" (1 ∷ [])) { status = status_error; fatal_faults = 2 }

abbrev loaded : ReplicaRecord
loaded = record (new_record "m" "m@2" (2 ∷ [])) {
  status = status_ready;
  pid = some 8;
  in_flight = 1;
}

abbrev before_sync : ReplicaRouterState
before_sync = record new_state { records = ("m@1", failed) ∷ ("m@2", loaded) ∷ [] }

abbrev replicas : List PlannedReplica
replicas =
    record {
      base_model_id = "m";
      replica_model_id = "m@1";
      model_path = "/models/m.gguf";
      gpu_set = 1 ∷ [];
    }
    ∷ record {
      base_model_id = "m";
      replica_model_id = "m@2";
      model_path = "/models/m.gguf";
      gpu_set = 2 ∷ [];
    }
    ∷ []

abbrev observed : Observed
observed = record {
  ports = ("m@1", 5801) ∷ ("m@2", 5802) ∷ [];
  processes = record { pid = 7; port = some 5801; model_path = "/models/m.gguf" } ∷ [];
  memory_by_pid = (7, (1, 9000) ∷ []) ∷ [];
}

ready_after :
    map (λ entry. entry.1.pid) (sync_replica_runtime_state 50 observed replicas before_sync).records
    ≡ some 7 ∷ none ∷ []
unfolding sync_replica_runtime_state sync_one find_process first_process matches_port matches_gpus
    synced_record sum_mib get put
ready_after = refl

sync_replica_runtime_state-agrees_example :
    All
      (λ r.
        agrees (
          get
            (sync_replica_runtime_state 50 observed replicas before_sync).records
            r.replica_model_id)
        ≡ true)
      replicas
sync_replica_runtime_state-agrees_example =
    sync_replica_runtime_state-agrees 50 observed replicas before_sync
