-- ===== src/Router/State.antt =====
-- cli/models.py: `ReplicaRecord`; _cli_impl.py: the fields of `ReplicaRouterState`.
-- The GPU memory snapshot and the two vision maps are left out: no method modelled here reads them.
use heimdall_gateway.Prelude.{ℕ, String, Option, none, List, [], nat_key, string_key}
use heimdall_gateway.Dict.{Dict}
use heimdall_gateway.Policy.Targets.{TargetHealth}
use heimdall_gateway.Policy.Transfer.{TransferBudget}

pub data RecordStatus : Type 0 where
  status_cold status_loading status_ready status_error : RecordStatus

pub record ReplicaRecord : Type 0 where
  pub base_model_id : String
  pub replica_model_id : String
  pub gpu_set : List ℕ
  pub status : RecordStatus
  pub estimated_mib : Option ℕ
  pub actual_mib : Option ℕ
  pub gpu_actual_mib : Dict ℕ ℕ
  pub pid : Option ℕ
  pub port : Option ℕ
  pub in_flight : ℕ
  pub last_used : ℕ
  pub blacklist_until : ℕ
  pub fatal_faults : ℕ

abbrev pub new_record : String → String → List ℕ → ReplicaRecord
new_record base_model_id replica_model_id gpu_set = record {
  base_model_id = base_model_id;
  replica_model_id = replica_model_id;
  gpu_set = gpu_set;
  status = status_cold;
  estimated_mib = none;
  actual_mib = none;
  gpu_actual_mib = [];
  pid = none;
  port = none;
  in_flight = 0;
  last_used = 0;
  blacklist_until = 0;
  fatal_faults = 0;
}

-- A value with a deadline is a pair of the two.
pub record ReplicaRouterState : Type 0 where
  pub records : Dict String ReplicaRecord
  pub base_in_flight : Dict String ℕ
  pub base_last_used : Dict String ℕ
  pub affinity : Dict String (String × ℕ)
  pub response_to_replica : Dict String (String × ℕ)
  pub loading_claims : Dict String ℕ
  pub loading_claim_aliases : Dict String String
  pub gpu_demand : Dict ℕ ℕ
  pub gpu_override : Dict String (List ℕ × ℕ)
  pub gpu_override_written_at : Dict String ℕ
  pub affinity_budget : Dict String TransferBudget
  pub health_cache : Dict String (ℕ × TargetHealth)

abbrev pub new_state : ReplicaRouterState
new_state = record {
  records = [];
  base_in_flight = [];
  base_last_used = [];
  affinity = [];
  response_to_replica = [];
  loading_claims = [];
  loading_claim_aliases = [];
  gpu_demand = [];
  gpu_override = [];
  gpu_override_written_at = [];
  affinity_budget = [];
  health_cache = [];
}
