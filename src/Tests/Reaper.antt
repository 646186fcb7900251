-- ===== src/Tests/Reaper.antt =====
-- A tick of the replica reaper at a concrete input: m has a loaded replica, unused for 700 s.
use heimdall_gateway.Prelude.{◌≡◌, refl, true, false, none, some, [], ◌∷◌, nat_key, string_key, All}
use heimdall_gateway.Dict.{get, put}
use heimdall_gateway.Policy.Config.{AffinityConfig}
use heimdall_gateway.Policy.Probe.{probe_target_health}
use heimdall_gateway.Router.State.{status_ready, new_record, ReplicaRouterState, new_state}
use heimdall_gateway.Router.Health.{fresh, remember, probed, measure, health_of}
use heimdall_gateway.Reaper.{
  insert_id, sorted_ids, idle_time, is_idle_record, idle_replica_ids, Daemon, loaded_reason,
  replica_retire_reason, planned, plan_replicas, limit_of, replica_reap_plan,
  run_replica_reaper_tick,
}
use heimdall_gateway.Reaper.Due.{IsRetired, replica_reap_plan-IsRetired}

abbrev settings : AffinityConfig
settings = record {
  min_dwell = 120000;
  max_transfers = 2;
  max_hard_transfers = 5;
  evacuate_cooldown = 300000;
  saturated_target = "retry";
  queue_max_wait_ms = 0;
  queue_max_depth = 0;
  allow_suspected_transfers = false;
  probe_interval = 10000;
  probe_timeout = 1500;
}

-- a conversation bound to "a" at time 0 for an hour
abbrev daemon_of_test : Daemon
daemon_of_test = record {
  pid_alive = λ pid. true;
  probe = λ port timeout. some 200;
  show = λ n. "n";
  cfg = settings;
  capacity = 4;
  membership = [];
}

abbrev with_replica : ReplicaRouterState
with_replica = record new_state {
  records =
      (
        "m__replica_1",
        record (new_record "m" "m__replica_1" (1 ∷ [])) {
          status = status_ready;
          pid = some 7;
          port = some 8001;
          last_used = 300000;
        },
      )
      ∷ [];
}

tick_runs :
    (run_replica_reaper_tick
      (λ id. true)
      daemon_of_test
      (("m", some 600) ∷ ("n", none) ∷ [])
      1000000
      with_replica).1
    ≡ "m__replica_1" ∷ []
unfolding run_replica_reaper_tick replica_reap_plan limit_of idle_replica_ids sorted_ids insert_id
    is_idle_record plan_replicas replica_retire_reason loaded_reason idle_time planned health_of
    measure fresh remember probed probe_target_health get put
tick_runs = refl

replica_reap_plan-IsRetired_example :
    All
      (IsRetired daemon_of_test (("m", some 600) ∷ ("n", none) ∷ []) 1000000 with_replica)
      (replica_reap_plan daemon_of_test (("m", some 600) ∷ ("n", none) ∷ []) 1000000 with_replica).1
replica_reap_plan-IsRetired_example =
    replica_reap_plan-IsRetired daemon_of_test (("m", some 600) ∷ ("n", none) ∷ []) 1000000
      with_replica
