-- ===== src/Router/Health.antt =====
-- _cli_impl.py: `ReplicaRouterState.health_of`. `capacity` is _replica_target_capacity(); what the
-- operating system and GET /health answer are arguments, as in the probe itself.
pub mod Evidence
use heimdall_gateway.Prelude.{
  ℕ, ◌+◌, max, String, Bool, true, false, not, ◌&&◌, Option, none, some, ltb, if◌then◌else◌, ◌==◌,
  nat_key, string_key,
}
use heimdall_gateway.Dict.{get, put, pop}
use heimdall_gateway.Policy.Targets.{TargetState, ready, TargetHealth}
use heimdall_gateway.Policy.Config.{AffinityConfig}
use heimdall_gateway.Policy.Probe.{probe_target_health}
use heimdall_gateway.Router.State.{
  RecordStatus, status_ready, status_error, ReplicaRecord, ReplicaRouterState,
}
use heimdall_gateway.Router.Requests.{in_flight_of}

-- int(rec.pid or 0)
abbrev pub positive_or_zero : Option ℕ → ℕ
positive_or_zero none = 0
positive_or_zero (some n) = n

abbrev pub is_ready : RecordStatus → Bool
is_ready status_ready = true
is_ready _ = false

-- a target with no record, or one whose process or port is not known
unfoldable pub unprobed : String → ℕ → ReplicaRouterState → Option ReplicaRecord → TargetHealth
unprobed target capacity s rec = record {
  target = target;
  state = elim rec [ none ↦ TargetState.cold | some r ↦ TargetState.ready ];
  in_flight = in_flight_of s target;
  capacity = max 1 capacity;
  confirmed_dead = false;
  blacklist_until = elim rec [ none ↦ 0 | some r ↦ r.blacklist_until ];
  detail = "";
}

-- cached[0] > now and cached[1].detail != "dead"
unfoldable pub fresh : ℕ → Option (ℕ × TargetHealth) → Option TargetHealth
fresh now none = none
fresh now (some (expires, health)) =
    if ltb now expires && not (health.detail == "dead") then some health else none

module _ (pid_alive : ℕ → Bool) (probe : ℕ → ℕ → Option ℕ) (show : ℕ → String) where
  -- what a probe measured is written to the record and to the cache
  unfoldable pub remember :
      AffinityConfig
      → String
      → ℕ
      → ReplicaRecord
      → TargetHealth
      → ReplicaRouterState
      → ReplicaRouterState
  remember cfg target now rec health s =
      if health.confirmed_dead
      then record s {
        records = put s.records target (record rec { status = status_error });
        health_cache = pop s.health_cache target;
      }
      else record s {
        records =
            put s.records target
              (record rec { status = elim health.state [ ready ↦ status_ready | _ ↦ rec.status ] });
        health_cache = put s.health_cache target (now + cfg.probe_interval, health);
      }

  unfoldable pub probed :
      AffinityConfig → String → ℕ → ReplicaRouterState → ReplicaRecord → TargetHealth
  probed cfg target capacity s rec =
      probe_target_health pid_alive probe show target (positive_or_zero rec.pid)
        (positive_or_zero rec.port)
        (if is_ready rec.status then TargetState.ready else TargetState.cold) rec.in_flight
        (max 1 capacity) rec.blacklist_until cfg.probe_timeout

  unfoldable pub measure :
      AffinityConfig
      → String
      → ℕ
      → ℕ
      → ReplicaRouterState
      → ReplicaRecord
      → ReplicaRouterState × TargetHealth
  unfolding fresh remember probed
  measure cfg target capacity now s rec = elim (fresh now (get s.health_cache target)) [
    | some health ↦ (s, health)
    | none ↦
        let health = probed cfg target capacity s rec in
        (remember cfg target now rec health s, health)
  ]

  abbrev pub has_process : ReplicaRecord → Bool
  has_process rec = ltb 0 (positive_or_zero rec.pid) && ltb 0 (positive_or_zero rec.port)

  unfoldable pub health_of :
      AffinityConfig → String → ℕ → ℕ → ReplicaRouterState → ReplicaRouterState × TargetHealth
  unfolding unprobed measure
  health_of cfg target capacity now s = elim (get s.records target) [
    | none ↦ (s, unprobed target capacity s none)
    | some rec ↦
        if has_process rec
        then measure cfg target capacity now s rec
        else (s, unprobed target capacity s (some rec))
  ]
