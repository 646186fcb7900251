-- ===== src/Reaper.antt =====
-- cli/daemon.py, the replica reaper: `_replica_retire_reason`, `_replica_reap_plan` and
-- `run_replica_reaper_tick`. The catalog is given as its model ids, each with the `max_idle_s` of its
-- replica configuration (`none` where that raises).
pub mod Quiet
pub mod Alike
pub mod Due
pub mod Steps
use Prim.Native.String.{String, compare}
use Prim.Native.Nat.{Ordering}
use heimdall_gateway.Prelude.{
  ℕ, ◌-◌, ◌*◌, Bool, true, false, ◌&&◌, Option, none, some, List, [], ◌∷◌, ◌++◌, map, ltb, leb,
  nat_eq, if◌then◌else◌, is_some, ◌==◌, nat_key, string_key, any, filter,
}
use heimdall_gateway.Dict.{Dict, get}
use heimdall_gateway.Policy.Targets.{TargetState}
use heimdall_gateway.Policy.Config.{AffinityConfig}
use heimdall_gateway.Router.State.{ReplicaRecord, ReplicaRouterState}
use heimdall_gateway.Router.Prune.{demands}
use heimdall_gateway.Router.Health.{health_of}
use heimdall_gateway.Router.Conflicts.{blocking_conflicting_load}

pub data Reason : Type 0 where
  idle_reason gpu_needed : Reason

-- what `sorted` does to ids: insertion by the order of code points
unfoldable pub insert_id : String → List String → List String
insert_id id [] = id ∷ []
insert_id id (other ∷ ids) =
    let rest = insert_id id ids in
    elim (compare id other) [ Ordering.gt ↦ other ∷ rest | _ ↦ id ∷ other ∷ ids ]

unfoldable pub sorted_ids : List String → List String
unfolding insert_id
sorted_ids [] = []
sorted_ids (id ∷ ids) = insert_id id (sorted_ids ids)

abbrev pub is_ready_state : TargetState → Bool
is_ready_state TargetState.ready = true
is_ready_state _ = false

-- max(0.0, now - rec.last_used)
unfoldable pub idle_time : ℕ → Option ReplicaRecord → ℕ
idle_time now none = 0
idle_time now (some rec) = now - rec.last_used

unfoldable pub gpus_of : Option ReplicaRecord → List ℕ
gpus_of none = []
gpus_of (some rec) = rec.gpu_set

-- a record of this base that serves no request
unfoldable pub is_idle_record : String → Option ReplicaRecord → Bool
is_idle_record base none = false
is_idle_record base (some rec) = rec.base_model_id == base && nat_eq rec.in_flight 0

-- `_replica_reap_plan`, the ids that a model's tick looks at
unfoldable pub idle_replica_ids : String → ReplicaRouterState → List String
unfolding sorted_ids is_idle_record
idle_replica_ids base s =
    sorted_ids
      (filter (λ id. is_idle_record base (get s.records id)) (map (λ entry. entry.0) s.records))

-- what a tick works with: the system calls and settings of `health_of`, and the rendered sets
pub record Daemon : Type 0 where
  pub pid_alive : ℕ → Bool
  pub probe : ℕ → ℕ → Option ℕ
  pub show : ℕ → String
  pub cfg : AffinityConfig
  pub capacity : ℕ
  pub membership : Dict String (List String)

-- a planned retirement: the replica, the reason, and the time that it was idle
abbrev pub Retirement : Type 0
Retirement = String × Reason × ℕ

-- the decision once the replica was measured as loaded
unfoldable pub loaded_reason :
    Daemon → String → String → ℕ → ℕ → ReplicaRouterState → Option (Reason × ℕ)
unfolding idle_time blocking_conflicting_load demands gpus_of
loaded_reason d base replica max_idle_s now s =
    let idle_s = idle_time now (get s.records replica) in
    if ltb 0 max_idle_s && leb (max_idle_s * 1000) idle_s
    then some (idle_reason, idle_s)
    else if is_some (blocking_conflicting_load d.membership base now s)
    then some (gpu_needed, idle_s)
    else if any (demands s now) (gpus_of (get s.records replica))
    then some (gpu_needed, idle_s)
    else none

unfoldable pub replica_retire_reason :
    Daemon → String → String → ℕ → ℕ → ReplicaRouterState → ReplicaRouterState × Option (Reason × ℕ)
unfolding health_of loaded_reason
replica_retire_reason d base replica max_idle_s now s =
    let (t, health) = health_of d.pid_alive d.probe d.show d.cfg replica d.capacity now s in
    if is_ready_state health.state
    then (t, loaded_reason d base replica max_idle_s now t)
    else (t, none)

-- `if reason: plans.append((replica_id, reason, idle_s))`
unfoldable pub planned : String → Option (Reason × ℕ) → List Retirement
planned replica none = []
planned replica (some (reason, idle_s)) = (replica, reason, idle_s) ∷ []

-- the loop over the idle replicas of a model
unfoldable pub plan_replicas :
    Daemon
    → String
    → ℕ
    → ℕ
    → List String
    → ReplicaRouterState
    → ReplicaRouterState × List Retirement
unfolding replica_retire_reason planned
plan_replicas d base max_idle_s now [] s = (s, [])
plan_replicas d base max_idle_s now (id ∷ ids) s =
    let (t, reason) = replica_retire_reason d base id max_idle_s now s in
    let (u, plans) = plan_replicas d base max_idle_s now ids t in (u, planned id reason ++ plans)

-- a model whose replicas the tick looks at, with its limit
unfoldable pub limit_of : String × Option ℕ → ℕ
limit_of (base, none) = 0
limit_of (base, some limit) = if base == "" then 0 else limit

unfoldable pub replica_reap_plan :
    Daemon
    → List (String × Option ℕ)
    → ℕ
    → ReplicaRouterState
    → ReplicaRouterState × List Retirement
unfolding limit_of idle_replica_ids plan_replicas
replica_reap_plan d [] now s = (s, [])
replica_reap_plan d ((base, max_idle) ∷ catalog) now s =
    let limit = limit_of (base, max_idle) in
    let (t, plans) =
      if ltb 0 limit then plan_replicas d base limit now (idle_replica_ids base s) s else (s, []) in
    let (u, more) = replica_reap_plan d catalog now t in (u, plans ++ more)

-- the replicas that llama-swap unloaded, of those that it was asked to
unfoldable pub run_replica_reaper_tick :
    (String → Bool)
    → Daemon
    → List (String × Option ℕ)
    → ℕ
    → ReplicaRouterState
    → ReplicaRouterState × List String
unfolding replica_reap_plan
run_replica_reaper_tick unloads d catalog now s =
    let (t, plans) = replica_reap_plan d catalog now s in
    (t, filter unloads (map (λ (plan : Retirement). plan.0) plans))
