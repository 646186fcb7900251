-- ===== src/Reaper/Steps.antt =====
-- cli/daemon.py: a tick of the replica reaper as a run of the steps of the router.
use heimdall_gateway.Router.Steps.{measures, done}
use Prim.Native.String.{String}
use heimdall_gateway.Prelude.{
  ℕ, refl, Bool, Option, List, [], ◌∷◌, ltb, if◌then◌else◌, if_elim, nat_key, string_key,
}
use heimdall_gateway.Router.State.{ReplicaRouterState}
use heimdall_gateway.Router.Health.{health_of}
use heimdall_gateway.Router.Steps.{Run}
use heimdall_gateway.Router.Steps.Runs.{quiet-Run, Run-trans}
use heimdall_gateway.Reaper.{
  Reason, is_ready_state, idle_replica_ids, Daemon, Retirement, replica_retire_reason,
  plan_replicas, limit_of, replica_reap_plan, run_replica_reaper_tick,
}

module _ (limit : ℕ) (d : Daemon) (now : ℕ) where
  replica_retire_reason-Run :
      (base replica : String) (max_idle_s : ℕ) (s : ReplicaRouterState)
      → Run limit d.cfg s (replica_retire_reason d base replica max_idle_s now s).0
  unfolding replica_retire_reason
  replica_retire_reason-Run base replica max_idle_s s =
      let measured =
        quiet-Run limit d.cfg s _ (measures d.pid_alive d.probe d.show replica d.capacity now)
          refl in
      let health = (health_of d.pid_alive d.probe d.show d.cfg replica d.capacity now s).1 in
      if_elim {A = ReplicaRouterState × Option (Reason × ℕ)} (λ m. Run limit d.cfg s m.0)
        (is_ready_state health.state) _ _ measured measured

  plan_replicas-Run :
      (base : String) (max_idle_s : ℕ) (ids : List String) (s : ReplicaRouterState)
      → Run limit d.cfg s (plan_replicas d base max_idle_s now ids s).0
  unfolding plan_replicas
  plan_replicas-Run base max_idle_s [] s = done
  plan_replicas-Run base max_idle_s (id ∷ ids) s =
      let t = (replica_retire_reason d base id max_idle_s now s).0 in
      Run-trans limit d.cfg s t _ (replica_retire_reason-Run base id max_idle_s s)
        (plan_replicas-Run base max_idle_s ids t)

  replica_reap_plan-Run :
      (catalog : List (String × Option ℕ)) (s : ReplicaRouterState)
      → Run limit d.cfg s (replica_reap_plan d catalog now s).0
  unfolding replica_reap_plan
  replica_reap_plan-Run [] s = done
  replica_reap_plan-Run ((base, max_idle) ∷ catalog) s =
      let max_idle_s = limit_of (base, max_idle) in
      let ids = idle_replica_ids base s in
      let planned : ReplicaRouterState × List Retirement =
        if ltb 0 max_idle_s then plan_replicas d base max_idle_s now ids s else (s, []) in
      Run-trans limit d.cfg s planned.0 _
        (if_elim {A = ReplicaRouterState × List Retirement} (λ m. Run limit d.cfg s m.0)
          (ltb 0 max_idle_s) _ _ (plan_replicas-Run base max_idle_s ids s) done)
        (replica_reap_plan-Run catalog planned.0)

  -- A tick of the reaper is a run of the steps of the router, none of which begins or ends a request,
  -- whatever llama-swap answers.
  pub run_replica_reaper_tick-Run :
      (unloads : String → Bool) (catalog : List (String × Option ℕ)) (s : ReplicaRouterState)
      → Run limit d.cfg s (run_replica_reaper_tick unloads d catalog now s).0
  unfolding run_replica_reaper_tick
  run_replica_reaper_tick-Run unloads catalog s = replica_reap_plan-Run catalog s
