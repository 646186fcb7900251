-- ===== src/Router/Health/Evidence.antt =====
-- _cli_impl.py, `ReplicaRouterState.health_of`: what a measurement is evidence of.
use heimdall_gateway.Prelude.{
  ℕ, ◌+◌, ◌<◌, String, ◌≡◌, refl, ◌⊎◌, inl, inr, Bool, true, false, Option, none, some, arith,
  eq_iff, Option-cases, if_elim, nat_key, string_key,
}
use heimdall_gateway.Dict.{get, get-put, get-pop}
use heimdall_gateway.Policy.Targets.{ready, TargetHealth}
use heimdall_gateway.Policy.Config.{AffinityConfig}
use heimdall_gateway.Policy.Probe.{probe_target_health-dead_iff}
use heimdall_gateway.Router.State.{
  RecordStatus, status_ready, status_error, ReplicaRecord, ReplicaRouterState,
}
use heimdall_gateway.Router.Health.{
  positive_or_zero, unprobed, fresh, remember, probed, measure, has_process, health_of,
}

-- No cached measurement says that its target is dead.
pub record CacheAlive (s : ReplicaRouterState) : Type 0 where
  pub at_key :
      (j : String) (entry : ℕ × TargetHealth)
      → get s.health_cache j ≡ some entry
      → entry.1.confirmed_dead ≡ false

abbrev pub status_of : Option ReplicaRecord → Option RecordStatus
status_of none = none
status_of (some rec) = some rec.status

module _ (pid_alive : ℕ → Bool) (probe : ℕ → ℕ → Option ℕ) (show : ℕ → String)
    (cfg : AffinityConfig) (target : String) (capacity now : ℕ) (s : ReplicaRouterState) where
  -- the three ways of `health_of`: a target that is not probed, a cached answer, and a probe
  pub data Way : ReplicaRouterState × TargetHealth → Type 0 where
    known : (h : TargetHealth) → h.confirmed_dead ≡ false → Way (s, h)
    cached :
        (h : TargetHealth) (expires : ℕ)
        → get s.health_cache target ≡ some (expires, h)
        → Way (s, h)
    asked :
        (rec : ReplicaRecord)
        → get s.records target ≡ some rec
        → Way (
          remember pid_alive probe show cfg target now rec
              (probed pid_alive probe show cfg target capacity s rec)
              s,
          probed pid_alive probe show cfg target capacity s rec,
        )

  fresh_inv :
      (o : Option (ℕ × TargetHealth)) (h : TargetHealth)
      → fresh now o ≡ some h
      → (expires : ℕ) × (o ≡ some (expires, h))
  unfolding fresh
  fresh_inv none h e = cc
  fresh_inv (some (expires, h')) h e = (expires, ground arith)

  measure-Way :
      (rec : ReplicaRecord)
      → get s.records target ≡ some rec
      → Way (measure pid_alive probe show cfg target capacity now s rec)
  unfolding measure
  measure-Way rec found = elim (Option-cases (fresh now (get s.health_cache target))) [
    | inl e ↦ rw (e, measure) (asked rec found)
    | inr (h, e) ↦ rw (e, measure) (cached h (fresh_inv _ h e).0 (fresh_inv _ h e).1)
  ]

  pub health_of-Way : Way (health_of pid_alive probe show cfg target capacity now s)
  unfolding health_of
  health_of-Way = elim (Option-cases (get s.records target)) [
    | inl e ↦ rw (e, health_of) (known _ refl)
    | inr (rec, e) ↦
        rw (e, health_of)
          (if_elim Way (has_process pid_alive probe show rec) _ _ (measure-Way rec e)
            (known (unprobed target capacity s (some rec)) refl))
  ]

module _ (pid_alive : ℕ → Bool) (probe : ℕ → ℕ → Option ℕ) (show : ℕ → String)
    (cfg : AffinityConfig) (target : String) (capacity now : ℕ) (s : ReplicaRouterState) where
  CacheAlive-Way :
      {r : ReplicaRouterState × TargetHealth}
      → Way pid_alive probe show cfg target capacity now s r
      → CacheAlive s
      → CacheAlive r.0
  unfolding remember
  CacheAlive-Way (known h calm) alive = alive
  CacheAlive-Way (cached h expires found) alive = alive
  CacheAlive-Way (asked rec found) alive = record {
    at_key = λ j entry e.
        let h = probed pid_alive probe show cfg target capacity s rec in
        ground (
          arith,
          alive.at_key j entry,
          get-pop s.health_cache target j,
          get-put s.health_cache target j (now + cfg.probe_interval, h),
        );
  }

  -- The cache never comes to hold a measurement of a dead target.
  pub health_of-CacheAlive :
      CacheAlive s → CacheAlive (health_of pid_alive probe show cfg target capacity now s).0
  health_of-CacheAlive =
      CacheAlive-Way (health_of-Way pid_alive probe show cfg target capacity now s)

  affinity-Way :
      {r : ReplicaRouterState × TargetHealth}
      → Way pid_alive probe show cfg target capacity now s r
      → r.0.affinity ≡ s.affinity
  unfolding remember
  affinity-Way (known h calm) = refl
  affinity-Way (cached h expires found) = refl
  affinity-Way (asked rec found) = ground arith

  -- measuring changes no owner
  pub health_of-affinity :
      (health_of pid_alive probe show cfg target capacity now s).0.affinity ≡ s.affinity
  health_of-affinity = affinity-Way (health_of-Way pid_alive probe show cfg target capacity now s)

  -- process evidence of a death, as measured by this very call
  abbrev pub Evidence : Type 0
  Evidence =
      (rec : ReplicaRecord) × (get s.records target ≡ some rec)
      × (((0 < positive_or_zero rec.pid) × (pid_alive (positive_or_zero rec.pid) ≡ false))
          ⊎ ((0 < positive_or_zero rec.port)
              × (probe (positive_or_zero rec.port) cfg.probe_timeout ≡ none)))

  Evidence-Way :
      {r : ReplicaRouterState × TargetHealth}
      → Way pid_alive probe show cfg target capacity now s r
      → CacheAlive s
      → r.1.confirmed_dead ≡ true
      → Evidence
  unfolding probed
  Evidence-Way (known h calm) alive dies = cc
  Evidence-Way (cached h expires found) alive dies = cc (alive.at_key target (expires, h) found)
  Evidence-Way (asked rec found) alive dies =
      (rec, found, (probe_target_health-dead_iff pid_alive probe show target _ _ _ _ _ _ _).0 dies)

  error-Way :
      {r : ReplicaRouterState × TargetHealth} (j : String)
      → Way pid_alive probe show cfg target capacity now s r
      → status_of (get r.0.records j) ≡ some status_error
      → (status_of (get s.records j) ≡ some status_error)
        ⊎ ((target ≡ j) × (r.1.confirmed_dead ≡ true))
  unfolding remember
  error-Way j (known h calm) failed = inl failed
  error-Way j (cached h expires found) failed = inl failed
  error-Way j (asked rec found) failed =
      let h = probed pid_alive probe show cfg target capacity s rec in
      ground (
        arith,
        eq_iff target j,
        get-put s.records target j (record rec { status = status_error }),
        get-put s.records target j
            (record rec { status = elim h.state [ ready ↦ status_ready | _ ↦ rec.status ] }),
      )

  -- Measuring a target reports it dead only on process evidence taken by this call: the process id
  -- of its record is not alive, or its port does not answer. (No cached measurement is of a dead
  -- target.)
  pub health_of-dead :
      CacheAlive s
      → (health_of pid_alive probe show cfg target capacity now s).1.confirmed_dead ≡ true
      → Evidence
  health_of-dead = Evidence-Way (health_of-Way pid_alive probe show cfg target capacity now s)

  -- Measuring marks a replica as failed only if it was marked so before, or is the one measured
  -- and was found dead just now on process evidence. (No cached measurement is of a dead target.)
  pub health_of-error :
      (j : String)
      → CacheAlive s
      → status_of (get (health_of pid_alive probe show cfg target capacity now s).0.records j)
        ≡ some status_error
      → (status_of (get s.records j) ≡ some status_error) ⊎ ((target ≡ j) × Evidence)
  health_of-error j alive failed =
      let way = health_of-Way pid_alive probe show cfg target capacity now s in
      elim (error-Way j way failed) [
        | inl before ↦ inl before
        | inr (e, dies) ↦ inr (e, Evidence-Way way alive dies)
      ]
