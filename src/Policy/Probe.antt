-- ===== src/Policy/Probe.antt =====
-- cli/replica_policy.py: `probe_target_health`. What the operating system says of a process id
-- (`_pid_alive`) and what GET /health answers are arguments.
use heimdall_gateway.Prelude.{
  ℕ, ◌<◌, String, ◌≡◌, ◌↔◌, ◌⊎◌, Bool, true, false, not, ◌&&◌, Option, none, some, arith, ltb,
  if◌then◌else◌, ◌==◌, nat_key, string_key,
}
use heimdall_gateway.Policy.Targets.{TargetState, ready, loading, dead, suspect, TargetHealth}

-- an integer's decimal text stands in the `detail` of an odd answer
unfoldable pub probe_target_health :
    (pid_alive : ℕ → Bool) (probe : ℕ → ℕ → Option ℕ) (show : ℕ → String) (target : String)
    (pid port : ℕ) (state : TargetState) (in_flight capacity blacklist_until timeout : ℕ)
    → TargetHealth
probe_target_health pid_alive probe show target pid port state in_flight capacity blacklist_until
      timeout =
    let health : TargetHealth = record {
      target = target;
      state = state;
      in_flight = in_flight;
      capacity = capacity;
      confirmed_dead = false;
      blacklist_until = blacklist_until;
      detail = "";
    } in
    if ltb 0 pid && not (pid_alive pid)
    then record health { state = dead; confirmed_dead = true; detail = "pid_not_alive" }
    else if ltb 0 port
    then elim (probe port timeout) [
      | none ↦ record health { state = dead; confirmed_dead = true; detail = "health_unreachable" }
      | some status ↦
          if status == 200
          then record health { state = ready }
          else if status == 503
          then record health { state = loading }
          else record health { state = suspect; detail = show status }
    ]
    else health

module _ (pid_alive : ℕ → Bool) (probe : ℕ → ℕ → Option ℕ) (show : ℕ → String) (target : String)
    (pid port : ℕ) (state : TargetState) (in_flight capacity blacklist_until timeout : ℕ) where
  -- A probe confirms a death exactly on process evidence: a process id that is not alive, or a
  -- port that does not answer. Any HTTP answer whatever leaves the target unconfirmed.
  pub probe_target_health-dead_iff :
      ((probe_target_health pid_alive probe show target pid port state in_flight capacity
          blacklist_until timeout).confirmed_dead
        ≡ true)
      ↔ (((0 < pid) × (pid_alive pid ≡ false)) ⊎ ((0 < port) × (probe port timeout ≡ none)))
  unfolding probe_target_health
  probe_target_health-dead_iff = (λ h. ground arith, λ h. ground arith)

  -- The probe reports load and quarantine as it was given them, whatever it measures.
  pub probe_target_health-load :
      let h =
        probe_target_health pid_alive probe show target pid port state in_flight capacity
          blacklist_until timeout in
      (h.in_flight ≡ in_flight) × (h.capacity ≡ capacity) × (h.blacklist_until ≡ blacklist_until)
  unfolding probe_target_health
  probe_target_health-load = ground arith
