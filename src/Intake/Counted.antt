-- ===== src/Intake/Counted.antt =====
-- _cli_impl.py, `_handle_ollama_chat`: the way of a request to its target as a run of the steps of the
-- router, and which request is counted at its end.
use heimdall_gateway.Router.Steps.{synchronises, claims_loading, releases_claim, later, done}
use mathlib.Core.Path.{subst}
use Prim.Native.String.{String}
use heimdall_gateway.Prelude.{
  ℕ, ◌≡◌, refl, sym, ap, ◌∙◌, ◌⊎◌, inl, inr, Bool, false, not, ◌||◌, Option, none, List, ◌∷◌,
  Option-cases, if_elim, ◌==◌, nat_key, string_key,
}
use heimdall_gateway.Router.State.{ReplicaRouterState}
use heimdall_gateway.Router.Claims.{claim_loading}
use heimdall_gateway.Router.Sync.{sync_replica_runtime_state}
use heimdall_gateway.Router.Admission.{other_style, Answer, reject_if_model_loading_request}
use heimdall_gateway.Router.Steps.{Event, event_of, Reach, Run}
use heimdall_gateway.Router.Steps.Counts.{counted_after, running, unlimited_after, unlimited}
use heimdall_gateway.Router.Steps.Runs.{quiet-Run, Run-trans, Reach-Run}
use heimdall_gateway.Router.Steps.Selected.{select_replica_for_request-Run}
use heimdall_gateway.Runtime.Gate.{reject_if_gpu_busy}
use heimdall_gateway.Runtime.Steps.{reject_if_gpu_busy-Run}
use heimdall_gateway.Intake.{
  Entry, listed, with_images, unserved_images, direct, unlisted, Arrival, Outcome, unroutable,
  model_loading, gpu_busy, resolve_target, pass_gate, pass_claim, begin_request,
}
use heimdall_gateway.Intake.Direct.{
  DirectReplica, ensure_direct_replica_route_for_request, prepare_direct_replica_request,
}
use heimdall_gateway.Intake.Slots.{
  outcome_event, LastStep, Counts, Counts-after, stops, admit-Counts,
}

module _ (a : Arrival) where
  pass_gate-Counts :
      (upstream : String) (is_replica : Bool) (s : ReplicaRouterState)
      → (a.model_name == "") ≡ false
      → Counts a s (pass_gate a upstream is_replica s)
  unfolding pass_gate
  pass_gate-Counts upstream is_replica s named =
      let passage =
        reject_if_gpu_busy a.show a.surroundings a.model_name a.payload a.times.placed a.log s in
      let gated =
        reject_if_gpu_busy-Run a.limit a.cfg a.show a.surroundings a.model_name a.payload
          a.times.placed a.log s in
      if_elim (Counts a s) is_replica _ _ (admit-Counts a upstream s named)
        (elim (Option-cases passage.refusal_sent) [
          | inl e ↦ rw e (
              Counts-after a s passage.router _ gated
                (admit-Counts a upstream passage.router named))
          | inr (why, e) ↦ rw e (stops a s passage.router (gpu_busy why) gated refl)
        ])

  reject_if_model_loading_request-Run :
      (upstream : String) (is_replica : Bool) (s : ReplicaRouterState)
      → Run a.limit a.cfg s
          (reject_if_model_loading_request upstream is_replica a.is_running other_style
            a.times.claimed s).0
  unfolding reject_if_model_loading_request
  reject_if_model_loading_request-Run upstream is_replica s =
      let claim = claim_loading upstream is_replica a.is_running none a.times.claimed s in
      let claimed =
        quiet-Run a.limit a.cfg s claim.0
          (claims_loading upstream is_replica a.is_running none a.times.claimed) refl in
      let Claims = λ (m : ReplicaRouterState × Option Answer). Run a.limit a.cfg s m.0 in
      if_elim Claims (upstream == "") _ _ done (if_elim Claims claim.1 _ _ claimed claimed)

  pass_claim-Counts :
      (upstream : String) (is_replica : Bool) (s : ReplicaRouterState)
      → (a.model_name == "") ≡ false
      → Counts a s (pass_claim a upstream is_replica s)
  unfolding pass_claim
  pass_claim-Counts upstream is_replica s named =
      let (t, answer) =
        reject_if_model_loading_request upstream is_replica a.is_running other_style a.times.claimed
          s in
      let claimed = reject_if_model_loading_request-Run upstream is_replica s in
      elim (Option-cases answer) [
        | inl e ↦
            rw (pass_claim, e)
              (Counts-after a s t _ claimed (pass_gate-Counts upstream is_replica t named))
        | inr (sent, e) ↦ rw (pass_claim, e) (stops a s t (model_loading sent) claimed refl)
      ]

  ensure_direct_replica_route_for_request-Run :
      (d : DirectReplica) (replica_id : String) (now : ℕ) (s : ReplicaRouterState)
      → Run a.limit a.cfg s (ensure_direct_replica_route_for_request d replica_id now s).0
  unfolding ensure_direct_replica_route_for_request
  ensure_direct_replica_route_for_request-Run d replica_id now s =
      if_elim (λ (m : ReplicaRouterState × Option String). Run a.limit a.cfg s m.0)
        (not d.in_catalog || d.is_published) _ _ done
        (quiet-Run a.limit a.cfg s _ (synchronises now d.observed d.replicas) refl)

  prepare_direct_replica_request-Run :
      (d : DirectReplica) (now : ℕ) (s : ReplicaRouterState)
      → Run a.limit a.cfg s (prepare_direct_replica_request d a.model_name now s).0
  unfolding prepare_direct_replica_request
  prepare_direct_replica_request-Run d now s =
      let ensured = ensure_direct_replica_route_for_request-Run d a.model_name now s in
      elim (Option-cases d.conflict) [
        | inl e ↦ rw (prepare_direct_replica_request, e) ensured
        | inr (message, e) ↦
            rw (prepare_direct_replica_request, e)
              (if_elim (λ (m : ReplicaRouterState × Option String). Run a.limit a.cfg s m.0)
                (message == "") _ _ ensured
                (quiet-Run a.limit a.cfg s _ (releases_claim a.model_name) refl))
      ]

  resolve_target-Run : (s : ReplicaRouterState) → Run a.limit a.cfg s (resolve_target a s).0
  unfolding resolve_target
  resolve_target-Run s = resolved a.entry
    where
      resolved :
          (entry : Entry) → Run a.limit a.cfg s (resolve_target (record a { entry = entry }) s).0
      resolved (listed l) =
          let synced = sync_replica_runtime_state a.times.synced l.observed l.replicas s in
          Run-trans a.limit a.cfg s synced _
            (quiet-Run a.limit a.cfg s synced (synchronises a.times.synced l.observed l.replicas)
              refl)
            (select_replica_for_request-Run a.limit l.fits l.add_route a.cfg l.ctx l.pid_alive
              l.probe l.show l.enabled l.response_id l.capacity a.times.routed a.times.started
              synced)
      resolved (direct d) =
          let (t, failure) = prepare_direct_replica_request d a.model_name a.times.routed s in
          let prepared = prepare_direct_replica_request-Run d a.times.routed s in
          elim (Option-cases failure) [
            | inl e ↦ rw (resolve_target, e) prepared
            | inr (message, e) ↦ rw (resolve_target, e) prepared
          ]
      resolved (with_images instance_id) = done
      resolved (unserved_images message) = done
      resolved unlisted = done

  begin_request-Counts :
      (s : ReplicaRouterState) → (a.model_name == "") ≡ false → Counts a s (begin_request a s)
  unfolding begin_request
  begin_request-Counts s named =
      let (t, target) = resolve_target a s in goes_on t (resolve_target-Run s) target
    where
      goes_on :
          (t : ReplicaRouterState)
          → Run a.limit a.cfg s t
          → (target : String ⊎ (String × Bool))
          → Counts a s (elim target [
            | inl message ↦ (t, unroutable message)
            | inr (upstream, is_replica) ↦ pass_claim a upstream is_replica t
          ])
      goes_on t resolved (inl message) = stops a s t (unroutable message) resolved refl
      goes_on t resolved (inr (upstream, is_replica)) =
          Counts-after a s t _ resolved (pass_claim-Counts upstream is_replica t named)

  counted_last :
      (history : List Event) (u : ReplicaRouterState) (m : ReplicaRouterState × Outcome)
      → Reach a.limit a.cfg history u
      → LastStep a u m
      → (longer : List Event) × Reach a.limit a.cfg longer m.0
        × ((j : String)
            → (running longer j ≡ counted_after (outcome_event a m.1) j (running history j))
              × (unlimited longer j
                  ≡ unlimited_after (outcome_event a m.1) j (unlimited history j)))
  counted_last history u m reached (inl (same, quiet)) =
      (history, subst (Reach a.limit a.cfg history) (sym same) reached, λ j. rw quiet (refl, refl))
  counted_last history u m reached (inr (step, event)) = (
    event_of a.limit a.cfg u m.0 step ∷ history,
    later history u m.0 reached step,
    λ j. (
      ap (λ e. counted_after e j (running history j)) event,
      ap (λ e. unlimited_after e j (unlimited history j)) event,
    ),
  )

  -- A request that names a model, whatever it meets on its way, leads from a reachable state to a
  -- reachable state, for a history in which its target runs one request more if it proceeds (where
  -- there is no limit, if the target has a name), and every target runs as many as before if it is
  -- refused, by whichever of the four; and it began without asking for the limit only where there is
  -- none.
  pub begin_request-counted :
      (history : List Event) (s : ReplicaRouterState)
      → (a.model_name == "") ≡ false
      → Reach a.limit a.cfg history s
      → let m = begin_request a s in
        (longer : List Event) × Reach a.limit a.cfg longer m.0
        × ((j : String)
            → (running longer j ≡ counted_after (outcome_event a m.1) j (running history j))
              × (unlimited longer j
                  ≡ unlimited_after (outcome_event a m.1) j (unlimited history j)))
  begin_request-counted history s named reached =
      let (u, run, last) = begin_request-Counts s named in
      let (between, reached_u, same) = Reach-Run a.limit a.cfg history s u reached run in
      let (longer, reached_m, counted) =
        counted_last between u (begin_request a s) reached_u last in
      (
        longer,
        reached_m,
        λ j.
            let (ran, passed_by) = counted j in
            let (runs, beyond) = same j in
            let event = outcome_event a (begin_request a s).1 in
            (
              ran ∙ ap (counted_after event j) runs,
              passed_by ∙ ap (unlimited_after event j) beyond,
            ),
      )
