-- ===== src/Router/Steps/Selected.antt =====
-- _cli_impl.py: `select_replica_for_request` as a run of the steps of the router.
use heimdall_gateway.Router.Steps.{
  binds, prunes, reads_response, measures, starts, fails_to_start, registers, done, after,
}
use Prim.Native.String.{String}
use heimdall_gateway.Prelude.{
  ℕ, ◌≡◌, refl, inl, inr, Bool, not, ◌&&◌, Option, none, some, List, [], ◌∷◌, arith, leb,
  if◌then◌else◌, Bool-cases, Option-cases, or_else, if_elim, ◌==◌, nat_key, string_key, List-cases,
  is_empty, filter,
}
use heimdall_gateway.Dict.{Dict, get}
use heimdall_gateway.Policy.Targets.{
  TransferReason, initial_bind, sticky_refresh, responses_chain, TargetHealth,
}
use heimdall_gateway.Policy.Config.{AffinityConfig}
use heimdall_gateway.Policy.Transfer.{decide}
use heimdall_gateway.Router.State.{ReplicaRecord, ReplicaRouterState}
use heimdall_gateway.Router.Binding.{owner_of}
use heimdall_gateway.Router.Prune.{prune}
use heimdall_gateway.Router.Requests.{base_load}
use heimdall_gateway.Router.Health.{health_of}
use heimdall_gateway.Router.Selection.{
  RouteContext, replica_ids, published_replica_ids, sort_by, is_kept, has_alternatives,
  evacuate_owner, route_owned,
}
use heimdall_gateway.Router.Selection.Fresh.{
  name_before, longest_idle_before, last_used_before, least_loaded_before, is_startable,
  is_ready_idle, open_records, gpus_in_use, defer_scale_out, bind_new, choose_base, choose_replica,
  spreads, needs_route, claim_replica, startable, mark_failed, scale_out, choose_loaded,
  start_replica, route_new,
}
use heimdall_gateway.Router.Selection.Request.{
  set_records, mapped_replica, known_replica, route, select_replica_for_request,
}
use heimdall_gateway.Router.Steps.{Run}
use heimdall_gateway.Router.Steps.Runs.{quiet-Run, Run-trans}

module _ (limit : ℕ) (fits : List ℕ → Dict ℕ ℕ → Bool × Option ℕ) (add_route : String → Bool)
    (cfg : AffinityConfig) (ctx : RouteContext) where
  abbrev Ends : {A : Type 0} → ReplicaRouterState → ReplicaRouterState × A → Type 0
  Ends s m = Run limit cfg s m.0

  choose_base-Run :
      (now : ℕ) (s : ReplicaRouterState)
      → Run limit cfg s (choose_base fits add_route cfg ctx now s).0
  unfolding choose_base bind_new
  choose_base-Run now s =
      quiet-Run limit cfg s _ (binds ctx.affinity_key ctx.base initial_bind ctx.sticky_ttl now) refl

  choose_replica-Run :
      (replica_id : String) (now : ℕ) (s : ReplicaRouterState)
      → Run limit cfg s (choose_replica fits add_route cfg ctx replica_id now s).0
  unfolding choose_replica bind_new
  choose_replica-Run replica_id now s =
      quiet-Run limit cfg s _ (binds ctx.affinity_key replica_id initial_bind ctx.sticky_ttl now)
        refl

  startable_inv :
      (found : Option ReplicaRecord) (able : Bool) (rec : ReplicaRecord)
      → (if able then startable fits add_route cfg ctx found else none) ≡ some rec
      → found ≡ some rec
  startable_inv none able rec e = absurd (ground arith)
  startable_inv (some r) able rec e = ground (arith, e)

  scale_out-Run :
      (used : Dict ℕ ℕ) (later : ℕ) (cold : List ReplicaRecord) (s : ReplicaRouterState)
      → Run limit cfg s (scale_out fits add_route cfg ctx used later cold s).0
  unfolding scale_out
  scale_out-Run used later [] s = done
  scale_out-Run used later (rec ∷ rest) s =
      let (able, required) = fits rec.gpu_set used in
      let rid = rec.replica_model_id in
      let current = if able then startable fits add_route cfg ctx (get s.records rid) else none in
      elim (Option-cases current) [
        | inl e ↦ rw (scale_out, e) (scale_out-Run used later rest s)
        | inr (live, e) ↦
            let claimed = claim_replica fits add_route cfg ctx rid live required later s in
            let found = startable_inv (get s.records rid) able live e in
            let begun =
              quiet-Run limit cfg s claimed
                (starts fits add_route ctx rid live required later found) refl in
            let marked = mark_failed fits add_route cfg ctx rid claimed in
            let undone = after claimed marked begun (fails_to_start fits add_route ctx rid) refl in
            rw (scale_out, e)
              (elim (Bool-cases (needs_route fits add_route cfg ctx rid && not (add_route rid))) [
                | inl lost ↦
                    rw lost
                      (Run-trans limit cfg s marked _ undone (scale_out-Run used later rest marked))
                | inr routed ↦ rw routed begun
              ])
      ]

  choose_loaded-Run :
      (now : ℕ) (s : ReplicaRouterState)
      → Run limit cfg s (choose_loaded fits add_route cfg ctx now s).0
  unfolding choose_loaded
  choose_loaded-Run now s =
      let candidates = open_records now (replica_ids ctx) s in
      elim (List-cases (sort_by last_used_before (filter is_ready_idle candidates))) [
        | inr (rec, recs, e) ↦ rw (choose_loaded, e) (choose_replica-Run rec.replica_model_id now s)
        | inl none_idle ↦ elim (List-cases (sort_by least_loaded_before candidates)) [
          | inl e ↦ rw (choose_loaded, none_idle, e) done
          | inr (rec, recs, e) ↦
              rw (choose_loaded, none_idle, e)
                (if_elim (Ends s) (leb (base_load s ctx.base) 0) _ _ (choose_base-Run now s)
                  (choose_replica-Run rec.replica_model_id now s))
        ]
      ]

  start_replica-Run :
      (now later : ℕ) (s : ReplicaRouterState)
      → Run limit cfg s (start_replica fits add_route cfg ctx now later s).0
  unfolding start_replica
  start_replica-Run now later s =
      let cold_records =
        filter (λ rec. is_startable rec.status) (open_records now (replica_ids ctx) s) in
      let cold = if defer_scale_out ctx now s then [] else sort_by name_before cold_records in
      let used = gpus_in_use s.records [] in
      let t = (scale_out fits add_route cfg ctx used later cold s).0 in
      let tried = scale_out-Run used later cold s in
      elim (Option-cases (scale_out fits add_route cfg ctx used later cold s).1) [
        | inr (rid, e) ↦ rw (start_replica, e) tried
        | inl e ↦ rw (start_replica, e) (Run-trans limit cfg s t _ tried (choose_loaded-Run now t))
      ]

  route_new-Run :
      (now later : ℕ) (s : ReplicaRouterState)
      → Run limit cfg s (route_new fits add_route cfg ctx now later s).0
  unfolding route_new
  route_new-Run now later s =
      let idle =
        sort_by longest_idle_before (filter is_ready_idle (open_records now (replica_ids ctx) s)) in
      elim (Bool-cases (not (leb (base_load s ctx.base) 0))) [
        | inl busy ↦ rw (route_new, busy) (start_replica-Run now later s)
        | inr unused ↦ elim (List-cases idle) [
          | inr (best, recs, e) ↦
              rw (route_new, unused, e)
                (if_elim (Ends s) (spreads fits add_route cfg ctx best s) _ _
                  (choose_replica-Run best.replica_model_id now s) (choose_base-Run now s))
          | inl e ↦
              rw (route_new, unused, e)
                (if_elim (Ends s) ctx.dynamic_routes _ _ (start_replica-Run now later s)
                  (choose_base-Run now s))
        ]
      ]

  evacuate_owner-Run :
      (owner : String) (reason : TransferReason) (now : ℕ) (s : ReplicaRouterState)
      → Run limit cfg s (evacuate_owner ctx cfg owner reason now s).0
  unfolding evacuate_owner
  evacuate_owner-Run owner reason now s =
      quiet-Run limit cfg s _ (binds ctx.affinity_key _ reason ctx.sticky_ttl now) refl

  route_owned-Run :
      (owner : String) (health : TargetHealth) (now : ℕ) (s : ReplicaRouterState)
      → Run limit cfg s (route_owned ctx cfg owner health now s).0
  unfolding route_owned
  route_owned-Run owner health now s =
      let decision = decide (some owner) health (has_alternatives ctx owner) cfg now in
      if_elim (Ends s) (is_kept decision.0) _ _
        (quiet-Run limit cfg s _ (binds ctx.affinity_key owner sticky_refresh ctx.sticky_ttl now)
          refl)
        (evacuate_owner-Run owner (or_else decision.1 initial_bind) now s)

  module _ (pid_alive : ℕ → Bool) (probe : ℕ → ℕ → Option ℕ) (show : ℕ → String) where
    route-Run :
        (mapped owner : Option String) (capacity now later : ℕ) (s : ReplicaRouterState)
        → Run limit cfg s
            (route pid_alive probe show fits add_route cfg ctx mapped owner capacity now later s).0
    unfolding route
    route-Run (some rid) owner capacity now later s =
        quiet-Run limit cfg s _ (binds ctx.affinity_key rid responses_chain ctx.sticky_ttl now) refl
    route-Run none (some owner) capacity now later s =
        let (t, health) = health_of pid_alive probe show cfg owner capacity now s in
        Run-trans limit cfg s t _
          (quiet-Run limit cfg s _ (measures pid_alive probe show owner capacity now) refl)
          (route_owned-Run owner health now t)
    route-Run none none capacity now later s = route_new-Run now later s

    mapped_replica-Run :
        (response_id : String) (now : ℕ) (s : ReplicaRouterState)
        → Run limit cfg s (mapped_replica response_id now s).0
    unfolding mapped_replica
    mapped_replica-Run response_id now s =
        if_elim (Ends s) (response_id == "") _ _ done
          (quiet-Run limit cfg s _ (reads_response response_id now) refl)

    -- The selection of a replica, on each of its branches, is a run of the steps of the router, none
    -- of which begins or ends a request: what holds of the states that the steps reach holds after
    -- it and between its locked sections.
    pub select_replica_for_request-Run :
        (enabled : Bool) (response_id : String) (capacity now later : ℕ) (s : ReplicaRouterState)
        → Run limit cfg s
            (select_replica_for_request pid_alive probe show fits add_route cfg ctx enabled
              response_id capacity now later s).0
    unfolding select_replica_for_request
    select_replica_for_request-Run enabled response_id capacity now later s =
        let (p, mapped) = mapped_replica response_id now (prune now s) in
        let t = record p { records = set_records ctx.base ctx.replicas p.records } in
        let pruned =
          Run-trans limit cfg s (prune now s) p (quiet-Run limit cfg s _ (prunes now) refl)
            (mapped_replica-Run response_id now (prune now s)) in
        let known = after p t pruned (registers ctx.base ctx.replicas) refl in
        if_elim (Ends s) (not enabled) _ _ done (
          if_elim (Ends s) (is_empty ctx.replicas) _ _ pruned (
            if_elim (Ends s) (is_empty (published_replica_ids ctx) && not ctx.dynamic_routes) _ _
              (after p _ pruned (binds ctx.affinity_key ctx.base initial_bind ctx.sticky_ttl now)
                refl)
              (Run-trans limit cfg s t _ known (
                route-Run (known_replica ctx mapped) (owner_of t ctx.affinity_key now) capacity now
                  later t))))
