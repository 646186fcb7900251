-- ===== src/Router/Selection/Failed.antt =====
-- _cli_impl.py, `select_replica_for_request`: a replica that cannot be started, for a model with one
-- replica.
use heimdall_gateway.Prelude.{
  ℕ, ◌+◌, ◌≤◌, ◌<◌, String, ◌≡◌, refl, ap, ◌∙◌, Bool, true, false, Option, none, some, List, [],
  ◌∷◌, arith, leb, if◌then◌else◌, ◌==◌, nat_key, string_key, filter, contains,
}
use heimdall_gateway.Dict.{Dict, get}
use heimdall_gateway.Policy.Targets.{initial_bind, in_transfer_reasons}
use heimdall_gateway.Policy.Config.{AffinityConfig}
use heimdall_gateway.Router.State.{status_error, ReplicaRecord, ReplicaRouterState}
use heimdall_gateway.Router.Binding.{unexpired, owner_of}
use heimdall_gateway.Router.Binding.Ownership.{bind-undeclared, bind-records}
use heimdall_gateway.Router.Requests.{base_load}
use heimdall_gateway.Router.Selection.{RouteContext, replica_ids, insert_by, sort_by}
use heimdall_gateway.Router.Selection.Fresh.{
  name_before, is_startable, open_records, gpus_in_use, defer_scale_out, bind_new, choose_base,
  scale_out, choose_loaded, start_replica, route_new,
}
use heimdall_gateway.Router.Selection.Spread.{
  IsCold, cold-is_ready_idle, open_records-one, choose_loaded-IsCold,
}
use heimdall_gateway.Router.Selection.Claimed.{
  scale_out-failed, failed_state, get-failed, owner_of-failed, base_load-failed,
}

module _ (fits : List ℕ → Dict ℕ ℕ → Bool × Option ℕ) (add_route : String → Bool)
    (cfg : AffinityConfig) (ctx : RouteContext) (rec : ReplicaRecord) (gpus : List ℕ)
    (one : ctx.replicas ≡ (rec.replica_model_id, gpus) ∷ []) where
  abbrev pub cold_replicas : ℕ → ReplicaRouterState → List ReplicaRecord
  cold_replicas now s =
      if defer_scale_out ctx now s
      then []
      else sort_by name_before
          (filter (λ r. is_startable r.status) (open_records now (replica_ids ctx) s))

  cold_replicas-one :
      (now : ℕ) (s : ReplicaRouterState)
      → get s.records rec.replica_model_id ≡ some rec
      → IsCold rec now
      → defer_scale_out ctx now s ≡ false
      → cold_replicas now s ≡ rec ∷ []
  unfolding sort_by insert_by
  cold_replicas-one now s found unstarted allowed =
      rw
        (
          allowed,
          open_records-one fits add_route cfg ctx rec gpus one now s rec found unstarted.is_open,
          unstarted.is_not_started,
        )
        refl

  start_replica-failed :
      (now later : ℕ) (s : ReplicaRouterState)
      → cold_replicas now s ≡ rec ∷ []
      → scale_out fits add_route cfg ctx (gpus_in_use s.records []) later (rec ∷ []) s
        ≡ (failed_state fits add_route cfg ctx rec gpus one later s, none)
      → start_replica fits add_route cfg ctx now later s
        ≡ choose_loaded fits add_route cfg ctx now
            (failed_state fits add_route cfg ctx rec gpus one later s)
  unfolding start_replica
  start_replica-failed now later s one_cold failed =
      rw (start_replica, one_cold, failed, one_cold, failed) refl

  route_new-start :
      (now later : ℕ) (s : ReplicaRouterState)
      → get s.records rec.replica_model_id ≡ some rec
      → IsCold rec now
      → leb (base_load s ctx.base) 0 ≡ true
      → ctx.dynamic_routes ≡ true
      → route_new fits add_route cfg ctx now later s
        ≡ start_replica fits add_route cfg ctx now later s
  unfolding route_new sort_by
  route_new-start now later s found unstarted idle dynamic =
      rw
        (
          route_new,
          idle,
          open_records-one fits add_route cfg ctx rec gpus one now s rec found unstarted.is_open,
          cold-is_ready_idle rec unstarted.is_not_started,
        )
        (ground (arith, dynamic))

  choose_loaded-idle :
      (now : ℕ) (s : ReplicaRouterState) (r : ReplicaRecord)
      → get s.records rec.replica_model_id ≡ some r
      → IsCold r now
      → leb (base_load s ctx.base) 0 ≡ true
      → choose_loaded fits add_route cfg ctx now s ≡ choose_base fits add_route cfg ctx now s
  choose_loaded-idle now s r found unstarted idle =
      rw (choose_loaded-IsCold fits add_route cfg ctx rec gpus one now s r found unstarted, idle)
        refl

  choose_base-owned :
      (now at : ℕ) (s : ReplicaRouterState)
      → (rec.replica_model_id == ctx.base) ≡ false
      → owner_of s ctx.affinity_key now ≡ some rec.replica_model_id
      → owner_of s ctx.affinity_key at ≡ some rec.replica_model_id
      → ((choose_base fits add_route cfg ctx now s).1 ≡ (ctx.base, false))
        × (owner_of (choose_base fits add_route cfg ctx now s).0 ctx.affinity_key at
            ≡ some rec.replica_model_id)
  unfolding choose_base bind_new in_transfer_reasons owner_of
  choose_base-owned now at s other owned owned_then = (
    refl,
    ap (λ affinity. unexpired at (get affinity ctx.affinity_key))
          (bind-undeclared cfg ctx.affinity_key ctx.base initial_bind ctx.sticky_ttl now s
            rec.replica_model_id owned other refl).0
        ∙ owned_then,
  )

  choose_base-records :
      (now : ℕ) (s : ReplicaRouterState)
      → (choose_base fits add_route cfg ctx now s).0.records ≡ s.records
  unfolding choose_base bind_new
  choose_base-records now s =
      (bind-records cfg ctx.affinity_key ctx.base initial_bind ctx.sticky_ttl now s).0

  -- A conversation with no owner asks for a model whose base runs no request and whose only
  -- replica, another target than the base, has not been started, serves nothing, is not quarantined
  -- and is not yet published. When published routes can change, the start is not put off, and the
  -- replica fits on its GPUs, but its route cannot be published, the request is served by the
  -- base, the replica is marked as failed, and the conversation is bound to that replica
  -- at every time before its binding, taken at the start, runs out.
  pub route_new-failed :
      (now later at : ℕ) (s : ReplicaRouterState)
      → get s.records rec.replica_model_id ≡ some rec
      → IsCold rec now
      → (rec.replica_model_id == ctx.base) ≡ false
      → 0 < ctx.sticky_ttl
      → now ≤ later
      → at < later + ctx.sticky_ttl
      → owner_of s ctx.affinity_key later ≡ none
      → leb (base_load s ctx.base) 0 ≡ true
      → ctx.dynamic_routes ≡ true
      → defer_scale_out ctx now s ≡ false
      → (fits rec.gpu_set (gpus_in_use s.records [])).0 ≡ true
      → contains ctx.published rec.replica_model_id ≡ false
      → add_route rec.replica_model_id ≡ false
      → let after = route_new fits add_route cfg ctx now later s in
        (after.1 ≡ (ctx.base, false))
        × (owner_of after.0 ctx.affinity_key at ≡ some rec.replica_model_id)
        × (get after.0.records rec.replica_model_id
            ≡ some (record rec {
              estimated_mib = (fits rec.gpu_set (gpus_in_use s.records [])).1;
              status = status_error;
            }))
  route_new-failed now later at s found unstarted other lasting after before_end unowned idle
        dynamic allowed able unpublished failed =
      let r = record rec {
        estimated_mib = (fits rec.gpu_set (gpus_in_use s.records [])).1;
        status = status_error;
      } in
      rw
        (
          route_new-start now later s found unstarted idle dynamic,
          start_replica-failed now later s (cold_replicas-one now s found unstarted allowed) (
              scale_out-failed fits add_route cfg ctx rec gpus one (gpus_in_use s.records []) later
                s found unstarted.is_not_started able dynamic unpublished failed),
          choose_loaded-idle now (failed_state fits add_route cfg ctx rec gpus one later s) r
              (get-failed fits add_route cfg ctx rec gpus one later s)
              (record {
                is_not_started = refl;
                is_unused = unstarted.is_unused;
                is_open = unstarted.is_open;
              })
              (rw (base_load-failed fits add_route cfg ctx rec gpus one later s, idle) refl),
        )
        (let (to_base, owned) =
            choose_base-owned now at (failed_state fits add_route cfg ctx rec gpus one later s)
              other
              (owner_of-failed fits add_route cfg ctx rec gpus one now later s (omega arith)
                unowned)
              (owner_of-failed fits add_route cfg ctx rec gpus one at later s before_end unowned) in
          (
            to_base,
            owned,
            ap (λ records. get records rec.replica_model_id)
                  (choose_base-records now
                    (failed_state fits add_route cfg ctx rec gpus one later s))
                ∙ get-failed fits add_route cfg ctx rec gpus one later s,
          ))
