-- ===== src/Router/Selection/Claimed.antt =====
-- _cli_impl.py, `select_replica_for_request`: the state in which a replica was claimed and its route could
-- not be published, for a model with one replica.
use heimdall_gateway.Prelude.{
  ℕ, ◌+◌, ◌<◌, String, ◌≡◌, refl, ap, ◌∙◌, Bool, true, false, Option, none, some, List, [], ◌∷◌,
  arith, or_else, nat_key, string_key, ==_refl, contains,
}
use heimdall_gateway.Dict.{Dict, get, put, get-put}
use heimdall_gateway.Policy.Targets.{initial_bind}
use heimdall_gateway.Policy.Config.{AffinityConfig}
use heimdall_gateway.Router.State.{status_loading, status_error, ReplicaRecord, ReplicaRouterState}
use heimdall_gateway.Router.Binding.{live_binding, bind_free, bind, unexpired, owner_of}
use heimdall_gateway.Router.Binding.Ownership.{bind-records}
use heimdall_gateway.Router.Requests.{base_load}
use heimdall_gateway.Router.Selection.{RouteContext}
use heimdall_gateway.Router.Selection.Fresh.{
  is_startable, gpus_in_use, claim_replica, startable, mark_failed, scale_out,
}

owner_of-unowned :
    (cfg : AffinityConfig) (key target : String) (ttl at later : ℕ) (s : ReplicaRouterState)
    → at < later + ttl
    → owner_of s key later ≡ none
    → owner_of (bind cfg key target initial_bind ttl later s).0 key at ≡ some target
unfolding bind bind_free owner_of live_binding
owner_of-unowned cfg key target ttl at later s before_end unowned =
    ground (arith, ==_refl key, get-put s.affinity key key (target, later + ttl))

module _ (fits : List ℕ → Dict ℕ ℕ → Bool × Option ℕ) (add_route : String → Bool)
    (cfg : AffinityConfig) (ctx : RouteContext) (rec : ReplicaRecord) (gpus : List ℕ)
    (one : ctx.replicas ≡ (rec.replica_model_id, gpus) ∷ []) where
  -- the route of the replica cannot be published
  pub scale_out-failed :
      (used : Dict ℕ ℕ) (later : ℕ) (s : ReplicaRouterState)
      → get s.records rec.replica_model_id ≡ some rec
      → is_startable rec.status ≡ true
      → (fits rec.gpu_set used).0 ≡ true
      → ctx.dynamic_routes ≡ true
      → contains ctx.published rec.replica_model_id ≡ false
      → add_route rec.replica_model_id ≡ false
      → scale_out fits add_route cfg ctx used later (rec ∷ []) s ≡ (
        mark_failed fits add_route cfg ctx rec.replica_model_id (
            claim_replica fits add_route cfg ctx rec.replica_model_id rec
              (fits rec.gpu_set used).1
              later
              s),
        none,
      )
  unfolding scale_out
  scale_out-failed used later s found startable able dynamic unpublished failed =
      rw (scale_out, found, able, startable, dynamic, unpublished, failed) refl

  -- the state once the replica was claimed and its route could not be published
  abbrev pub failed_state : ℕ → ReplicaRouterState → ReplicaRouterState
  failed_state later s = mark_failed fits add_route cfg ctx rec.replica_model_id (
      claim_replica fits add_route cfg ctx rec.replica_model_id rec
        (fits rec.gpu_set (gpus_in_use s.records [])).1 later s)

  pub get-claimed :
      (required : Option ℕ) (later : ℕ) (s : ReplicaRouterState)
      → get
          (claim_replica fits add_route cfg ctx rec.replica_model_id rec required later s).records
          rec.replica_model_id
        ≡ some (record rec { estimated_mib = required; status = status_loading })
  unfolding claim_replica
  get-claimed required later s =
      rw
        (
          claim_replica,
          (bind-records cfg ctx.affinity_key rec.replica_model_id initial_bind ctx.sticky_ttl later
              (record s {
                records =
                    put s.records rec.replica_model_id
                      (record rec { estimated_mib = required; status = status_loading });
              })).0,
        )
        (ground (
          arith,
          ==_refl rec.replica_model_id,
          get-put s.records rec.replica_model_id rec.replica_model_id
              (record rec { estimated_mib = required; status = status_loading }),
        ))

  pub get-marked :
      (rid : String) (r : ReplicaRecord) (s : ReplicaRouterState)
      → get s.records rid ≡ some r
      → get (mark_failed fits add_route cfg ctx rid s).records rid
        ≡ some (record r { status = status_error })
  unfolding mark_failed
  get-marked rid r s found =
      rw (found, mark_failed)
        (ground
          (arith, ==_refl rid, get-put s.records rid rid (record r { status = status_error })))

  pub get-failed :
      (later : ℕ) (s : ReplicaRouterState)
      → get (failed_state later s).records rec.replica_model_id
        ≡ some (record rec {
          estimated_mib = (fits rec.gpu_set (gpus_in_use s.records [])).1;
          status = status_error;
        })
  get-failed later s =
      get-marked rec.replica_model_id
        (record rec {
          estimated_mib = (fits rec.gpu_set (gpus_in_use s.records [])).1;
          status = status_loading;
        })
        (claim_replica fits add_route cfg ctx rec.replica_model_id rec
          (fits rec.gpu_set (gpus_in_use s.records [])).1 later s)
        (get-claimed (fits rec.gpu_set (gpus_in_use s.records [])).1 later s)

  pub failed-others :
      (rid : String) (s : ReplicaRouterState)
      → ((mark_failed fits add_route cfg ctx rid s).affinity ≡ s.affinity)
        × ((mark_failed fits add_route cfg ctx rid s).base_in_flight ≡ s.base_in_flight)
  unfolding mark_failed
  failed-others rid s = ground arith

  pub owner_of-claimed :
      (required : Option ℕ) (at later : ℕ) (s : ReplicaRouterState)
      → at < later + ctx.sticky_ttl
      → owner_of s ctx.affinity_key later ≡ none
      → owner_of
          (claim_replica fits add_route cfg ctx rec.replica_model_id rec required later s)
          ctx.affinity_key
          at
        ≡ some rec.replica_model_id
  unfolding claim_replica owner_of
  owner_of-claimed required at later s before_end unowned =
      owner_of-unowned cfg ctx.affinity_key rec.replica_model_id ctx.sticky_ttl at later
        (record s {
          records =
              put s.records rec.replica_model_id
                (record rec { estimated_mib = required; status = status_loading });
        })
        before_end unowned

  pub owner_of-failed :
      (at later : ℕ) (s : ReplicaRouterState)
      → at < later + ctx.sticky_ttl
      → owner_of s ctx.affinity_key later ≡ none
      → owner_of (failed_state later s) ctx.affinity_key at ≡ some rec.replica_model_id
  unfolding owner_of
  owner_of-failed at later s before_end unowned =
      ap (λ affinity. unexpired at (get affinity ctx.affinity_key))
        (failed-others rec.replica_model_id (
          claim_replica fits add_route cfg ctx rec.replica_model_id rec
            (fits rec.gpu_set (gpus_in_use s.records [])).1 later s)).0
      ∙ owner_of-claimed (fits rec.gpu_set (gpus_in_use s.records [])).1 at later s before_end
          unowned

  pub base_load-failed :
      (later : ℕ) (s : ReplicaRouterState)
      → base_load (failed_state later s) ctx.base ≡ base_load s ctx.base
  unfolding base_load claim_replica
  base_load-failed later s =
      ap (λ loads. or_else (get loads ctx.base) 0)
        ((failed-others rec.replica_model_id (
            claim_replica fits add_route cfg ctx rec.replica_model_id rec
              (fits rec.gpu_set (gpus_in_use s.records [])).1 later s)).1
          ∙ (bind-records cfg ctx.affinity_key rec.replica_model_id initial_bind ctx.sticky_ttl
              later
              (record s {
                records = put s.records rec.replica_model_id (record rec {
                  estimated_mib = (fits rec.gpu_set (gpus_in_use s.records [])).1;
                  status = status_loading;
                });
              })).1)
