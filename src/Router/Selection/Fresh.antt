-- ===== src/Router/Selection/Fresh.antt =====
-- _cli_impl.py: the part of `select_replica_for_request` that routes a request whose conversation
-- has no owner. The request is alone while it is routed: between the sections under the lock no
-- other call changes the state. `fits` is `_placement_fits` for the model, `add_route` whether the
-- route of a replica could be written and was published, `later` the clock once the memory checks
-- are done.
use heimdall_gateway.Prelude.{
  ℕ, ◌+◌, String, Bool, true, false, not, ◌&&◌, ◌||◌, Option, none, some, List, [], ◌∷◌, ltb, leb,
  nat_eq, if◌then◌else◌, or_else, nat_key, string_key, filter, contains,
}
use heimdall_gateway.Dict.{Dict, get, put}
use heimdall_gateway.Prelude.Text.{codes}
use heimdall_gateway.Policy.Targets.{initial_bind}
use heimdall_gateway.Policy.Config.{AffinityConfig}
use heimdall_gateway.Router.State.{
  RecordStatus, status_cold, status_loading, status_ready, status_error, ReplicaRecord,
  ReplicaRouterState,
}
use heimdall_gateway.Router.Binding.{bind}
use heimdall_gateway.Router.Requests.{base_load}
use heimdall_gateway.Router.Health.{is_ready}
use heimdall_gateway.Router.Selection.{RouteContext, replica_ids, Selection, sort_by}

-- the order of texts, by code points
unfoldable pub text_before : List ℕ → List ℕ → Bool
text_before [] [] = false
text_before [] (y ∷ ys) = true
text_before (x ∷ xs) [] = false
text_before (x ∷ xs) (y ∷ ys) = ltb x y || (nat_eq x y && text_before xs ys)

abbrev pub name_before : ReplicaRecord → ReplicaRecord → Bool
name_before a b = text_before (codes a.replica_model_id) (codes b.replica_model_id)

-- the keys (last_used, replica_model_id), last_used, and (in_flight, is loading, last_used)
unfoldable pub longest_idle_before : ReplicaRecord → ReplicaRecord → Bool
longest_idle_before a b =
    ltb a.last_used b.last_used || (nat_eq a.last_used b.last_used && name_before a b)

abbrev pub last_used_before : ReplicaRecord → ReplicaRecord → Bool
last_used_before a b = ltb a.last_used b.last_used

abbrev pub loading_rank : RecordStatus → ℕ
loading_rank status_loading = 1
loading_rank _ = 0

unfoldable pub least_loaded_before : ReplicaRecord → ReplicaRecord → Bool
least_loaded_before a b =
    ltb a.in_flight b.in_flight
    || (nat_eq a.in_flight b.in_flight
        && (ltb (loading_rank a.status) (loading_rank b.status)
            || (nat_eq (loading_rank a.status) (loading_rank b.status)
                && ltb a.last_used b.last_used)))

-- status in {"cold", "error"}
abbrev pub is_startable : RecordStatus → Bool
is_startable status_cold = true
is_startable status_error = true
is_startable _ = false

-- status in {"ready", "loading"}
abbrev pub occupies : RecordStatus → Bool
occupies status_ready = true
occupies status_loading = true
occupies _ = false

abbrev pub is_ready_idle : ReplicaRecord → Bool
is_ready_idle rec = is_ready rec.status && nat_eq rec.in_flight 0

-- the replicas that are not quarantined
unfoldable pub open_records : ℕ → List String → ReplicaRouterState → List ReplicaRecord
open_records now [] s = []
open_records now (rid ∷ rids) s =
    let rest = open_records now rids s in
    elim (get s.records rid) [
      | none ↦ rest
      | some rec ↦ if leb rec.blacklist_until now then rec ∷ rest else rest
    ]

unfoldable pub count_gpus : List ℕ → Dict ℕ ℕ → Dict ℕ ℕ
count_gpus [] used = used
count_gpus (gpu ∷ gpus) used = count_gpus gpus (put used gpu (or_else (get used gpu) 0 + 1))

-- used_by_records
unfoldable pub gpus_in_use : Dict String ReplicaRecord → Dict ℕ ℕ → Dict ℕ ℕ
unfolding count_gpus
gpus_in_use [] used = used
gpus_in_use ((rid, rec) ∷ records) used =
    gpus_in_use records (if occupies rec.status then count_gpus rec.gpu_set used else used)

-- the idle grace window of the base
unfoldable pub defer_scale_out : RouteContext → ℕ → ReplicaRouterState → Bool
defer_scale_out ctx now s =
    let base_last = or_else (get s.base_last_used ctx.base) 0 in
    ctx.load_blocked
    || (ltb 0 ctx.idle_grace && ltb 0 base_last && ltb now (base_last + ctx.idle_grace))

module _ (fits : List ℕ → Dict ℕ ℕ → Bool × Option ℕ) (add_route : String → Bool)
    (cfg : AffinityConfig) (ctx : RouteContext) where
  unfoldable pub bind_new : String → ℕ → ReplicaRouterState → ReplicaRouterState
  bind_new target now s = (bind cfg ctx.affinity_key target initial_bind ctx.sticky_ttl now s).0

  unfoldable pub choose_base : ℕ → ReplicaRouterState → ReplicaRouterState × Selection
  unfolding bind_new
  choose_base now s = (bind_new ctx.base now s, (ctx.base, false))

  unfoldable pub choose_replica : String → ℕ → ReplicaRouterState → ReplicaRouterState × Selection
  unfolding bind_new
  choose_replica rid now s = (bind_new rid now s, (rid, true))

  -- an idle replica that was idle for longer than a base that was used
  unfoldable pub spreads : ReplicaRecord → ReplicaRouterState → Bool
  spreads best s =
      let base_last = or_else (get s.base_last_used ctx.base) 0 in
      ltb 0 base_last
      && (leb best.last_used 0 || ltb best.last_used base_last)
      && not (ctx.load_blocked || ctx.prefer_base)

  -- dynamic_routes_enabled and the replica has no route yet
  abbrev pub needs_route : String → Bool
  needs_route rid = ctx.dynamic_routes && not (contains ctx.published rid)

  -- the replica is marked as loading and bound
  unfoldable pub claim_replica :
      String → ReplicaRecord → Option ℕ → ℕ → ReplicaRouterState → ReplicaRouterState
  unfolding bind_new
  claim_replica rid rec required later s = bind_new rid later (record s {
    records = put s.records rid (record rec { estimated_mib = required; status = status_loading });
  })

  -- the record as it is now, if its replica can still be started
  abbrev pub startable : Option ReplicaRecord → Option ReplicaRecord
  startable none = none
  startable (some rec) = if is_startable rec.status then some rec else none

  unfoldable pub mark_failed : String → ReplicaRouterState → ReplicaRouterState
  mark_failed rid s = elim (get s.records rid) [
    | none ↦ s
    | some rec ↦ record s { records = put s.records rid (record rec { status = status_error }) }
  ]

  -- the loop over the cold replicas; none when no replica was started
  unfoldable pub scale_out :
      Dict ℕ ℕ → ℕ → List ReplicaRecord → ReplicaRouterState → ReplicaRouterState × Option String
  unfolding claim_replica mark_failed
  scale_out used later [] s = (s, none)
  scale_out used later (rec ∷ rest) s =
      let (able, required) = fits rec.gpu_set used in
      elim (if able then startable (get s.records rec.replica_model_id) else none) [
        | none ↦ scale_out used later rest s
        | some current ↦
            let claimed = claim_replica rec.replica_model_id current required later s in
            elim (needs_route rec.replica_model_id && not (add_route rec.replica_model_id)) [
              | true ↦ scale_out used later rest (mark_failed rec.replica_model_id claimed)
              | false ↦ (claimed, some rec.replica_model_id)
            ]
      ]

  -- the last section, when no cold replica was started
  unfoldable pub choose_loaded : ℕ → ReplicaRouterState → ReplicaRouterState × Selection
  unfolding open_records choose_base choose_replica
  choose_loaded now s =
      let candidates = open_records now (replica_ids ctx) s in
      elim (sort_by last_used_before (filter is_ready_idle candidates)) [
        | chosen ∷ _ ↦ choose_replica chosen.replica_model_id now s
        | [] ↦ elim (sort_by least_loaded_before candidates) [
          | [] ↦ (s, (ctx.base, false))
          | chosen ∷ _ ↦
              if leb (base_load s ctx.base) 0
              then choose_base now s
              else choose_replica chosen.replica_model_id now s
        ]
      ]

  unfoldable pub start_replica : ℕ → ℕ → ReplicaRouterState → ReplicaRouterState × Selection
  unfolding open_records gpus_in_use defer_scale_out scale_out choose_loaded
  start_replica now later s =
      let cold_records =
        filter (λ rec. is_startable rec.status) (open_records now (replica_ids ctx) s) in
      let cold = if defer_scale_out ctx now s then [] else sort_by name_before cold_records in
      let (t, started) = scale_out (gpus_in_use s.records []) later cold s in
      elim started [ some rid ↦ (t, (rid, true)) | none ↦ choose_loaded now t ]

  unfoldable pub route_new : ℕ → ℕ → ReplicaRouterState → ReplicaRouterState × Selection
  unfolding open_records spreads choose_base choose_replica start_replica
  route_new now later s =
      if not (leb (base_load s ctx.base) 0)
      then start_replica now later s
      else elim (sort_by longest_idle_before
          (filter is_ready_idle (open_records now (replica_ids ctx) s))) [
            | best ∷ _ ↦
                if spreads best s
                then choose_replica best.replica_model_id now s
                else choose_base now s
            | [] ↦ if ctx.dynamic_routes then start_replica now later s else choose_base now s
          ]
