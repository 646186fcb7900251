-- ===== src/Router/Selection/Spread.antt =====
-- _cli_impl.py, `select_replica_for_request`: starting a replica, for a model with one replica.
use heimdall_gateway.Prelude.{
  ℕ, ◌≤◌, ◌<◌, String, ◌≡◌, refl, Bool, true, false, Option, some, List, [], ◌∷◌, arith, leb,
  if◌then◌else◌, nat_key, string_key,
}
use heimdall_gateway.Dict.{Dict, get}
use heimdall_gateway.Policy.Config.{AffinityConfig}
use heimdall_gateway.Router.State.{ReplicaRecord, ReplicaRouterState}
use heimdall_gateway.Router.Requests.{base_load}
use heimdall_gateway.Router.Selection.{RouteContext, replica_ids, insert_by, sort_by}
use heimdall_gateway.Router.Selection.Fresh.{
  is_startable, is_ready_idle, open_records, defer_scale_out, choose_base, choose_replica,
  startable, scale_out, choose_loaded, start_replica, route_new,
}

-- a replica that is not started, serves nothing and is not quarantined
pub record IsCold (rec : ReplicaRecord) (now : ℕ) : Type 0 where
  pub is_not_started : is_startable rec.status ≡ true
  pub is_unused : rec.in_flight ≡ 0
  pub is_open : rec.blacklist_until ≤ now

pub cold-is_ready_idle :
    (rec : ReplicaRecord) → is_startable rec.status ≡ true → is_ready_idle rec ≡ false
cold-is_ready_idle rec startable = ground arith

ground_busy : (n : ℕ) → 0 < n → leb n 0 ≡ false
ground_busy n busy = ground arith

module _ (fits : List ℕ → Dict ℕ ℕ → Bool × Option ℕ) (add_route : String → Bool)
    (cfg : AffinityConfig) (ctx : RouteContext) (rec : ReplicaRecord) (gpus : List ℕ)
    (one : ctx.replicas ≡ (rec.replica_model_id, gpus) ∷ []) where
  pub open_records-one :
      (now : ℕ) (s : ReplicaRouterState) (r : ReplicaRecord)
      → get s.records rec.replica_model_id ≡ some r
      → r.blacklist_until ≤ now
      → open_records now (replica_ids ctx) s ≡ r ∷ []
  unfolding open_records
  open_records-one now s r found quiet = rw (one, open_records, found) (ground arith)

  pub choose_loaded-IsCold :
      (now : ℕ) (s : ReplicaRouterState) (r : ReplicaRecord)
      → get s.records rec.replica_model_id ≡ some r
      → IsCold r now
      → choose_loaded fits add_route cfg ctx now s ≡ (
          if leb (base_load s ctx.base) 0
          then choose_base fits add_route cfg ctx now s
          else choose_replica fits add_route cfg ctx r.replica_model_id now s)
  unfolding choose_loaded sort_by insert_by
  choose_loaded-IsCold now s r found unstarted =
      rw
        (
          choose_loaded,
          open_records-one now s r found unstarted.is_open,
          cold-is_ready_idle r unstarted.is_not_started,
          open_records-one now s r found unstarted.is_open,
        )
        refl

  deferred :
      (now : ℕ) (s : ReplicaRouterState)
      → ctx.load_blocked ≡ true
      → defer_scale_out ctx now s ≡ true
  unfolding defer_scale_out
  deferred now s blocked = rw (blocked, defer_scale_out) refl

  -- While a conflicting load forbids to start a replica, a request that is routed with no owner, and
  -- whose base is busy, is still sent to the only replica of the model, though that replica is not
  -- started, as long as it serves nothing and is not quarantined.
  pub route_new-IsCold :
      (now later : ℕ) (s : ReplicaRouterState)
      → get s.records rec.replica_model_id ≡ some rec
      → IsCold rec now
      → ctx.load_blocked ≡ true
      → 0 < base_load s ctx.base
      → (route_new fits add_route cfg ctx now later s).1 ≡ (rec.replica_model_id, true)
  unfolding route_new start_replica scale_out choose_replica
  route_new-IsCold now later s found unstarted blocked busy =
      rw
        (
          route_new,
          ground_busy (base_load s ctx.base) busy,
          start_replica,
          deferred now s blocked,
          deferred now s blocked,
          choose_loaded-IsCold now s rec found unstarted,
          ground_busy (base_load s ctx.base) busy,
        )
        refl
