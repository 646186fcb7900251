-- ===== src/Tests/Selection.antt =====
-- `blocking_conflicting_load` and `select_replica_for_request` at concrete inputs: a model with the
-- base "m" and the replica "m__replica_0" on GPU 1.
use heimdall_gateway.Prelude.{
  ℕ, String, ◌≡◌, refl, ◌⊎◌, Bool, true, false, Option, some, List, [], ◌∷◌, arith, nat_key,
  string_key, drop,
}
use heimdall_gateway.Dict.{Dict, get}
use heimdall_gateway.Prelude.Text.{has_prefix}
use heimdall_gateway.Policy.Config.{affinity_policy_defaults}
use heimdall_gateway.Policy.Transfer.{MayLeave}
use heimdall_gateway.Router.State.{
  status_error, ReplicaRecord, new_record, ReplicaRouterState, new_state,
}
use heimdall_gateway.Router.Binding.{owner_of}
use heimdall_gateway.Router.Requests.{base_load}
use heimdall_gateway.Router.Health.{health_of}
use heimdall_gateway.Router.Conflicts.{
  is_number, is_replica_tag, replica_base_model_id, matrix_models_conflict, blocks, blocking,
  oldest, blocking_conflicting_load,
}
use heimdall_gateway.Router.Selection.{
  RouteContext, insert_by, sort_by, replica_candidates, usable, base_candidates,
  find_affinity_spillover_candidate, has_alternatives,
}
use heimdall_gateway.Router.Selection.Fresh.{gpus_in_use, defer_scale_out, route_new}
use heimdall_gateway.Router.Selection.Request.{
  mapped_replica, known_replica, select_replica_for_request,
}
use heimdall_gateway.Router.Selection.Owned.{prepared, select_replica_for_request-keeps}
use heimdall_gateway.Router.Selection.Spread.{route_new-IsCold}
use heimdall_gateway.Router.Selection.Failed.{route_new-failed}

base_of_replica : replica_base_model_id "m__replica_12" ≡ "m"
unfolding replica_base_model_id is_replica_tag is_number drop has_prefix
base_of_replica = refl

base_of_other : replica_base_model_id "m__replica_x" ≡ "m__replica_x"
unfolding replica_base_model_id is_replica_tag is_number drop has_prefix
base_of_other = refl

abbrev sets : Dict String (List String)
sets = ("m", "left" ∷ []) ∷ ("n", "left" ∷ "right" ∷ []) ∷ ("o", "right" ∷ []) ∷ []

abbrev loading_n : ReplicaRouterState
loading_n = record new_state {
  loading_claims = ("n__replica_0", 900000) ∷ ("m__replica_0", 900000) ∷ [];
}

n_blocks : blocking_conflicting_load sets "m" 5000 loading_n ≡ some ("n", 5000)
unfolding blocking_conflicting_load oldest blocking blocks matrix_models_conflict
    replica_base_model_id is_replica_tag is_number drop has_prefix get
n_blocks = refl

abbrev context : RouteContext
context = record {
  base = "m";
  affinity_key = "chat";
  replicas = ("m__replica_0", 1 ∷ []) ∷ [];
  published = "m" ∷ [];
  dynamic_routes = true;
  load_blocked = false;
  prefer_base = false;
  idle_grace = 0;
  sticky_ttl = 1800000;
}

abbrev owned_by_base : ReplicaRouterState
owned_by_base = record new_state {
  affinity = ("chat", ("m", 2000000)) ∷ [];
  base_in_flight = ("m", 9) ∷ [];
}

abbrev always_fits : List ℕ → Dict ℕ ℕ → Bool × Option ℕ
always_fits gpus used = (true, some 4096)

abbrev never_added : String → Bool
never_added rid = false

abbrev alive : ℕ → Bool
alive pid = true

abbrev answers : ℕ → ℕ → Option ℕ
answers port timeout = some 200

abbrev silent : ℕ → String
silent code = ""

select_replica_for_request-keeps_example :
    let after =
      select_replica_for_request alive answers silent always_fits never_added
        affinity_policy_defaults context true "" 1 1000 1000 owned_by_base in
    let health =
      (health_of alive answers silent affinity_policy_defaults "m" 1 1000
        (prepared context "" 1000 owned_by_base)).1 in
    ((after.1 ≡ ("m", false)) × (owner_of after.0 "chat" 1000 ≡ some "m"))
    ⊎ MayLeave health (has_alternatives context "m") affinity_policy_defaults 1000
unfolding owner_of get known_replica mapped_replica
select_replica_for_request-keeps_example =
    select_replica_for_request-keeps alive answers silent always_fits never_added
      affinity_policy_defaults context "" "m" 1 1000 1000 owned_by_base refl refl refl (omega arith)
      refl refl

base_replaces :
    find_affinity_spillover_candidate "m" ("m__replica_0" ∷ []) "m__replica_0" 1000 owned_by_base
    ≡ some "m"
unfolding find_affinity_spillover_candidate replica_candidates base_candidates usable sort_by
    insert_by base_load get
base_replaces = refl

abbrev unstarted : ReplicaRecord
unstarted = new_record "m" "m__replica_0" (1 ∷ [])

abbrev known_unstarted : ReplicaRouterState
known_unstarted = record new_state { records = ("m__replica_0", unstarted) ∷ [] }

route_new-IsCold_example :
    (route_new always_fits never_added affinity_policy_defaults
      (record context { load_blocked = true })
      1000
      1000
      (record known_unstarted { base_in_flight = ("m", 1) ∷ [] })).1
    ≡ ("m__replica_0", true)
unfolding get base_load
route_new-IsCold_example =
    route_new-IsCold always_fits never_added affinity_policy_defaults
      (record context { load_blocked = true }) unstarted (1 ∷ []) refl 1000 1000
      (record known_unstarted { base_in_flight = ("m", 1) ∷ [] }) refl
      (record { is_not_started = refl; is_unused = refl; is_open = omega arith }) refl (omega arith)

route_new-failed_example :
    let after =
      route_new always_fits never_added affinity_policy_defaults context 1000 1000
        known_unstarted in
    (after.1 ≡ ("m", false))
    × (owner_of after.0 "chat" 1500 ≡ some "m__replica_0")
    × (get after.0.records "m__replica_0"
        ≡ some (record unstarted { estimated_mib = some 4096; status = status_error }))
unfolding get base_load owner_of defer_scale_out gpus_in_use
route_new-failed_example =
    route_new-failed always_fits never_added affinity_policy_defaults context unstarted (1 ∷ [])
      refl 1000 1000 1500 known_unstarted refl
      (record { is_not_started = refl; is_unused = refl; is_open = omega arith }) refl (omega arith)
      (omega arith) (omega arith) refl refl refl refl refl refl refl
