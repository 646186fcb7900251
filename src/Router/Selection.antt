-- ===== src/Router/Selection.antt =====
-- _cli_impl.py: `_find_affinity_spillover_candidate`, and the part of `select_replica_for_request`
-- that routes a request whose conversation has an owner.
pub mod Fresh
pub mod Request
pub mod Candidates
pub mod Owned
pub mod Spread
pub mod Claimed
pub mod Failed
use heimdall_gateway.Prelude.{
  ℕ, String, Bool, true, false, not, ◌&&◌, ◌||◌, Option, none, some, List, [], ◌∷◌, ◌++◌, map, ltb,
  leb, nat_eq, if◌then◌else◌, or_else, is_some, ◌==◌, nat_key, string_key, is_empty, any, filter,
  contains,
}
use heimdall_gateway.Dict.{get}
use heimdall_gateway.Policy.Targets.{
  TransferReason, initial_bind, sticky_refresh, TargetHealth, AffinityDecision, sticky, wait,
}
use heimdall_gateway.Policy.Config.{AffinityConfig}
use heimdall_gateway.Policy.Transfer.{decide}
use heimdall_gateway.Router.State.{ReplicaRouterState}
use heimdall_gateway.Router.Binding.{bind}
use heimdall_gateway.Router.Requests.{base_load}

-- What the handler has at hand when it selects: `replicas` pairs replica_ids with gpu_sets,
-- `dynamic_routes` is dynamic_routes_enabled, `load_blocked` is load_blocker is not None.
pub record RouteContext : Type 0 where
  pub base : String
  pub affinity_key : String
  pub replicas : List (String × List ℕ)
  pub published : List String
  pub dynamic_routes : Bool
  pub load_blocked : Bool
  pub prefer_base : Bool
  pub idle_grace : ℕ
  pub sticky_ttl : ℕ

abbrev pub replica_ids : RouteContext → List String
replica_ids ctx = map (λ replica. replica.0) ctx.replicas

abbrev pub published_replica_ids : RouteContext → List String
published_replica_ids ctx = filter (contains ctx.published) (replica_ids ctx)

-- upstream_model_id, is_replica
abbrev pub Selection : Type 0
Selection = String × Bool

-- sorted(), which is stable: `before` is the strict order of the keys
unfoldable pub insert_by : {A : Type 0} → (A → A → Bool) → A → List A → List A
insert_by before x [] = x ∷ []
insert_by before x (y ∷ ys) =
    let rest = insert_by before x ys in if before y x then y ∷ rest else x ∷ y ∷ ys

unfoldable pub sort_by : {A : Type 0} → (A → A → Bool) → List A → List A
unfolding insert_by
sort_by before [] = []
sort_by before (x ∷ xs) = insert_by before x (sort_by before xs)

-- (target, in_flight, last_used)
pub record Candidate : Type 0 where
  pub target : String
  pub in_flight : ℕ
  pub last_used : ℕ

unfoldable pub replica_candidates : String → ℕ → ReplicaRouterState → List String → List Candidate
replica_candidates bound_target now s [] = []
replica_candidates bound_target now s (rid ∷ rids) =
    let rest = replica_candidates bound_target now s rids in
    if rid == bound_target then rest else elim (get s.records rid) [
      | none ↦ rest
      | some rec ↦
          if ltb now rec.blacklist_until
          then rest
          else record { target = rid; in_flight = rec.in_flight; last_used = rec.last_used } ∷ rest
    ]

-- every status is one that `_usable` accepts
unfoldable pub usable : String → ReplicaRouterState → Candidate → Bool
usable base s c = c.target == base || is_some (get s.records c.target)

-- the key (target != base, last_used)
unfoldable pub idle_before : String → Candidate → Candidate → Bool
idle_before base a b =
    if a.target == base
    then (if b.target == base then ltb a.last_used b.last_used else true)
    else if b.target == base
    then false
    else ltb a.last_used b.last_used

-- the key (target != base, in_flight, last_used)
unfoldable pub busy_before : String → Candidate → Candidate → Bool
busy_before base a b =
    let less =
      ltb a.in_flight b.in_flight
      || (nat_eq a.in_flight b.in_flight && ltb a.last_used b.last_used) in
    if a.target == base
    then (if b.target == base then less else true)
    else if b.target == base
    then false
    else less

abbrev pub first_target : List Candidate → Option String
first_target [] = none
first_target (c ∷ cs) = some c.target

unfoldable pub base_candidates : String → String → ReplicaRouterState → List Candidate
base_candidates base bound_target s =
    if base == bound_target
    then []
    else record {
      target = base;
      in_flight = base_load s base;
      last_used = or_else (get s.base_last_used base) 0;
    }
      ∷ []

unfoldable pub find_affinity_spillover_candidate :
    String → List String → String → ℕ → ReplicaRouterState → Option String
unfolding replica_candidates base_candidates usable
find_affinity_spillover_candidate base rids bound_target now s =
    let candidates =
      replica_candidates bound_target now s rids ++ base_candidates base bound_target s in
    let able = filter (usable base s) candidates in
    let free = filter (λ c. leb c.in_flight 0) able in
    if is_empty free
    then first_target (sort_by (busy_before base) able)
    else first_target (sort_by (idle_before base) free)

-- result.target if it is set, else the base
abbrev pub selected : RouteContext → Option String → Selection
selected ctx none = (ctx.base, false)
selected ctx (some target) =
    if target == "" then (ctx.base, false) else (target, contains (replica_ids ctx) target)

abbrev pub is_kept : AffinityDecision → Bool
is_kept sticky = true
is_kept wait = true
is_kept _ = false

-- alternatives is not empty
unfoldable pub has_alternatives : RouteContext → String → Bool
has_alternatives ctx owner =
    any (λ rid. not (rid == owner)) (published_replica_ids ctx) || not (owner == ctx.base)

-- the last part, with the transfer that `decide` asks for
unfoldable pub evacuate_owner :
    RouteContext
    → AffinityConfig
    → String
    → TransferReason
    → ℕ
    → ReplicaRouterState
    → ReplicaRouterState × Selection
evacuate_owner ctx cfg owner reason now s =
    let target =
      or_else (find_affinity_spillover_candidate ctx.base (replica_ids ctx) owner now s)
        (if contains (replica_ids ctx) owner then ctx.base else owner) in
    let (t, result) = bind cfg ctx.affinity_key target reason ctx.sticky_ttl now s in
    (t, selected ctx result.target)

unfoldable pub route_owned :
    RouteContext
    → AffinityConfig
    → String
    → TargetHealth
    → ℕ
    → ReplicaRouterState
    → ReplicaRouterState × Selection
unfolding has_alternatives evacuate_owner
route_owned ctx cfg owner health now s =
    let (decision, transfer_reason) =
      decide (some owner) health (has_alternatives ctx owner) cfg now in
    if is_kept decision
    then (
      (bind cfg ctx.affinity_key owner sticky_refresh ctx.sticky_ttl now s).0,
      (owner, contains (replica_ids ctx) owner),
    )
    else evacuate_owner ctx cfg owner (or_else transfer_reason initial_bind) now s
