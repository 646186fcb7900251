-- ===== src/Router/Steps/Loads.antt =====
-- _cli_impl.py, `ReplicaRouterState`: the steps that leave the count of every target as it was.
use heimdall_gateway.Router.Health.Evidence.{known, cached, asked}
use Prim.Native.String.{String}
use heimdall_gateway.Prelude.{
  ℕ, ◌≡◌, refl, inl, inr, Bool, ◌||◌, Option, none, some, List, [], ◌∷◌, arith, eq_iff,
  Option-cases, if_elim, ◌==◌, nat_key, string_key,
}
use heimdall_gateway.Dict.{Dict, get, put, get-put}
use heimdall_gateway.Policy.Targets.{initial_bind, TargetHealth}
use heimdall_gateway.Policy.Config.{AffinityConfig}
use heimdall_gateway.Router.State.{status_loading, ReplicaRecord, ReplicaRouterState}
use heimdall_gateway.Router.Binding.Ownership.{bind-records}
use heimdall_gateway.Router.Prune.{bind_response, found_response, response_replica, prune}
use heimdall_gateway.Router.Requests.{base_load, in_flight_of}
use heimdall_gateway.Router.Claims.{drop_expired_claims, claim_loading, release_loading_claim}
use heimdall_gateway.Router.Overrides.{note_gpu_demand, claim_gpu_override}
use heimdall_gateway.Router.Health.{remember, health_of}
use heimdall_gateway.Router.Health.Evidence.{Way, health_of-Way}
use heimdall_gateway.Router.Selection.{RouteContext}
use heimdall_gateway.Router.Selection.Fresh.{bind_new, claim_replica, mark_failed}

-- the records and the counts of the bases stay
abbrev pub SameCounts : ReplicaRouterState → ReplicaRouterState → Type 0
SameCounts s t = (t.records ≡ s.records) × (t.base_in_flight ≡ s.base_in_flight)

-- the transfer budgets and the measurements stay
abbrev pub SameLedgers : ReplicaRouterState → ReplicaRouterState → Type 0
SameLedgers s t = (t.affinity_budget ≡ s.affinity_budget) × (t.health_cache ≡ s.health_cache)

abbrev pub SameCore : ReplicaRouterState → ReplicaRouterState → Type 0
SameCore s t = SameCounts s t × SameLedgers s t

abbrev pub SameLoad : ReplicaRouterState → ReplicaRouterState → Type 0
SameLoad s t = (j : String) → in_flight_of t j ≡ in_flight_of s j

pub SameCounts-SameLoad : (s t : ReplicaRouterState) → SameCounts s t → SameLoad s t
unfolding in_flight_of base_load
SameCounts-SameLoad s t (records, bases) j = rw (records, bases) refl

pub response_replica-SameCore :
    (response_id : String) (now : ℕ) (s : ReplicaRouterState)
    → SameCore s (response_replica response_id now s).0
unfolding response_replica found_response
response_replica-SameCore response_id now s =
    ((ground arith, ground arith), (ground arith, ground arith))

pub bind_response-SameCore :
    (response_id replica_id : String) (ttl now : ℕ) (s : ReplicaRouterState)
    → SameCore s (bind_response response_id replica_id ttl now s)
unfolding bind_response
bind_response-SameCore response_id replica_id ttl now s =
    if_elim (SameCore s) (response_id == "" || replica_id == "") _ _ ((refl, refl), (refl, refl))
      ((refl, refl), (refl, refl))

pub claim_loading-SameCore :
    (model_id : String) (is_replica running : Bool) (claim_key : Option String) (now : ℕ)
    (s : ReplicaRouterState)
    → SameCore s (claim_loading model_id is_replica running claim_key now s).0
unfolding claim_loading drop_expired_claims
claim_loading-SameCore model_id is_replica running claim_key now s =
    ((ground arith, ground arith), (ground arith, ground arith))

pub prune-SameCounts : (now : ℕ) (s : ReplicaRouterState) → SameCounts s (prune now s)
unfolding prune
prune-SameCounts now s = (refl, refl)

pub release-SameCore :
    (model_id : String) (s : ReplicaRouterState) → SameCore s (release_loading_claim model_id s)
unfolding release_loading_claim
release-SameCore model_id s = ((refl, refl), (refl, refl))

pub note_gpu_demand-SameCore :
    (gpu_set : Option (List ℕ)) (ttl now : ℕ) (s : ReplicaRouterState)
    → SameCore s (note_gpu_demand gpu_set ttl now s)
unfolding note_gpu_demand
note_gpu_demand-SameCore none ttl now s = ((refl, refl), (refl, refl))
note_gpu_demand-SameCore (some []) ttl now s = ((refl, refl), (refl, refl))
note_gpu_demand-SameCore (some (gpu ∷ gpus)) ttl now s = ((refl, refl), (refl, refl))

pub claim_gpu_override-SameCore :
    (model_id : String) (gpu_set : List ℕ) (ttl min_interval now : ℕ) (s : ReplicaRouterState)
    → SameCore s (claim_gpu_override model_id gpu_set ttl min_interval now s).0
unfolding claim_gpu_override
claim_gpu_override-SameCore model_id gpu_set ttl min_interval now s =
    ((ground arith, ground arith), (ground arith, ground arith))

-- a record is replaced by one that serves as many requests
put-SameLoad :
    (s t : ReplicaRouterState) (target : String) (rec new : ReplicaRecord)
    → get s.records target ≡ some rec
    → new.in_flight ≡ rec.in_flight
    → t.records ≡ put s.records target new
    → t.base_in_flight ≡ s.base_in_flight
    → SameLoad s t
unfolding in_flight_of base_load
put-SameLoad s t target rec new found same records bases j =
    rw (records, bases) (ground (arith, get-put s.records target j new, eq_iff target j))

module _ (pid_alive : ℕ → Bool) (probe : ℕ → ℕ → Option ℕ) (show : ℕ → String)
    (cfg : AffinityConfig) (target : String) (capacity now : ℕ) (s : ReplicaRouterState) where
  remember-SameLoad :
      (rec : ReplicaRecord) (health : TargetHealth)
      → get s.records target ≡ some rec
      → SameLoad s (remember pid_alive probe show cfg target now rec health s)
  unfolding remember
  remember-SameLoad rec health found =
      if_elim (SameLoad s) health.confirmed_dead _ _
        (put-SameLoad s _ target rec _ found refl refl refl)
        (put-SameLoad s _ target rec _ found refl refl refl)

  Way-SameLoad :
      (m : ReplicaRouterState × TargetHealth)
      → Way pid_alive probe show cfg target capacity now s m
      → SameLoad s m.0
  Way-SameLoad _ (known health alive) = λ j. refl
  Way-SameLoad _ (cached health expires found) = λ j. refl
  Way-SameLoad _ (asked rec found) = remember-SameLoad rec _ found

  pub health_of-SameLoad : SameLoad s (health_of pid_alive probe show cfg target capacity now s).0
  health_of-SameLoad = Way-SameLoad _ (health_of-Way pid_alive probe show cfg target capacity now s)

module _ (fits : List ℕ → Dict ℕ ℕ → Bool × Option ℕ) (add_route : String → Bool)
    (cfg : AffinityConfig) (ctx : RouteContext) (s : ReplicaRouterState) where
  pub claim_replica-SameLoad :
      (replica_id : String) (rec : ReplicaRecord) (required : Option ℕ) (now : ℕ)
      → get s.records replica_id ≡ some rec
      → SameLoad s (claim_replica fits add_route cfg ctx replica_id rec required now s)
  unfolding claim_replica bind_new
  claim_replica-SameLoad replica_id rec required now found =
      let t = record s {
        records =
            put s.records replica_id
              (record rec { estimated_mib = required; status = status_loading });
      } in
      let (records, bases) =
        bind-records cfg ctx.affinity_key replica_id initial_bind ctx.sticky_ttl now t in
      put-SameLoad s _ replica_id rec _ found refl records bases

  pub mark_failed-SameLoad :
      (replica_id : String) → SameLoad s (mark_failed fits add_route cfg ctx replica_id s)
  unfolding mark_failed
  mark_failed-SameLoad replica_id = elim (Option-cases (get s.records replica_id)) [
    | inl e ↦ rw (mark_failed, e) (λ j. refl)
    | inr (rec, e) ↦ rw (mark_failed, e) (put-SameLoad s _ replica_id rec _ e refl refl refl)
  ]
