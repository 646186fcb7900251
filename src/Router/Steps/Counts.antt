-- ===== src/Router/Steps/Counts.antt =====
-- _cli_impl.py, `ReplicaRouterState`: how many requests a target serves, in every state that the steps
-- of the router reach.
use heimdall_gateway.Router.Steps.{
  admits, passes, finishes, binds, prunes, binds_response, reads_response, claims_loading,
  releases_claim, notes_demand, claims_override, measures, starts, fails_to_start, registers,
  synchronises, at_first, later,
}
use Prim.Native.String.{String}
use heimdall_gateway.Prelude.{
  ℕ, ◌+◌, ◌-◌, ◌≤◌, ◌<◌, ◌≡◌, refl, ap, ◌∙◌, inl, inr, ◌||◌, Option, List, [], ◌∷◌, arith, eq_iff,
  leb, nat_eq, if◌then◌else◌, Bool-cases, if_elim, ◌==◌, nat_key, string_key,
}
use heimdall_gateway.Dict.{get}
use heimdall_gateway.Policy.Config.{AffinityConfig}
use heimdall_gateway.Router.State.{ReplicaRouterState, new_state}
use heimdall_gateway.Router.Requests.{
  base_load, in_flight_of, in_flight_of-started, in_flight_of-finished,
}
use heimdall_gateway.Router.Binding.Ownership.{bind-records}
use heimdall_gateway.Router.Sync.Counts.{IsSettled, sync-SyncsLoad, set_records-SyncsLoad}
use heimdall_gateway.Router.Limit.{
  limited_target, reject_if_concurrent_limit_exceeded, in_flight_of-take_slot,
}
use heimdall_gateway.Router.Steps.{
  Step, Event, began, passed, ended, nothing, admission_event, event_of, Reach,
}
use heimdall_gateway.Router.Steps.Loads.{
  SameCounts-SameLoad, response_replica-SameCore, bind_response-SameCore, claim_loading-SameCore,
  prune-SameCounts, release-SameCore, note_gpu_demand-SameCore, claim_gpu_override-SameCore,
  health_of-SameLoad, claim_replica-SameLoad, mark_failed-SameLoad,
}

-- the count after an event, from the count before it
abbrev pub counted_after : Event → String → ℕ → ℕ
counted_after (began target) j n = if target == j then n + 1 else n
counted_after (passed target) j n = if target == j then n + 1 else n
counted_after (ended target) j n = if target == j then n - 1 else n
counted_after nothing j n = n

-- the requests of a target that began and have not ended
abbrev pub running : List Event → String → ℕ
running [] j = 0
running (event ∷ history) j = counted_after event j (running history j)

-- the requests of a target that began without asking for the limit
abbrev pub unlimited_after : Event → String → ℕ → ℕ
unlimited_after (passed target) j n = if target == j then n + 1 else n
unlimited_after event j n = n

abbrev pub unlimited : List Event → String → ℕ
unlimited [] j = 0
unlimited (event ∷ history) j = unlimited_after event j (unlimited history j)

exactly : (K : Type 0) (m n : ℕ) → m ≡ n → (m ≤ n) × (K → m ≡ n)
exactly K m n e = (omega (arith, e), λ kept. e)

module _ (limit : ℕ) (cfg : AffinityConfig) where
  -- where a step adds records, it forgets no request of this target; other steps never do
  abbrev pub Remembers : (j : String) (s t : ReplicaRouterState) → Step limit cfg s t → Type 0
  Remembers j s _ (synchronises now o replicas) = IsSettled j s
  Remembers j s _ (registers base replicas) = IsSettled j s
  Remembers j s _ step = Unit

  admits-counted_after :
      (model_name : String) (upstream : Option String) (now : ℕ) (s : ReplicaRouterState)
      (j : String)
      → in_flight_of (reject_if_concurrent_limit_exceeded limit model_name upstream now s).0 j
        ≡ counted_after (admission_event limit model_name upstream s) j (in_flight_of s j)
  unfolding reject_if_concurrent_limit_exceeded admission_event
  admits-counted_after model_name upstream now s j =
      let target = limited_target model_name upstream in
      elim (Bool-cases (nat_eq limit 0 || target == "")) [
        | inl e ↦ rw e refl
        | inr e ↦ elim (Bool-cases (leb limit (in_flight_of s target))) [
          | inl full ↦ rw (e, full) refl
          | inr room ↦ rw (e, room) (in_flight_of-take_slot target j now s)
        ]
      ]

  -- an admitted request leaves its target within any bound that is the limit or more
  admission_event-bound :
      (model_name : String) (upstream : Option String) (s : ReplicaRouterState) (j : String)
      (bound : ℕ)
      → 0 < limit
      → limit ≤ bound
      → in_flight_of s j ≤ bound
      → counted_after (admission_event limit model_name upstream s) j (in_flight_of s j) ≤ bound
  unfolding admission_event
  admission_event-bound model_name upstream s j bound some_limit wide within =
      let target = limited_target model_name upstream in
      if_elim (λ event. counted_after event j (in_flight_of s j) ≤ bound)
        (nat_eq limit 0 || target == "") _ _ within
        (elim (Bool-cases (leb limit (in_flight_of s target))) [
          | inl full ↦ rw full within
          | inr room ↦ rw room (elim (Bool-cases (target == j)) [
            | inl same ↦
                rw same (
                  let at_j = ap (in_flight_of s) ((eq_iff target j).0 same) in ground (arith, at_j))
            | inr other ↦ rw other within
          ])
        ])

  admission_event-unlimited :
      (model_name : String) (upstream : Option String) (s : ReplicaRouterState) (j : String) (n : ℕ)
      → unlimited_after (admission_event limit model_name upstream s) j n ≡ n
  unfolding admission_event
  admission_event-unlimited model_name upstream s j n =
      let target = limited_target model_name upstream in
      if_elim (λ event. unlimited_after event j n ≡ n) (nat_eq limit 0 || target == "") _ _ refl
        (if_elim (λ event. unlimited_after event j n ≡ n) (leb limit (in_flight_of s target)) _ _
          refl refl)

  -- every step changes the count of a target by its event, unless it adds records and forgets requests
  Step-counted_after :
      (j : String) (s t : ReplicaRouterState) (step : Step limit cfg s t)
      → (in_flight_of t j ≤ counted_after (event_of limit cfg s t step) j (in_flight_of s j))
        × (Remembers j s t step
            → in_flight_of t j ≡ counted_after (event_of limit cfg s t step) j (in_flight_of s j))
  Step-counted_after j s _ (admits model_name upstream now) =
      exactly _ _ _ (admits-counted_after model_name upstream now s j)
  Step-counted_after j s _ (passes target now) = exactly _ _ _ (in_flight_of-started target j now s)
  Step-counted_after j s _ (finishes target ok fault now) =
      exactly _ _ _ (in_flight_of-finished target j ok fault now s)
  Step-counted_after j s t (binds key target reason ttl now) =
      exactly _ _ _ (SameCounts-SameLoad s _ (bind-records cfg key target reason ttl now s) j)
  Step-counted_after j s _ (prunes now) =
      exactly _ _ _ (SameCounts-SameLoad s _ (prune-SameCounts now s) j)
  Step-counted_after j s _ (binds_response response_id replica_id ttl now) =
      exactly _ _ _
        (SameCounts-SameLoad s _ (bind_response-SameCore response_id replica_id ttl now s).0 j)
  Step-counted_after j s _ (reads_response response_id now) =
      exactly _ _ _ (SameCounts-SameLoad s _ (response_replica-SameCore response_id now s).0 j)
  Step-counted_after j s _ (claims_loading model_id is_replica running claim_key now) =
      exactly _ _ _ (
        SameCounts-SameLoad s _
          (claim_loading-SameCore model_id is_replica running claim_key now s).0 j)
  Step-counted_after j s _ (releases_claim model_id) =
      exactly _ _ _ (SameCounts-SameLoad s _ (release-SameCore model_id s).0 j)
  Step-counted_after j s _ (notes_demand gpu_set ttl now) =
      exactly _ _ _ (SameCounts-SameLoad s _ (note_gpu_demand-SameCore gpu_set ttl now s).0 j)
  Step-counted_after j s _ (claims_override model_id gpu_set ttl min_interval now) = exactly _ _ _ (
      SameCounts-SameLoad s _
        (claim_gpu_override-SameCore model_id gpu_set ttl min_interval now s).0 j)
  Step-counted_after j s _ (measures pid_alive probe show target capacity now) =
      exactly _ _ _ (health_of-SameLoad pid_alive probe show cfg target capacity now s j)
  Step-counted_after j s _ (starts fits add_route ctx replica_id rec required now found) =
      exactly _ _ _
        (claim_replica-SameLoad fits add_route cfg ctx s replica_id rec required now found j)
  Step-counted_after j s _ (fails_to_start fits add_route ctx replica_id) =
      exactly _ _ _ (mark_failed-SameLoad fits add_route cfg ctx s replica_id j)
  Step-counted_after j s _ (registers base replicas) =
      let (few, same) = set_records-SyncsLoad base replicas s j in
      (few, λ settled. (same settled).1)
  Step-counted_after j s _ (synchronises now o replicas) =
      let (few, same) = sync-SyncsLoad now o replicas s j in (few, λ settled. (same settled).1)

  -- no step of this run forgets a request of the target
  abbrev pub Undisturbed :
      (j : String) (history : List Event) (s : ReplicaRouterState)
      → Reach limit cfg history s
      → Type 0
  Undisturbed j _ _ at_first = Unit
  Undisturbed j _ _ (later history s t reached step) =
      Undisturbed j history s reached × Remembers j s t step

  nothing_new : (j : String) → in_flight_of new_state j ≡ 0
  unfolding in_flight_of base_load get
  nothing_new j = refl

  event_within :
      (j : String) (s t : ReplicaRouterState) (step : Step limit cfg s t) (extra : ℕ)
      → 0 < limit
      → in_flight_of s j ≤ limit + extra
      → counted_after (event_of limit cfg s t step) j (in_flight_of s j)
        ≤ limit + unlimited_after (event_of limit cfg s t step) j extra
  event_within j s _ (admits model_name upstream now) extra some_limit within =
      rw (admission_event-unlimited model_name upstream s j extra) (
        admission_event-bound model_name upstream s j (limit + extra) some_limit (omega arith)
          within)
  event_within j s _ (passes target now) extra some_limit within = ground arith
  event_within j s _ (finishes target ok fault now) extra some_limit within =
      if_elim (λ n. n ≤ limit + extra) (target == j) _ _ (omega arith) within
  event_within j s t step extra some_limit within = within

  -- In every reachable state, whatever the order of the steps of requests, the reaper and the
  -- synchronisation, no target counts more requests than a positive limit and those that began
  -- without asking for it: where none of a target did, the limit is never exceeded.
  pub Reach-in_flight_le :
      (history : List Event) (s : ReplicaRouterState) (j : String)
      → 0 < limit
      → Reach limit cfg history s
      → in_flight_of s j ≤ limit + unlimited history j
  Reach-in_flight_le _ _ j some_limit at_first = omega (arith, nothing_new j)
  Reach-in_flight_le _ _ j some_limit (later history s t reached step) =
      let within = Reach-in_flight_le history s j some_limit reached in
      let bound = event_within j s t step (unlimited history j) some_limit within in
      omega (arith, (Step-counted_after j s t step).0, bound)

  counts_running :
      (history : List Event) (s : ReplicaRouterState) (j : String)
      (reached : Reach limit cfg history s)
      → Undisturbed j history s reached
      → in_flight_of s j ≡ running history j
  counts_running _ _ j at_first quiet = nothing_new j
  counts_running _ _ j (later history s t reached step) (quiet, remembered) =
      (Step-counted_after j s t step).1 remembered
      ∙ ap (counted_after (event_of limit cfg s t step) j)
          (counts_running history s j reached quiet)

  -- In every run from the start in which no step adds a record for a target that is counted without
  -- one, the router counts exactly the requests of the target that began and have not ended, and with
  -- a positive limit there are never more of them than the limit and those that did not ask for it.
  pub Reach-running :
      (history : List Event) (s : ReplicaRouterState) (j : String)
      → 0 < limit
      → (reached : Reach limit cfg history s) → Undisturbed j history s reached
      → (in_flight_of s j ≡ running history j) × (running history j ≤ limit + unlimited history j)
  Reach-running history s j some_limit reached quiet =
      let counted = counts_running history s j reached quiet in
      (counted, omega (arith, counted, Reach-in_flight_le history s j some_limit reached))
