-- ===== src/Router/Prune.antt =====
-- _cli_impl.py: `ReplicaRouterState.prune`, `bind_response`, `response_replica` and the readers of
-- values with a deadline.
use heimdall_gateway.Prelude.{
  ℕ, ◌+◌, ◌≤◌, String, ◌≡◌, Bool, true, false, ◌||◌, Option, none, some, List, arith, ltb, leb,
  if◌then◌else◌, Option-cases, is_some, ◌==◌, nat_key, string_key,
}
use heimdall_gateway.Dict.{get, put, pop, retain, get-retain}
use heimdall_gateway.Router.State.{ReplicaRouterState}
use heimdall_gateway.Router.Binding.{unexpired, owner_of}

-- if not response_id or not replica_id: return
unfoldable pub bind_response : String → String → ℕ → ℕ → ReplicaRouterState → ReplicaRouterState
bind_response response_id replica_id ttl now s =
    if response_id == "" || replica_id == "" then s else record s {
      response_to_replica = put s.response_to_replica response_id (replica_id, now + ttl);
    }

-- what is found, and whether it has expired
unfoldable pub found_response :
    String → ℕ → ReplicaRouterState → Option (String × ℕ) → ReplicaRouterState × Option String
found_response response_id now s none = (s, none)
found_response response_id now s (some (replica_id, expires)) =
    if leb expires now
    then (record s { response_to_replica = pop s.response_to_replica response_id }, none)
    else (s, some replica_id)

unfoldable pub response_replica :
    String → ℕ → ReplicaRouterState → ReplicaRouterState × Option String
unfolding found_response
response_replica response_id now s =
    if response_id == ""
    then (s, none)
    else found_response response_id now s (get s.response_to_replica response_id)

-- {gpu for gpu, expires in self.gpu_demand.items() if expires > moment}, as a test
unfoldable pub demands : ReplicaRouterState → ℕ → ℕ → Bool
demands s now gpu = elim (get s.gpu_demand gpu) [ none ↦ false | some expires ↦ ltb now expires ]

unfoldable pub live_gpu_override : String → ℕ → ReplicaRouterState → Option (List ℕ)
live_gpu_override model_id now s = unexpired now (get s.gpu_override model_id)

abbrev is_live : {A : Type 0} → ℕ → A × ℕ → Bool
is_live now (v, expires) = ltb now expires

-- the models whose override has expired lose the time of their last write too
abbrev keeps_override : ReplicaRouterState → ℕ → String → Bool
keeps_override s now model_id = elim (get s.gpu_override model_id) [
  | none ↦ true
  | some (gpus, expires) ↦ ltb now expires
]

unfoldable pub prune : ℕ → ReplicaRouterState → ReplicaRouterState
prune now s =
    let affinity = retain (λ k v. is_live now v) s.affinity in
    record s {
      affinity = affinity;
      response_to_replica = retain (λ k v. is_live now v) s.response_to_replica;
      affinity_budget = retain (λ k b. is_some (get affinity k)) s.affinity_budget;
      health_cache = retain (λ k v. ltb now v.0) s.health_cache;
      gpu_demand = retain (λ gpu expires. ltb now expires) s.gpu_demand;
      gpu_override = retain (λ k v. is_live now v) s.gpu_override;
      gpu_override_written_at = retain (λ k v. keeps_override s now k) s.gpu_override_written_at;
    }

module _ (now later : ℕ) (s : ReplicaRouterState) (after : now ≤ later) where
  -- Pruning is invisible to readers: at its time and at every later one they see the same owner
  -- of a conversation, the same replica of a response, the same demand for a GPU and the same
  -- override as they would have seen without it.
  pub prune-readers :
      (k : String) (gpu : ℕ)
      → (owner_of (prune now s) k later ≡ owner_of s k later)
        × ((response_replica k later (prune now s)).1 ≡ (response_replica k later s).1)
        × (demands (prune now s) later gpu ≡ demands s later gpu)
        × (live_gpu_override k later (prune now s) ≡ live_gpu_override k later s)
  unfolding prune owner_of response_replica demands live_gpu_override
  prune-readers k gpu = (
    ground (arith, get-retain (λ k v. is_live now v) s.affinity k),
    ground (arith, get-retain (λ k v. is_live now v) s.response_to_replica k),
    ground (arith, get-retain (λ gpu expires. ltb now expires) s.gpu_demand gpu),
    ground (arith, get-retain (λ k v. is_live now v) s.gpu_override k),
  )

  -- After pruning a budget is kept for exactly the conversations that still have an owner, and is
  -- then the budget from before.
  pub prune-budgets :
      (k : String)
      → get (prune now s).affinity_budget k
        ≡ (if is_some (owner_of s k now) then get s.affinity_budget k else none)
  unfolding prune owner_of
  prune-budgets k =
      let live = retain (λ k v. is_live now v) s.affinity in
      ground (
        arith,
        get-retain (λ k b. is_some (get live k)) s.affinity_budget k,
        get-retain (λ k v. is_live now v) s.affinity k,
        Option-cases (get s.affinity_budget k),
      )
