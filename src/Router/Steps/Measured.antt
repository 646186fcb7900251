-- ===== src/Router/Steps/Measured.antt =====
-- _cli_impl.py, `health_of`: what it says of a target that died, in every state that the steps of the
-- router reach.
use Prim.Native.String.{String}
use heimdall_gateway.Prelude.{
  ℕ, ◌≡◌, refl, sym, ap, ◌∙◌, ◌⊎◌, inl, inr, Bool, true, Option, some, List, arith, ltb,
  Option-cases, nat_key, string_key,
}
use heimdall_gateway.Dict.{get, get-retain}
use heimdall_gateway.Policy.Targets.{TransferReason, TargetHealth}
use heimdall_gateway.Policy.Config.{AffinityConfig}
use heimdall_gateway.Router.State.{status_error, ReplicaRouterState, new_state}
use heimdall_gateway.Router.Binding.{bind_free, bind_refused, bind_owned, bind}
use heimdall_gateway.Router.Binding.Ownership.{bind-cases}
use heimdall_gateway.Router.Prune.{prune}
use heimdall_gateway.Router.Health.{health_of}
use heimdall_gateway.Router.Health.Evidence.{
  CacheAlive, status_of, health_of-CacheAlive, Evidence, health_of-dead, health_of-error,
}
use heimdall_gateway.Router.Steps.{Event, Reach}
use heimdall_gateway.Router.Steps.Ledgers.{Reach_kept}

kept-CacheAlive :
    (s t : ReplicaRouterState) → t.health_cache ≡ s.health_cache → CacheAlive s → CacheAlive t
kept-CacheAlive s t same alive = record {
  at_key = λ j entry found. alive.at_key j entry (ap (λ cache. get cache j) (sym same) ∙ found);
}

prune-CacheAlive : (now : ℕ) (s : ReplicaRouterState) → CacheAlive s → CacheAlive (prune now s)
unfolding prune
prune-CacheAlive now s alive = record {
  at_key = λ j entry found. ground (
    arith,
    get-retain (λ k (v : ℕ × TargetHealth). ltb now v.0) s.health_cache j,
    Option-cases (get s.health_cache j),
    alive.at_key j entry,
  );
}

bind_cache :
    (cfg : AffinityConfig) (key target : String) (reason : TransferReason) (ttl now : ℕ)
    (s : ReplicaRouterState)
    → (bind cfg key target reason ttl now s).0.health_cache ≡ s.health_cache
unfolding bind_free bind_owned bind_refused
bind_cache cfg key target reason ttl now s = elim (bind-cases cfg key target reason ttl now s) [
  | inl e ↦ rw e refl
  | inr (owner, live, e) ↦ rw e (ground arith)
]

new_state-CacheAlive : CacheAlive new_state
unfolding get
new_state-CacheAlive = record { at_key = λ j entry found. cc }

module _ (limit : ℕ) (cfg : AffinityConfig) where
  Reach-CacheAlive :
      (history : List Event) (s : ReplicaRouterState) → Reach limit cfg history s → CacheAlive s
  Reach-CacheAlive history s reached =
      Reach_kept limit cfg CacheAlive (λ s t same. kept-CacheAlive s t same.1)
        (λ key target reason ttl now s.
          kept-CacheAlive s _ (bind_cache cfg key target reason ttl now s))
        prune-CacheAlive
        (λ pid_alive probe show target capacity now s.
          health_of-CacheAlive pid_alive probe show cfg target capacity now s)
        history s new_state-CacheAlive reached

  -- In every reachable state a target is reported dead only on process evidence taken by this very
  -- call, its process is gone or its port does not answer; and measuring it marks no other
  -- replica as failed, nor itself without that evidence.
  pub Reach-Evidence :
      (pid_alive : ℕ → Bool) (probe : ℕ → ℕ → Option ℕ) (show : ℕ → String) (target : String)
      (capacity now : ℕ) (history : List Event) (s : ReplicaRouterState) (j : String)
      → Reach limit cfg history s
      → let m = health_of pid_alive probe show cfg target capacity now s in
        (m.1.confirmed_dead ≡ true → Evidence pid_alive probe show cfg target capacity now s)
        × (status_of (get m.0.records j) ≡ some status_error
            → (status_of (get s.records j) ≡ some status_error)
              ⊎ ((target ≡ j) × Evidence pid_alive probe show cfg target capacity now s))
  Reach-Evidence pid_alive probe show target capacity now history s j reached =
      let alive = Reach-CacheAlive history s reached in
      (
        health_of-dead pid_alive probe show cfg target capacity now s alive,
        health_of-error pid_alive probe show cfg target capacity now s j alive,
      )
