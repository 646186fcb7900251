-- ===== src/Router/Steps/Budgets.antt =====
-- _cli_impl.py, `ReplicaRouterState`: the transfer budgets, in every state that the steps of the router
-- reach.
use heimdall_gateway.Router.Health.Evidence.{known, cached, asked}
use Prim.Native.String.{String}
use heimdall_gateway.Prelude.{
  ℕ, ◌≡◌, refl, sym, ap, ◌∙◌, Bool, Option, List, arith, if_elim, nat_key, string_key,
}
use heimdall_gateway.Dict.{get}
use heimdall_gateway.Policy.Targets.{TargetHealth}
use heimdall_gateway.Policy.Config.{AffinityConfig}
use heimdall_gateway.Router.State.{ReplicaRecord, ReplicaRouterState, new_state}
use heimdall_gateway.Router.Binding.Budget.{AllWithin, bind-AllWithin}
use heimdall_gateway.Router.Prune.{prune, prune-budgets}
use heimdall_gateway.Router.Health.{remember, health_of}
use heimdall_gateway.Router.Health.Evidence.{Way, health_of-Way}
use heimdall_gateway.Router.Steps.{Event, Reach}
use heimdall_gateway.Router.Steps.Ledgers.{Reach_kept}

abbrev pub SameBudgets : ReplicaRouterState → ReplicaRouterState → Type 0
SameBudgets s t = t.affinity_budget ≡ s.affinity_budget

module _ (pid_alive : ℕ → Bool) (probe : ℕ → ℕ → Option ℕ) (show : ℕ → String)
    (cfg : AffinityConfig) (target : String) (capacity now : ℕ) (s : ReplicaRouterState) where
  remember-SameBudgets :
      (rec : ReplicaRecord) (health : TargetHealth)
      → SameBudgets s (remember pid_alive probe show cfg target now rec health s)
  unfolding remember
  remember-SameBudgets rec health = if_elim (SameBudgets s) health.confirmed_dead _ _ refl refl

  Way-SameBudgets :
      (m : ReplicaRouterState × TargetHealth)
      → Way pid_alive probe show cfg target capacity now s m
      → SameBudgets s m.0
  Way-SameBudgets _ (known health alive) = refl
  Way-SameBudgets _ (cached health expires found) = refl
  Way-SameBudgets _ (asked rec found) = remember-SameBudgets rec _

  health_of-SameBudgets : SameBudgets s (health_of pid_alive probe show cfg target capacity now s).0
  health_of-SameBudgets =
      Way-SameBudgets _ (health_of-Way pid_alive probe show cfg target capacity now s)

module _ (limit : ℕ) (cfg : AffinityConfig) where
  kept-AllWithin : (s t : ReplicaRouterState) → SameBudgets s t → AllWithin cfg s → AllWithin cfg t
  kept-AllWithin s t same within = record {
    at_key = λ j b found. within.at_key j b (ap (λ budgets. get budgets j) (sym same) ∙ found);
  }

  prune-AllWithin :
      (now : ℕ) (s : ReplicaRouterState) → AllWithin cfg s → AllWithin cfg (prune now s)
  prune-AllWithin now s within = record {
    at_key =
        λ j b found. ground (arith, prune-budgets now now s (omega arith) j, within.at_key j b);
  }

  new_state-AllWithin : AllWithin cfg new_state
  unfolding get
  new_state-AllWithin = record { at_key = λ j b found. cc }

  -- In every reachable state, whatever the order of the steps, every budget that is kept is within its
  -- limits: no conversation counts more proven or unproven transfers than the configuration grants.
  pub Reach-AllWithin :
      (history : List Event) (s : ReplicaRouterState) → Reach limit cfg history s → AllWithin cfg s
  Reach-AllWithin history s reached =
      Reach_kept limit cfg (AllWithin cfg) (λ s t same. kept-AllWithin s t same.0)
        (bind-AllWithin cfg) prune-AllWithin
        (λ pid_alive probe show target capacity now s.
          kept-AllWithin s _ (health_of-SameBudgets pid_alive probe show cfg target capacity now s))
        history s new_state-AllWithin reached
