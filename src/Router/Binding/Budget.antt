-- ===== src/Router/Binding/Budget.antt =====
-- _cli_impl.py, `ReplicaRouterState.bind`: the transfer budgets that it keeps.
use heimdall_gateway.Prelude.{
  ℕ, ◌+◌, ◌≤◌, ◌<◌, String, ◌≡◌, refl, inl, inr, true, false, Option, none, some, arith,
  Option-cases, ◌==◌, nat_key, string_key, ==_refl,
}
use heimdall_gateway.Dict.{get, put, get-put, get-pop}
use heimdall_gateway.Policy.Targets.{TransferReason, evacuate_no_route}
use heimdall_gateway.Policy.Config.{AffinityConfig}
use heimdall_gateway.Policy.Transfer.{
  TransferBudget, new_budget, allow_transfer, record_transfer, IsWithin, record_transfer-IsWithin,
}
use heimdall_gateway.Router.State.{ReplicaRouterState}
use heimdall_gateway.Router.Binding.{
  live_binding, budget_of, bind_free, bind_owned, bind, unexpired, owner_of,
}
use heimdall_gateway.Router.Binding.Ownership.{bind-cases}

-- Every budget that is kept is within its limits.
pub record AllWithin (cfg : AffinityConfig) (s : ReplicaRouterState) : Type 0 where
  pub at_key : (j : String) (b : TransferBudget) → get s.affinity_budget j ≡ some b → IsWithin cfg b

new_budget-IsWithin : (cfg : AffinityConfig) → IsWithin cfg new_budget
new_budget-IsWithin cfg = omega arith

budget_of-IsWithin :
    (cfg : AffinityConfig) (s : ReplicaRouterState) (j : String)
    → AllWithin cfg s
    → IsWithin cfg (budget_of s j)
unfolding budget_of
budget_of-IsWithin cfg s j within = elim (Option-cases (get s.affinity_budget j)) [
  | inl e ↦ rw e (new_budget-IsWithin cfg)
  | inr (b, e) ↦ rw e (within.at_key j b e)
]

module _ (cfg : AffinityConfig) (key target : String) (reason : TransferReason) (ttl now : ℕ)
    (s : ReplicaRouterState) (within : AllWithin cfg s) where
  put-IsWithin :
      (b b' : TransferBudget) (j : String)
      → IsWithin cfg b
      → get (put s.affinity_budget key b) j ≡ some b'
      → IsWithin cfg b'
  put-IsWithin b b' j kept found =
      ground (arith, get-put s.affinity_budget key j b, within.at_key j b')

  bind_free-AllWithin : AllWithin cfg (bind_free key target reason ttl now s).0
  unfolding bind_free
  bind_free-AllWithin = record { at_key = λ j b' found. put-IsWithin _ b' j (omega arith) found }

  bind_owned-AllWithin :
      (owner : String) → AllWithin cfg (bind_owned cfg key owner target reason ttl now s).0
  unfolding bind_owned
  bind_owned-AllWithin owner = record {
    at_key = λ j b' found.
        let old = budget_of s key in
        ground (
          arith,
          budget_of-IsWithin cfg s key within,
          put-IsWithin old b' j,
          put-IsWithin (record_transfer old reason owner now) b' j,
          record_transfer-IsWithin cfg old reason target owner now,
          get-pop (put s.affinity_budget key old) key j,
        );
  }

  -- Whatever is asked of it, a write keeps every budget within its limits: no conversation ever
  -- counts more proven or unproven transfers than the configuration grants.
  pub bind-AllWithin : AllWithin cfg (bind cfg key target reason ttl now s).0
  bind-AllWithin = elim (bind-cases cfg key target reason ttl now s) [
    | inl e ↦ rw e bind_free-AllWithin
    | inr (owner, live, e) ↦ rw e (bind_owned-AllWithin owner)
  ]

budget_of-bind_free :
    (key target : String) (reason : TransferReason) (ttl now : ℕ) (s : ReplicaRouterState)
    → budget_of (bind_free key target reason ttl now s).0 key
      ≡ record (budget_of s key) { bound_at = now; suspected_transfers = 0; hard_transfers = 0 }
unfolding budget_of bind_free
budget_of-bind_free key target reason ttl now s = rw (get-put, ==_refl key)

live_binding_self :
    (o : Option (String × ℕ)) (owner : String) (now : ℕ)
    → unexpired now o ≡ some owner
    → live_binding o owner now ≡ none
unfolding live_binding
live_binding_self o owner now live = ground (arith, ==_refl owner)

bind_self :
    (cfg : AffinityConfig) (key owner : String) (reason : TransferReason) (ttl now : ℕ)
    (s : ReplicaRouterState)
    → owner_of s key now ≡ some owner
    → bind cfg key owner reason ttl now s ≡ bind_free key owner reason ttl now s
unfolding bind owner_of
bind_self cfg key owner reason ttl now s live =
    rw (live_binding_self (get s.affinity key) owner now live, bind) refl

-- A refresh of the owner that a conversation already has, for whatever reason it is written, sets
-- both of its transfer counts back to 0 and its dwell time to now. So after it an unproven move to
-- any target but the one left last is allowed as soon as the dwell time is over, however many
-- moves went before, as long as the configuration grants one at all.
pub bind-refresh_restores :
    (cfg : AffinityConfig) (key owner target : String) (reason : TransferReason) (ttl now later : ℕ)
    (s : ReplicaRouterState)
    → owner_of s key now ≡ some owner
    → now + cfg.min_dwell ≤ later
    → 0 < cfg.max_transfers
    → (target == (budget_of s key).last_target) ≡ false
    → let s' = (bind cfg key owner reason ttl now s).0 in
      ((budget_of s' key).hard_transfers ≡ 0)
      × ((budget_of s' key).suspected_transfers ≡ 0)
      × ((allow_transfer (budget_of s' key) evacuate_no_route target cfg later).0 ≡ true)
unfolding allow_transfer
bind-refresh_restores cfg key owner target reason ttl now later s live dwelt granted elsewhere =
    rw (bind_self cfg key owner reason ttl now s live)
      (rw (budget_of-bind_free key owner reason ttl now s) (refl, refl, ground arith))
