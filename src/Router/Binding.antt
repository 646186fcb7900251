-- ===== src/Router/Binding.antt =====
-- _cli_impl.py: `ReplicaRouterState.bind` and `owner_of`, the writer and the reader of `affinity`.
-- The log events of `bind` are left out.
pub mod Ownership
pub mod Budget
use heimdall_gateway.Prelude.{
  ℕ, ◌+◌, String, Bool, true, false, not, ◌&&◌, Option, none, some, ltb, leb, if◌then◌else◌,
  or_else, ◌==◌, nat_key, string_key,
}
use heimdall_gateway.Dict.{get, put, pop}
use heimdall_gateway.Policy.Targets.{
  TransferReason, sticky_refresh, in_transfer_reasons, is_dead_reason, AffinityDecision, to_bind,
  sticky, evacuate, unbound,
}
use heimdall_gateway.Policy.Config.{AffinityConfig}
use heimdall_gateway.Policy.Transfer.{TransferBudget, new_budget, allow_transfer, record_transfer}
use heimdall_gateway.Router.State.{ReplicaRouterState}

pub record BindResult : Type 0 where
  pub target : Option String
  pub decision : AffinityDecision
  pub reason : TransferReason
  pub bound : Bool
  pub refused_by : String

-- previous if (previous and previous[1] > now and previous[0] != target) else None
unfoldable pub live_binding : Option (String × ℕ) → String → ℕ → Option String
live_binding none target now = none
live_binding (some (owner, expires)) target now =
    if ltb now expires && not (owner == target) then some owner else none

-- self.affinity_budget.get(affinity_key) or TransferBudget()
unfoldable pub budget_of : ReplicaRouterState → String → TransferBudget
budget_of s affinity_key = or_else (get s.affinity_budget affinity_key) new_budget

-- no other live owner: the binding is made, and its budget starts anew
unfoldable pub bind_free :
    String → String → TransferReason → ℕ → ℕ → ReplicaRouterState → ReplicaRouterState × BindResult
unfolding budget_of
bind_free affinity_key target reason ttl now s =
    let budget = record (budget_of s affinity_key) {
      bound_at = now;
      suspected_transfers = 0;
      hard_transfers = 0;
    } in
    (
      record s {
        affinity_budget = put s.affinity_budget affinity_key budget;
        affinity = put s.affinity affinity_key (target, now + ttl);
      },
      record {
        target = some target;
        decision = to_bind;
        reason = reason;
        bound = true;
        refused_by = "";
      },
    )

-- a brake refused a declared transfer
unfoldable pub bind_refused :
    String
    → String
    → TransferReason
    → String
    → ℕ
    → ℕ
    → ReplicaRouterState
    → ReplicaRouterState × BindResult
bind_refused affinity_key owner reason brake ttl now s =
    if is_dead_reason reason
    then (
      record s {
        affinity = pop s.affinity affinity_key;
        affinity_budget = pop s.affinity_budget affinity_key;
      },
      record {
        target = none;
        decision = unbound;
        reason = reason;
        bound = false;
        refused_by = brake;
      },
    )
    else (
      record s { affinity = put s.affinity affinity_key (owner, now + ttl) },
      record {
        target = some owner;
        decision = sticky;
        reason = sticky_refresh;
        bound = true;
        refused_by = brake;
      },
    )

-- another target is the live owner
unfoldable pub bind_owned :
    AffinityConfig
    → String
    → String
    → String
    → TransferReason
    → ℕ
    → ℕ
    → ReplicaRouterState
    → ReplicaRouterState × BindResult
unfolding budget_of bind_refused in_transfer_reasons
bind_owned cfg affinity_key owner target reason ttl now s =
    let budget = budget_of s affinity_key in
    let known = record s { affinity_budget = put s.affinity_budget affinity_key budget } in
    if not (in_transfer_reasons reason)
    then (
      known,
      record {
        target = some owner;
        decision = sticky;
        reason = sticky_refresh;
        bound = false;
        refused_by = "undeclared_reason";
      },
    )
    else (let (allowed, brake) = allow_transfer budget reason target cfg now in
        if not allowed then bind_refused affinity_key owner reason brake ttl now known else (
          record s {
            affinity_budget =
                put s.affinity_budget affinity_key (record_transfer budget reason owner now);
            affinity = put s.affinity affinity_key (target, now + ttl);
          },
          record {
            target = some target;
            decision = evacuate;
            reason = reason;
            bound = true;
            refused_by = "";
          },
        ))

unfoldable pub bind :
    AffinityConfig
    → String
    → String
    → TransferReason
    → ℕ
    → ℕ
    → ReplicaRouterState
    → ReplicaRouterState × BindResult
unfolding bind_free bind_owned live_binding
bind cfg affinity_key target reason ttl now s =
    elim (live_binding (get s.affinity affinity_key) target now) [
      | none ↦ bind_free affinity_key target reason ttl now s
      | some owner ↦ bind_owned cfg affinity_key owner target reason ttl now s
    ]

-- what a reader sees of a value with a deadline
abbrev pub unexpired : {A : Type 0} → ℕ → Option (A × ℕ) → Option A
unexpired now none = none
unexpired now (some (v, expires)) = if leb expires now then none else some v

unfoldable pub owner_of : ReplicaRouterState → String → ℕ → Option String
owner_of s affinity_key now = unexpired now (get s.affinity affinity_key)
