-- ===== src/Policy/Transfer.antt =====
-- cli/replica_policy.py: `TransferBudget` and the three methods of `AffinityPolicy`.
use heimdall_gateway.Prelude.{
  ℕ, ◌+◌, ◌≤◌, ◌<◌, String, ◌≡◌, ◌↔◌, ◌⊎◌, Bool, true, false, not, ◌&&◌, Option, none, some, arith,
  eq_iff, ltb, leb, if◌then◌else◌, ◌==◌, nat_key, string_key,
}
use heimdall_gateway.Policy.Targets.{
  TransferReason, initial_bind, evacuate_target_dead, evacuate_no_route, is_dead_reason,
  TargetState, dead, TargetHealth, is_dead, servable, suspected, saturated, AffinityDecision,
  to_bind, sticky, wait, evacuate,
}
use heimdall_gateway.Policy.Config.{AffinityConfig}

pub record TransferBudget : Type 0 where
  pub bound_at : ℕ
  pub last_transfer_at : ℕ
  pub last_target : String
  pub suspected_transfers : ℕ
  pub hard_transfers : ℕ

abbrev pub new_budget : TransferBudget
new_budget = record {
  bound_at = 0;
  last_transfer_at = 0;
  last_target = "";
  suspected_transfers = 0;
  hard_transfers = 0;
}

-- `not bound_target`: None, and the empty text
abbrev pub is_bound : Option String → Bool
is_bound none = false
is_bound (some t) = not (t == "")

unfoldable pub decide :
    (bound_target : Option String) (health : TargetHealth) (has_alternatives : Bool)
    (cfg : AffinityConfig) (now : ℕ)
    → AffinityDecision × Option TransferReason
unfolding servable suspected saturated
decide bound_target health has_alternatives cfg now =
    if not (is_bound bound_target)
    then (to_bind, some initial_bind)
    else if health.confirmed_dead
    then (evacuate, some evacuate_target_dead)
    else if not (servable health)
    then (evacuate, some evacuate_no_route)
    else if suspected health now
    then (if has_alternatives && cfg.allow_suspected_transfers
        then (evacuate, some evacuate_no_route)
        else (sticky, none))
    else if saturated health
    then (wait, none)
    else (sticky, none)

-- `now - t < span` is written `now < t + span`, which says the same of signed differences
unfoldable pub allow_transfer :
    (budget : TransferBudget) (reason : TransferReason) (new_target : String) (cfg : AffinityConfig)
    (now : ℕ)
    → Bool × String
allow_transfer budget reason new_target cfg now =
    if is_dead_reason reason
    then (ltb budget.hard_transfers cfg.max_hard_transfers, "max_hard_transfers")
    else if ltb now (budget.bound_at + cfg.min_dwell)
    then (false, "min_dwell_s")
    else if leb cfg.max_transfers budget.suspected_transfers
    then (false, "max_transfers")
    else if not (budget.last_target == "")
        && new_target == budget.last_target
        && ltb now (budget.last_transfer_at + cfg.evacuate_cooldown)
    then (false, "evacuate_cooldown_s")
    else (true, "")

unfoldable pub record_transfer :
    (budget : TransferBudget) (reason : TransferReason) (previous : String) (now : ℕ)
    → TransferBudget
record_transfer budget reason previous now =
    let moved = record budget { last_target = previous; last_transfer_at = now } in
    if is_dead_reason reason
    then record moved { hard_transfers = budget.hard_transfers + 1 }
    else record moved { suspected_transfers = budget.suspected_transfers + 1 }

-- The evidence on which a conversation may be moved away from its owner.
abbrev pub MayLeave : TargetHealth → Bool → AffinityConfig → ℕ → Type 0
MayLeave h alternatives cfg now =
    (h.confirmed_dead ≡ true)
    ⊎ (h.state ≡ dead)
    ⊎ ((suspected h now ≡ true) × (alternatives ≡ true) × (cfg.allow_suspected_transfers ≡ true))

is_dead_inv : (s : TargetState) → is_dead s ≡ true → s ≡ dead
is_dead_inv s h = ground arith

-- A bound conversation is told to evacuate exactly when its owner is confirmed dead, or in the
-- state DEAD, or suspected while the configuration allows leaving suspects and there is somewhere
-- else to go.
pub decide-evacuate_iff :
    (owner : String) (h : TargetHealth) (alternatives : Bool) (cfg : AffinityConfig) (now : ℕ)
    → (owner == "") ≡ false
    → ((decide (some owner) h alternatives cfg now).0 ≡ evacuate) ↔ MayLeave h alternatives cfg now
unfolding decide
decide-evacuate_iff owner h alternatives cfg now named = (λ e. ground arith, λ e. ground arith)

-- How many requests an owner serves, and how many it may serve, never decides whether a
-- conversation leaves it: with both replaced at will, a decision to evacuate, and its reason,
-- stay, and a decision not to stays one too.
pub decide-evacuate_of_load :
    (owner : Option String) (h : TargetHealth) (alternatives : Bool) (cfg : AffinityConfig)
    (now in_flight capacity : ℕ) (r : Option TransferReason)
    → (decide owner h alternatives cfg now ≡ (evacuate, r)) ↔ (
        decide owner (record h { in_flight = in_flight; capacity = capacity }) alternatives cfg now
        ≡ (evacuate, r))
unfolding decide
decide-evacuate_of_load owner h alternatives cfg now in_flight capacity r =
    (λ e. ground arith, λ e. ground arith)

-- The budgets of a binding: neither count exceeds its limit.
pub record IsWithin (cfg : AffinityConfig) (b : TransferBudget) : Type 0 where
  pub hard : b.hard_transfers ≤ cfg.max_hard_transfers
  pub unproven : b.suspected_transfers ≤ cfg.max_transfers

-- Recording a transfer that the brakes allowed keeps both counts within their limits.
pub record_transfer-IsWithin :
    (cfg : AffinityConfig) (b : TransferBudget) (reason : TransferReason) (new previous : String)
    (now : ℕ)
    → IsWithin cfg b
    → (allow_transfer b reason new cfg now).0 ≡ true
    → IsWithin cfg (record_transfer b reason previous now)
unfolding allow_transfer record_transfer
record_transfer-IsWithin cfg b reason new previous now w allowed = ground arith

-- Right after a move away from `previous` no unproven move leads back to it within the cooldown.
pub allow_transfer-return :
    (cfg : AffinityConfig) (b : TransferBudget) (reason back : TransferReason) (previous : String)
    (now later : ℕ)
    → (previous == "") ≡ false
    → later < now + cfg.evacuate_cooldown
    → is_dead_reason back ≡ false
    → (allow_transfer (record_transfer b reason previous now) back previous cfg later).0 ≡ false
unfolding allow_transfer record_transfer
allow_transfer-return cfg b reason back previous now later named soon unproven =
    ground (arith, eq_iff previous previous)

-- A proven death is let through exactly while the hard budget lasts: dwell, cooldown and the
-- number of unproven moves play no part.
pub allow_transfer-dead :
    (cfg : AffinityConfig) (b : TransferBudget) (new : String) (now : ℕ)
    → ((allow_transfer b evacuate_target_dead new cfg now).0 ≡ true)
      ↔ (b.hard_transfers < cfg.max_hard_transfers)
unfolding allow_transfer
allow_transfer-dead cfg b new now = (λ h. ground arith, λ h. ground arith)
