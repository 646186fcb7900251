-- ===== src/Policy/Targets.antt =====
-- cli/replica_policy.py: `TransferReason`, `TargetState`, `TargetHealth`, `AffinityDecision`.
use heimdall_gateway.Prelude.{
  ℕ, String, Bool, true, false, ◌||◌, ltb, leb, if◌then◌else◌, nat_key, string_key,
}

pub data TransferReason : Type 0 where
  initial_bind sticky_refresh responses_chain : TransferReason
  evacuate_target_dead evacuate_no_route degraded_unbound : TransferReason

-- reason in TRANSFER_REASONS
unfoldable pub in_transfer_reasons : TransferReason → Bool
in_transfer_reasons evacuate_target_dead = true
in_transfer_reasons evacuate_no_route = true
in_transfer_reasons _ = false

-- reason is TransferReason.EVACUATE_TARGET_DEAD
abbrev pub is_dead_reason : TransferReason → Bool
is_dead_reason evacuate_target_dead = true
is_dead_reason _ = false

pub data TargetState : Type 0 where
  cold ready loading dead suspect error : TargetState

-- `in_flight` and `capacity` are counts; a capacity of 0 or less means that nothing is limited
pub record TargetHealth : Type 0 where
  pub target : String
  pub state : TargetState
  pub in_flight : ℕ
  pub capacity : ℕ
  pub confirmed_dead : Bool
  pub blacklist_until : ℕ
  pub detail : String

abbrev pub is_dead : TargetState → Bool
is_dead dead = true
is_dead _ = false

-- the set of states that `servable` accepts
abbrev pub serves : TargetState → Bool
serves cold = true
serves ready = true
serves loading = true
serves suspect = true
serves error = true
serves dead = false

abbrev pub is_doubtful : TargetState → Bool
is_doubtful suspect = true
is_doubtful error = true
is_doubtful _ = false

unfoldable pub servable : TargetHealth → Bool
servable h = if h.confirmed_dead || is_dead h.state then false else serves h.state

-- `now` is the reading of time.monotonic()
unfoldable pub blacklisted : TargetHealth → ℕ → Bool
blacklisted h now = ltb now h.blacklist_until

unfoldable pub suspected : TargetHealth → ℕ → Bool
unfolding blacklisted
suspected h now = blacklisted h now || is_doubtful h.state

unfoldable pub saturated : TargetHealth → Bool
saturated h = if leb h.capacity 0 then false else leb h.capacity h.in_flight

pub data AffinityDecision : Type 0 where
  to_bind sticky wait evacuate unbound : AffinityDecision
