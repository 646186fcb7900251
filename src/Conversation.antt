-- ===== src/Conversation.antt =====
-- _cli_impl.py: `ConversationSwitchState` and `ConversationRequestToken`. The methods run under the
-- state's lock, so each is one step; `now` is the reading of the monotonic clock in milliseconds.
pub mod Cancel
pub mod Trace
use heimdall_gateway.Prelude.{
  ℕ, ◌+◌, ◌-◌, String, Bool, true, false, not, ◌&&◌, Option, none, some, ltb, leb, nat_eq,
  if◌then◌else◌, or_else, is_some, ◌==◌, nat_key, string_key,
}
use heimdall_gateway.Dict.{Dict, get, put, retain}

pub record ConversationRequestToken : Type 0 where
  pub key : String
  pub model : String
  pub generation : ℕ

pub record ConversationSwitchState : Type 0 where
  pub generation_by_key : Dict String ℕ
  pub active_model_by_key : Dict String String
  pub in_flight_by_key : Dict String ℕ
  pub last_seen_by_key : Dict String ℕ

unfoldable pub generation_of : ConversationSwitchState → String → ℕ
generation_of s key = or_else (get s.generation_by_key key) 0

unfoldable pub active_model_of : ConversationSwitchState → String → String
active_model_of s key = or_else (get s.active_model_by_key key) ""

unfoldable pub running_of : ConversationSwitchState → String → ℕ
running_of s key = or_else (get s.in_flight_by_key key) 0

-- key in stale, of `prune`: nothing in flight, and last seen longer ago than ttl
unfoldable pub is_stale : ℕ → ℕ → ConversationSwitchState → String → Bool
unfolding running_of
is_stale ttl now s key = elim (get s.last_seen_by_key key) [
  | none ↦ false
  | some last_seen ↦ leb (running_of s key) 0 && ltb (last_seen + ttl) now
]

unfoldable pub prune : ℕ → ℕ → ConversationSwitchState → ConversationSwitchState
unfolding is_stale
prune ttl now s = record {
  generation_by_key = retain (λ key v. not (is_stale ttl now s key)) s.generation_by_key;
  active_model_by_key = retain (λ key v. not (is_stale ttl now s key)) s.active_model_by_key;
  in_flight_by_key = retain (λ key v. not (is_stale ttl now s key)) s.in_flight_by_key;
  last_seen_by_key = retain (λ key v. not (is_stale ttl now s key)) s.last_seen_by_key;
}

-- previous_model and previous_model != model
abbrev pub model_changed : String → String → Bool
model_changed previous_model model = not (previous_model == "") && not (previous_model == model)

unfoldable pub next_generation : ConversationSwitchState → String → String → ℕ × String
unfolding generation_of active_model_of
next_generation s key model =
    if model_changed (active_model_of s key) model
    then (generation_of s key + 1, "model_changed")
    else if not (is_some (get s.generation_by_key key))
    then (1, "new_conversation")
    else (generation_of s key, "")

unfoldable pub start :
    String
    → String
    → ℕ
    → ConversationSwitchState
    → ConversationSwitchState × Option ConversationRequestToken × String
unfolding next_generation running_of
start key model now s =
    if key == ""
    then (s, none, "")
    else (let (generation, reason) = next_generation s key model in
        (
          record {
            generation_by_key = put s.generation_by_key key generation;
            active_model_by_key = put s.active_model_by_key key model;
            in_flight_by_key = put s.in_flight_by_key key (running_of s key + 1);
            last_seen_by_key = put s.last_seen_by_key key now;
          },
          some (record { key = key; model = model; generation = generation }),
          reason,
        ))

unfoldable pub finish :
    Option ConversationRequestToken → ℕ → ConversationSwitchState → ConversationSwitchState
unfolding running_of
finish none now s = s
finish (some token) now s = if token.key == "" then s else record s {
  in_flight_by_key = put s.in_flight_by_key token.key (running_of s token.key - 1);
  last_seen_by_key = put s.last_seen_by_key token.key now;
}

unfoldable pub should_cancel :
    Option ConversationRequestToken → ConversationSwitchState → Bool × String
unfolding generation_of active_model_of
should_cancel none s = (false, "")
should_cancel (some token) s =
    if token.key == ""
    then (false, "")
    else if not (nat_eq (generation_of s token.key) token.generation)
    then (true, "conversation_generation_changed")
    else if model_changed (active_model_of s token.key) token.model
    then (true, "conversation_model_changed")
    else (false, "")
