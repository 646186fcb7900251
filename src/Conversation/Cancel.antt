-- ===== src/Conversation/Cancel.antt =====
-- _cli_impl.py, `ConversationSwitchState`: which requests a switch of models cancels.
use heimdall_gateway.Prelude.{
  ℕ, ◌+◌, ◌-◌, String, ◌≡◌, false, some, arith, eq_iff, if◌then◌else◌, ◌==◌, nat_key, string_key,
  ==_refl,
}
use heimdall_gateway.Dict.{get, get-put}
use heimdall_gateway.Conversation.{
  ConversationRequestToken, ConversationSwitchState, generation_of, active_model_of, running_of,
  next_generation, start, finish, should_cancel,
}

-- the token of a request that was accepted for `model`
abbrev pub token_of : ConversationSwitchState → String → String → ConversationRequestToken
token_of s key model = record {
  key = key;
  model = model;
  generation = (next_generation s key model).0;
}

-- the state in which the request runs
abbrev pub started : ConversationSwitchState → String → String → ℕ → ConversationSwitchState
started s key model now = (start key model now s).0

pub generation-started :
    (key model j : String) (now : ℕ) (s : ConversationSwitchState)
    → (key == "") ≡ false
    → generation_of (started s key model now) j
      ≡ (if key == j then (next_generation s key model).0 else generation_of s j)
unfolding start generation_of
generation-started key model j now s named =
    ground (arith, get-put s.generation_by_key key j (next_generation s key model).0)

pub active_model-started :
    (key model j : String) (now : ℕ) (s : ConversationSwitchState)
    → (key == "") ≡ false
    → active_model_of (started s key model now) j
      ≡ (if key == j then model else active_model_of s j)
unfolding start active_model_of
active_model-started key model j now s named =
    ground (arith, get-put s.active_model_by_key key j model)

pub running-started :
    (key model j : String) (now : ℕ) (s : ConversationSwitchState)
    → (key == "") ≡ false
    → running_of (started s key model now) j
      ≡ (if key == j then running_of s j + 1 else running_of s j)
unfolding start running_of
running-started key model j now s named =
    ground (arith, get-put s.in_flight_by_key key j (running_of s key + 1), eq_iff key j)

-- A request with a key that starts is not to be cancelled in the state in which it starts.
pub start-should_cancel :
    (key model : String) (now : ℕ) (s : ConversationSwitchState)
    → (key == "") ≡ false
    → should_cancel (some (token_of s key model)) (started s key model now) ≡ (false, "")
unfolding should_cancel
start-should_cancel key model now s named = ground (
  arith,
  generation-started key model key now s named,
  active_model-started key model key now s named,
  ==_refl key,
  ==_refl model,
)

next_generation-same :
    (key model : String) {generation : ℕ} (s : ConversationSwitchState)
    → active_model_of s key ≡ model
    → get s.generation_by_key key ≡ some generation
    → (next_generation s key model).0 ≡ generation
unfolding next_generation generation_of
next_generation-same key model s active known =
    ground (arith, ==_refl model, eq_iff (active_model_of s key) model)

-- Starting another request on the model that a conversation runs on cancels none of its requests.
pub start-should_cancel_same :
    (key model : String) (now : ℕ) (s : ConversationSwitchState)
    (earlier : ConversationRequestToken)
    → (key == "") ≡ false
    → earlier.key ≡ key
    → earlier.model ≡ model
    → active_model_of s key ≡ model
    → get s.generation_by_key key ≡ some earlier.generation
    → should_cancel (some earlier) (started s key model now) ≡ (false, "")
unfolding should_cancel
start-should_cancel_same key model now s earlier named same on active known = ground (
  arith,
  generation-started key model earlier.key now s named,
  active_model-started key model earlier.key now s named,
  next_generation-same key model s active known,
  eq_iff key earlier.key,
  eq_iff model earlier.model,
)

pub running-finished :
    (token : ConversationRequestToken) (j : String) (now : ℕ) (s : ConversationSwitchState)
    → (token.key == "") ≡ false
    → running_of (finish (some token) now s) j
      ≡ (if token.key == j then running_of s j - 1 else running_of s j)
unfolding finish running_of
running-finished token j now s named =
    ground (
      arith,
      get-put s.in_flight_by_key token.key j (running_of s token.key - 1),
      eq_iff token.key j,
    )

-- A request that finishes balances one that started: every count of requests in flight is as before.
pub finish-start :
    (key model j : String) (now later : ℕ) (s : ConversationSwitchState)
    → (key == "") ≡ false
    → running_of (finish (some (token_of s key model)) later (started s key model now)) j
      ≡ running_of s j
finish-start key model j now later s named = ground (
  arith,
  running-finished (token_of s key model) j later (started s key model now) named,
  running-started key model j now s named,
  running-started key model key now s named,
  ==_refl key,
  eq_iff key j,
)
