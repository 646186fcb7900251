-- ===== src/Conversation/Trace.antt =====
-- _cli_impl.py, `ConversationSwitchState` over every sequence of calls.
use heimdall_gateway.Prelude.{
  ℕ, ◌+◌, ◌≤◌, ◌<◌, String, ◌≡◌, inl, inr, true, false, not, some, List, [], ◌∷◌, arith, eq_iff,
  if◌then◌else◌, Bool-cases, ◌==◌, nat_key, string_key, ==_refl,
}
use heimdall_gateway.Dict.{get-retain}
use heimdall_gateway.Conversation.{
  ConversationRequestToken, ConversationSwitchState, generation_of, active_model_of, running_of,
  is_stale, prune, model_changed, next_generation, start, finish, should_cancel,
}
use heimdall_gateway.Conversation.Cancel.{
  started, generation-started, running-started, running-finished,
}

-- a call of one of the methods that change the state
pub data Call : Type 0 where
  begin : String → String → ℕ → Call
  end : ConversationRequestToken → ℕ → Call
  sweep : ℕ → ℕ → Call

unfoldable pub perform : Call → ConversationSwitchState → ConversationSwitchState
perform (begin key model now) s = (start key model now s).0
perform (end token now) s = finish (some token) now s
perform (sweep ttl now) s = prune ttl now s

unfoldable pub perform_all : List Call → ConversationSwitchState → ConversationSwitchState
unfolding perform
perform_all [] s = s
perform_all (call ∷ calls) s = perform_all calls (perform call s)

unfoldable pub ends : String → Call → ℕ
ends key (begin _ _ _) = 0
ends key (end token _) = if token.key == key then 1 else 0
ends key (sweep _ _) = 0

-- how many of the calls finish a request of the conversation
unfoldable pub count_ends : String → List Call → ℕ
unfolding ends
count_ends key [] = 0
count_ends key (call ∷ calls) = ends key call + count_ends key calls

generation-next-le :
    (s : ConversationSwitchState) (key model : String)
    → generation_of s key ≤ (next_generation s key model).0
unfolding next_generation generation_of
generation-next-le s key model = ground arith

started-unnamed :
    (k model : String) (now : ℕ) (s : ConversationSwitchState)
    → (k == "") ≡ true
    → started s k model now ≡ s
unfolding start
started-unnamed k model now s unnamed = ground arith

finished-unnamed :
    (token : ConversationRequestToken) (now : ℕ) (s : ConversationSwitchState)
    → (token.key == "") ≡ true
    → finish (some token) now s ≡ s
unfolding finish
finished-unnamed token now s unnamed = ground arith

generation-started-le :
    (s : ConversationSwitchState) (k model key : String) (now : ℕ)
    → generation_of s key ≤ generation_of (started s k model now) key
generation-started-le s k model key now = elim (Bool-cases (k == "")) [
  | inl unnamed ↦ ground (arith, started-unnamed k model now s unnamed)
  | inr named ↦ ground (
    arith,
    generation-started k model key now s named,
    generation-next-le s k model,
    eq_iff k key,
  )
]

running-started-le :
    (s : ConversationSwitchState) (k model key : String) (now : ℕ)
    → running_of s key ≤ running_of (started s k model now) key
running-started-le s k model key now = elim (Bool-cases (k == "")) [
  | inl unnamed ↦ ground (arith, started-unnamed k model now s unnamed)
  | inr named ↦ ground (arith, running-started k model key now s named)
]

generation-finished-le :
    (token : ConversationRequestToken) (now : ℕ) (s : ConversationSwitchState) (key : String)
    → generation_of s key ≤ generation_of (finish (some token) now s) key
unfolding finish generation_of
generation-finished-le token now s key = ground arith

running-finished-le :
    (token : ConversationRequestToken) (now : ℕ) (s : ConversationSwitchState) (key : String)
    → running_of s key
      ≤ running_of (finish (some token) now s) key + (if token.key == key then 1 else 0)
running-finished-le token now s key = elim (Bool-cases (token.key == "")) [
  | inl unnamed ↦ ground (arith, finished-unnamed token now s unnamed)
  | inr named ↦ ground (arith, running-finished token key now s named)
]

generation-prune_running :
    (ttl now : ℕ) (s : ConversationSwitchState) (key : String)
    → 0 < running_of s key
    → (generation_of (prune ttl now s) key ≡ generation_of s key)
      × (running_of (prune ttl now s) key ≡ running_of s key)
unfolding prune is_stale generation_of running_of
generation-prune_running ttl now s key busy = ground (
  arith,
  get-retain (λ key v. not (is_stale ttl now s key)) s.generation_by_key key,
  get-retain (λ key v. not (is_stale ttl now s key)) s.in_flight_by_key key,
)

generation-perform-le :
    (call : Call) (s : ConversationSwitchState) (key : String)
    → 0 < running_of s key
    → generation_of s key ≤ generation_of (perform call s) key
unfolding perform
generation-perform-le (begin k model now) s key busy = generation-started-le s k model key now
generation-perform-le (end token now) s key busy = generation-finished-le token now s key
generation-perform-le (sweep ttl now) s key busy =
    ground (arith, generation-prune_running ttl now s key busy)

running-perform-le :
    (call : Call) (s : ConversationSwitchState) (key : String)
    → 0 < running_of s key
    → running_of s key ≤ running_of (perform call s) key + ends key call
unfolding perform ends
running-perform-le (begin k model now) s key busy =
    ground (arith, running-started-le s k model key now)
running-perform-le (end token now) s key busy = running-finished-le token now s key
running-perform-le (sweep ttl now) s key busy =
    ground (arith, generation-prune_running ttl now s key busy)

perform_all-overtaken :
    (calls : List Call) (s : ConversationSwitchState) (key : String) (generation : ℕ)
    → generation < generation_of s key
    → count_ends key calls < running_of s key
    → generation < generation_of (perform_all calls s) key
unfolding perform_all count_ends
perform_all-overtaken [] s key generation old busy = old
perform_all-overtaken (call ∷ calls) s key generation old busy =
    perform_all-overtaken calls (perform call s) key generation
      (ground (arith, generation-perform-le call s key (ground arith)))
      (ground (arith, running-perform-le call s key (ground arith)))

should_cancel-overtaken :
    (token : ConversationRequestToken) (s : ConversationSwitchState)
    → (token.key == "") ≡ false
    → token.generation < generation_of s token.key
    → should_cancel (some token) s ≡ (true, "conversation_generation_changed")
unfolding should_cancel
should_cancel-overtaken token s named old = ground arith

generation-valid :
    (token : ConversationRequestToken) (s : ConversationSwitchState)
    → (token.key == "") ≡ false
    → should_cancel (some token) s ≡ (false, "")
    → generation_of s token.key ≡ token.generation
unfolding should_cancel
generation-valid token s named valid = ground arith

generation-moved :
    (key model : String) (now : ℕ) (s : ConversationSwitchState)
    → (key == "") ≡ false
    → model_changed (active_model_of s key) model ≡ true
    → generation_of (started s key model now) key ≡ generation_of s key + 1
unfolding next_generation
generation-moved key model now s named moved =
    ground (arith, generation-started key model key now s named, ==_refl key)

-- When a conversation moves to another model, a request that runs on the model it leaves is to be
-- cancelled, and stays so over every later sequence of starts, finishes and prunes, back to its own
-- model included, in which fewer requests of the conversation finish than are in flight.
pub should_cancel-switched :
    (token : ConversationRequestToken) (model : String) (now : ℕ) (s : ConversationSwitchState)
    (calls : List Call)
    → (token.key == "") ≡ false
    → should_cancel (some token) s ≡ (false, "")
    → active_model_of s token.key ≡ token.model
    → model_changed token.model model ≡ true
    → count_ends token.key calls < running_of (started s token.key model now) token.key
    → should_cancel (some token) (perform_all calls (started s token.key model now))
      ≡ (true, "conversation_generation_changed")
should_cancel-switched token model now s calls named valid active moved busy =
    should_cancel-overtaken token (perform_all calls (started s token.key model now)) named (
      perform_all-overtaken calls (started s token.key model now) token.key token.generation
        (ground (
          arith,
          generation-valid token s named valid,
          generation-moved token.key model now s named (rw (active, moved)),
        ))
        busy)
