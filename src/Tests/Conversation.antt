-- ===== src/Tests/Conversation.antt =====
-- `ConversationSwitchState` at concrete inputs.
use heimdall_gateway.Prelude.{
  ◌≡◌, refl, true, false, some, List, [], ◌∷◌, arith, nat_key, string_key,
}
use heimdall_gateway.Dict.{get, put}
use heimdall_gateway.Conversation.{
  ConversationRequestToken, ConversationSwitchState, generation_of, active_model_of, running_of,
  next_generation, start, should_cancel,
}
use heimdall_gateway.Conversation.Cancel.{started}
use heimdall_gateway.Conversation.Trace.{
  Call, begin, end, sweep, perform_all, ends, count_ends, should_cancel-switched,
}

abbrev idle : ConversationSwitchState
idle = record {
  generation_by_key = [];
  active_model_by_key = [];
  in_flight_by_key = [];
  last_seen_by_key = [];
}

abbrev on_gemma : ConversationSwitchState
on_gemma = record {
  generation_by_key = ("chat", 1) ∷ [];
  active_model_by_key = ("chat", "gemma") ∷ [];
  in_flight_by_key = ("chat", 1) ∷ [];
  last_seen_by_key = ("chat", 1000) ∷ [];
}

abbrev gemma_token : ConversationRequestToken
gemma_token = record { key = "chat"; model = "gemma"; generation = 1 }

start_new : (start "chat" "gemma" 1000 idle) ≡ (on_gemma, some gemma_token, "new_conversation")
unfolding start next_generation generation_of active_model_of running_of put get
start_new = refl

gemma_runs : should_cancel (some gemma_token) on_gemma ≡ (false, "")
unfolding should_cancel generation_of active_model_of get
gemma_runs = refl

abbrev back_and_sweep : List Call
back_and_sweep =
    end (record { key = "chat"; model = "qwen"; generation = 2 }) 2500
    ∷ begin "chat" "gemma" 3000
    ∷ sweep 1 9000
    ∷ []

should_cancel-switched_example :
    should_cancel
      (some gemma_token)
      (perform_all back_and_sweep (started on_gemma "chat" "qwen" 2000))
    ≡ (true, "conversation_generation_changed")
unfolding active_model_of get start next_generation generation_of running_of put count_ends ends
should_cancel-switched_example =
    should_cancel-switched gemma_token "qwen" 2000 on_gemma back_and_sweep refl gemma_runs refl refl
      (omega arith)
