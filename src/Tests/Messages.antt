-- ===== src/Tests/Messages.antt =====
-- The passes over the messages of a request at concrete inputs.
use Prim.Native.String.{String}
use heimdall_gateway.Prelude.{
  ◌≡◌, refl, false, not, [], ◌∷◌, ◌++◌, nat_key, string_key, length, filter, drop_first, All,
}
use heimdall_gateway.Value.{Value, text, items, fields, no_fields, and_field, of_list, to_object}
use heimdall_gateway.Messages.{
  Message, dicts, messages_of, role, joined, is_blank, merge_chat_message_content,
}
use heimdall_gateway.Messages.System.{
  is_privileged, joined_system_content, absorb, stands_alone, collapse_system,
  normalize_system_messages_for_llamacpp,
}
use heimdall_gateway.Messages.Trailing.{
  is_assistant, split_tail, is_vacant, lacks, fill, merge_run, calls_tools, merge_trailing,
  llamacpp_messages,
}
use heimdall_gateway.Messages.Ending.{Ends, llamacpp_messages_order}
use heimdall_gateway.Messages.Empties.{
  is_space, strips_empty, is_empty_user_content, clean_text, sanitize_content_field, sanitized,
  is_empty_user, collapse_empties, normalize_messages,
}
use heimdall_gateway.Dict.{get, put}

abbrev show_value : Value → String
show_value v = "?"

abbrev said : String → String → Value
said role_name words =
    fields (and_field "role" (text role_name) (and_field "content" (text words) no_fields))

-- a system message in the middle, and two assistant messages at the end
abbrev chat : Value
chat = items (
    of_list (
      said "user" "hi"
      ∷ said "developer" "be short"
      ∷ said "system" "be kind"
      ∷ said "assistant" "a"
      ∷ said "assistant" "b"
      ∷ []))

chat_runs : length (llamacpp_messages show_value chat) ≡ 3
unfolding llamacpp_messages normalize_system_messages_for_llamacpp merge_trailing collapse_system
    messages_of of_list dicts to_object is_privileged role stands_alone absorb joined_system_content
    merge_chat_message_content is_blank joined split_tail is_assistant calls_tools merge_run fill
    lacks is_vacant get put
chat_runs = refl

llamacpp_messages_order_example :
    All (λ m. is_privileged show_value m ≡ false) (drop_first (llamacpp_messages show_value chat))
    × Ends show_value
        (normalize_system_messages_for_llamacpp show_value chat)
        (llamacpp_messages show_value chat)
    × (filter
            (λ m. not (is_privileged show_value m))
            (split_tail show_value (llamacpp_messages show_value chat)).0
          ++ (split_tail show_value (normalize_system_messages_for_llamacpp show_value chat)).1
        ≡ filter (λ m. not (is_privileged show_value m)) (messages_of chat))
llamacpp_messages_order_example = llamacpp_messages_order show_value chat

-- two parts of an answer, each with its reasoning
abbrev first_part : Message
first_part =
    ("role", text "assistant") ∷ ("content", text "a") ∷ ("reasoning_content", text "why a") ∷ []

abbrev second_part : Message
second_part =
    ("role", text "assistant") ∷ ("content", text "b") ∷ ("reasoning_content", text "why b") ∷ []

has_reasoning : lacks first_part "reasoning_content" ≡ false
unfolding lacks is_vacant get
has_reasoning = refl

abbrev as_is : String → String
as_is s = s

-- three empty user messages in a row
abbrev silence : Value
silence =
    items (of_list (said "user" " " ∷ said "user" "" ∷ said "user" "\n" ∷ said "user" "hi" ∷ []))

silence_runs : length (normalize_messages as_is show_value silence) ≡ 2
unfolding normalize_messages messages_of of_list dicts to_object sanitized sanitize_content_field
    clean_text collapse_empties is_empty_user is_empty_user_content strips_empty is_space role get
    put
silence_runs = refl
