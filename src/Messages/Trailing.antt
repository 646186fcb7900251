-- ===== src/Messages/Trailing.antt =====
-- _cli_impl.py, `_normalize_trailing_assistant_messages_for_llamacpp`: a final run of plain assistant
-- messages becomes one.
use heimdall_gateway.Prelude.{
  String, Bool, true, false, not, ◌&&◌, ◌||◌, none, some, List, [], ◌∷◌, ◌++◌, if◌then◌else◌, ◌==◌,
  nat_key, string_key, is_empty, any,
}
use heimdall_gateway.Messages.System.{normalize_system_messages_for_llamacpp}
use heimdall_gateway.Messages.{Message, messages_of, role, merge_chat_message_content}
use heimdall_gateway.Value.{Value, null, text, items, no_values, Object, truthy, lookup}
use heimdall_gateway.Dict.{get, put}

module _ (show : Value → String) where
  unfoldable pub is_assistant : Message → Bool
  unfolding role
  is_assistant m = role show m == "assistant"

  -- the messages before `tail_start`, and those from it on
  unfoldable pub split_tail : List Message → List Message × List Message
  unfolding is_assistant
  split_tail [] = ([], [])
  split_tail (m ∷ ms) =
      let rest = split_tail ms in
      if is_empty rest.0 && is_assistant m then ([], m ∷ rest.1) else (m ∷ rest.0, rest.1)

-- `v in (None, "", [])`
unfoldable pub is_vacant : Value → Bool
is_vacant null = true
is_vacant (text s) = s == ""
is_vacant (items no_values) = true
is_vacant v = false

-- `key not in merged or merged.get(key) in (None, "", [])`
unfoldable pub lacks : Message → String → Bool
unfolding is_vacant
lacks merged k = elim (get merged k) [ none ↦ true | some v ↦ is_vacant v ]

-- the loop over the entries of one message of the run
unfoldable pub fill : Message → Object → Message
unfolding lacks
fill merged [] = merged
fill merged ((k, v) ∷ entries) =
    fill (if not (k == "role" || k == "content") && lacks merged k then put merged k v else merged)
      entries

-- the loop over the run after its first message
unfoldable pub merge_run : (Value → String) → Message → List Message → Message
unfolding fill
merge_run show merged [] = merged
merge_run show merged (m ∷ ms) =
    merge_run show
      (fill
        (put merged "content"
          (merge_chat_message_content show (lookup merged "content") (lookup m "content")))
        m)
      ms

-- `item.get("tool_calls")` as a condition
unfoldable pub calls_tools : Message → Bool
calls_tools m = truthy (lookup m "tool_calls")

unfoldable pub merge_trailing : (Value → String) → List Message → List Message
unfolding split_tail calls_tools merge_run
merge_trailing show ms = elim ((split_tail show ms).1) [
  | [] ↦ ms
  | first ∷ [] ↦ ms
  | first ∷ second ∷ rest ↦
      if any calls_tools (first ∷ second ∷ rest)
      then ms
      else (split_tail show ms).0 ++ merge_run show first (second ∷ rest) ∷ []
]

unfoldable pub normalize_trailing_assistant_messages_for_llamacpp :
    (Value → String) → Value → List Message
unfolding messages_of merge_trailing
normalize_trailing_assistant_messages_for_llamacpp show messages =
    merge_trailing show (messages_of messages)

-- both passes, as `_responses` and the chat handler chain them
unfoldable pub llamacpp_messages : (Value → String) → Value → List Message
unfolding normalize_system_messages_for_llamacpp merge_trailing
llamacpp_messages show messages =
    merge_trailing show (normalize_system_messages_for_llamacpp show messages)
