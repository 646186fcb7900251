-- ===== src/Messages/System.antt =====
-- _cli_impl.py, `_normalize_system_messages_for_llamacpp`: system and developer messages become one,
-- in front.
use Prim.Native.String.{◌++◌ as ◌+++◌}
use heimdall_gateway.Prelude.{
  String, Bool, false, not, ◌&&◌, ◌||◌, List, [], ◌∷◌, if◌then◌else◌, ◌==◌, nat_key, string_key,
  filter,
}
use heimdall_gateway.Messages.{Message, messages_of, role, merge_chat_message_content}
use heimdall_gateway.Value.{Value, text, lookup}
use heimdall_gateway.Dict.{put}

module _ (show : Value → String) where
  unfoldable pub is_privileged : Message → Bool
  unfolding role
  is_privileged m = role show m == "system" || role show m == "developer"

  -- the content that one more system message leaves
  unfoldable pub joined_system_content : Value → Value → Value
  unfolding merge_chat_message_content
  joined_system_content (text s) (text t) =
      if not (s == "") && not (t == "")
      then text (s +++ "\n\n" +++ t)
      else merge_chat_message_content show (text s) (text t)
  joined_system_content left right = merge_chat_message_content show left right

  -- the loop over the system messages after the first
  unfoldable pub absorb : Message → List Message → Message
  unfolding joined_system_content
  absorb first [] = first
  absorb first (m ∷ ms) =
      absorb
        (put first "content" (joined_system_content (lookup first "content") (lookup m "content")))
        ms

  -- `len(system_indexes) == 1 and system_indexes[0] == 0`
  unfoldable pub stands_alone : List Message → List Message → Bool
  unfolding is_privileged
  stands_alone [] (m ∷ ms) = is_privileged m
  stands_alone others ms = false

  unfoldable pub collapse_system : List Message → List Message
  unfolding is_privileged stands_alone absorb
  collapse_system ms = elim (filter is_privileged ms) [
    | [] ↦ ms
    | first ∷ others ↦
        if stands_alone others ms
        then ms
        else absorb first others ∷ filter (λ m. not (is_privileged m)) ms
  ]

  unfoldable pub normalize_system_messages_for_llamacpp : Value → List Message
  unfolding messages_of collapse_system
  normalize_system_messages_for_llamacpp messages = collapse_system (messages_of messages)
