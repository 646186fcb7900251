-- ===== src/Messages.antt =====
-- _cli_impl.py, what the gateway does to the messages of a chat request before llama.cpp reads them:
-- one system message and in front, and no two assistant messages at the end.
-- `show` is Python's `str` on values that are not text.
pub mod System
pub mod Trailing
pub mod Empties
pub mod Order
pub mod Ending
use Prim.Native.String.{◌++◌ as ◌+++◌}
use heimdall_gateway.Prelude.{
  String, Bool, true, false, List, [], ◌∷◌, ◌++◌, if◌then◌else◌, ◌==◌, nat_key, string_key,
}
use heimdall_gateway.Value.{
  Value, null, text, items, fields, Values, no_values, and_value, Object, to_list, of_list,
  to_object, of_object, truthy, lookup,
}

-- a message of the chat: a dict
abbrev pub Message : Type 0
Message = Object

-- `[dict(item) for item in messages if isinstance(item, dict)]`
unfoldable pub dicts : Values → List Message
dicts no_values = []
dicts (and_value (fields fs) vs) = to_object fs ∷ dicts vs
dicts (and_value v vs) = dicts vs

-- what each pass makes of its argument: anything but a list is no messages
unfoldable pub messages_of : Value → List Message
unfolding dicts
messages_of (items vs) = dicts vs
messages_of v = []

module _ (show : Value → String) where
  -- `str(v)`
  abbrev pub str : Value → String
  str (text s) = s
  str v = show v

  -- `str(item.get("role") or "")`
  unfoldable pub role : Message → String
  role m = if truthy (lookup m "role") then str (lookup m "role") else ""

  unfoldable pub as_parts : Value → Values
  as_parts (items vs) = vs
  as_parts v =
      and_value (fields (of_object (("type", text "text") ∷ ("text", text (str v)) ∷ []))) no_values

  unfoldable pub joined : Value → Value → Value
  unfolding as_parts
  joined (items vs) right = items (of_list (to_list vs ++ to_list (as_parts right)))
  joined left (items vs) = items (of_list (to_list (as_parts left) ++ to_list vs))
  joined left right = text (str left +++ "\n" +++ str right)

-- `v in (None, "")`
unfoldable pub is_blank : Value → Bool
is_blank null = true
is_blank (text s) = s == ""
is_blank v = false

-- `right if right is not None else ""`
unfoldable pub or_empty : Value → Value
or_empty null = text ""
or_empty v = v

unfoldable pub merge_chat_message_content : (Value → String) → Value → Value → Value
unfolding is_blank or_empty joined
merge_chat_message_content show left right =
    if is_blank left
    then or_empty right
    else if is_blank right
    then left
    else joined show left right
