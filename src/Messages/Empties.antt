-- ===== src/Messages/Empties.antt =====
-- command_router.py, `normalize_messages`: of neighbouring user messages without text one is kept.
-- `clean` is the replacement of texts by regular expressions (`_sanitize_text_newlines` around
-- `_sanitize_tool_output_artifacts`), `show` is Python's `str`.
pub mod Laws
use Prim.Native.Char.{code}
use heimdall_gateway.Prelude.{
  ℕ, String, Bool, true, false, not, ◌&&◌, ◌||◌, Option, none, some, List, [], ◌∷◌, map, leb,
  if◌then◌else◌, ◌==◌, nat_key, string_key, all, contains,
}
use heimdall_gateway.Messages.{Message, messages_of, role}
use heimdall_gateway.Value.{
  Value, null, text, items, fields, Object, to_list, of_list, to_object, of_object, truthy, lookup,
}
use heimdall_gateway.Dict.{get, put}
use heimdall_gateway.Prelude.Text.{codes}

-- a code point that `str.strip` removes
unfoldable pub is_space : ℕ → Bool
is_space c =
    (leb 9 c && leb c 13)
    || (leb 28 c && leb c 32)
    || contains (133 ∷ 160 ∷ 5760 ∷ 8232 ∷ 8233 ∷ 8239 ∷ 8287 ∷ 12288 ∷ []) c
    || (leb 8192 c && leb c 8202)

-- `s.strip() == ""`
unfoldable pub strips_empty : String → Bool
unfolding is_space
strips_empty s = all is_space (codes s)

unfoldable pub is_text_blank : Value → Bool
unfolding strips_empty
is_text_blank (text s) = strips_empty s
is_text_blank v = true

-- `item.get("text") or item.get("content") or ""`
unfoldable pub text_of_part : Object → Value
text_of_part o =
    if truthy (lookup o "text")
    then lookup o "text"
    else if truthy (lookup o "content")
    then lookup o "content"
    else text ""

-- `item.get("type") in {"image_url", "input_image"}`
unfoldable pub is_image_type : Value → Bool
is_image_type (text s) = s == "image_url" || s == "input_image"
is_image_type v = false

unfoldable pub is_empty_part : Value → Bool
unfolding is_text_blank text_of_part is_image_type
is_empty_part (fields fs) =
    is_text_blank (text_of_part (to_object fs))
    && not (is_image_type (lookup (to_object fs) "type"))
is_empty_part v = is_text_blank v

unfoldable pub is_empty_user_content : (Value → String) → Value → Bool
unfolding strips_empty is_empty_part
is_empty_user_content show null = true
is_empty_user_content show (text s) = strips_empty s
is_empty_user_content show (items vs) = all is_empty_part (to_list vs)
is_empty_user_content show v = strips_empty (show v)

module _ (clean : String → String) where
  unfoldable pub clean_text : Value → Value
  clean_text (text s) = text (clean s)
  clean_text v = v

  -- `if isinstance(copy.get(key), str): copy[key] = _sanitize_str(copy[key])`
  unfoldable pub clean_key : Object → String → Object
  clean_key o k = elim (lookup o k) [ text s ↦ put o k (text (clean s)) | _ ↦ o ]

  unfoldable pub clean_part : Value → Value
  unfolding clean_key clean_text
  clean_part (fields fs) =
      fields
        (of_object (clean_key (clean_key (clean_key (to_object fs) "text") "content") "output"))
  clean_part v = clean_text v

  unfoldable pub sanitize_content_field : Value → Value
  unfolding clean_part clean_text
  sanitize_content_field (items vs) = items (of_list (map clean_part (to_list vs)))
  sanitize_content_field v = clean_text v

  -- `if "content" in m: m["content"] = _sanitize_content_field(m.get("content"))`
  unfoldable pub sanitized : Message → Message
  unfolding sanitize_content_field
  sanitized m = elim (get m "content") [
    | none ↦ m
    | some v ↦ put m "content" (sanitize_content_field v)
  ]

module _ (show : Value → String) where
  unfoldable pub is_empty_user : Message → Bool
  unfolding role is_empty_user_content
  is_empty_user m = role show m == "user" && is_empty_user_content show (lookup m "content")

  -- the loop; `last` is `out[-1]`
  unfoldable pub collapse_empties : Option Message → List Message → List Message
  unfolding is_empty_user
  collapse_empties last [] = []
  collapse_empties last (m ∷ ms) =
      let skipped = collapse_empties last ms in
      let kept = m ∷ collapse_empties (some m) ms in
      if is_empty_user m && elim last [ none ↦ false | some l ↦ is_empty_user l ]
      then skipped
      else kept

unfoldable pub normalize_messages : (String → String) → (Value → String) → Value → List Message
unfolding messages_of sanitized collapse_empties
normalize_messages clean show messages =
    collapse_empties show none (map (sanitized clean) (messages_of messages))
