-- ===== src/Runtime/Probe.antt =====
-- _cli_impl.py: `request_looks_like_model_probe`, on the body of a request.
use heimdall_gateway.Prelude.{
  ℕ, Bool, true, false, not, ◌&&◌, ◌||◌, List, [], ◌∷◌, ltb, leb, if◌then◌else◌, ◌==◌, nat_key,
  string_key, length, is_empty,
}
use heimdall_gateway.Value.{Value, null, text, items, Object, to_list, truthy, lookup}
use heimdall_gateway.Messages.Empties.{is_space}
use heimdall_gateway.Prelude.Text.{codes}

abbrev pub is_list : Value → Bool
is_list (items vs) = true
is_list v = false

abbrev pub size : Value → ℕ
size (items vs) = length (to_list vs)
size v = 0

-- `payload.get("tool_choice") not in (None, "", "none", "auto")`
unfoldable pub demands_tool : Value → Bool
demands_tool null = false
demands_tool (text s) = not (s == "" || s == "none" || s == "auto")
demands_tool v = true

-- the code points that `rstrip` and `lstrip` leave
unfoldable pub strip_right : List ℕ → List ℕ
unfolding is_space
strip_right [] = []
strip_right (c ∷ cs) =
    let rest = strip_right cs in if is_space c && is_empty rest then [] else c ∷ rest

unfoldable pub strip_left : List ℕ → List ℕ
unfolding is_space
strip_left [] = []
strip_left (c ∷ cs) = let rest = strip_left cs in if is_space c then rest else c ∷ cs

-- `isinstance(prompt, str) and len(prompt.strip()) <= 128`
unfoldable pub is_short_text : Value → Bool
unfolding strip_left strip_right
is_short_text (text s) = leb (length (strip_left (strip_right (codes s)))) 128
is_short_text v = false

unfoldable pub request_looks_like_model_probe : Object → Bool
unfolding demands_tool is_short_text
request_looks_like_model_probe payload =
    if is_list (lookup payload "tools") && ltb 0 (size (lookup payload "tools"))
    then false
    else if demands_tool (lookup payload "tool_choice")
    then false
    else if is_list (lookup payload "input")
    then leb (size (lookup payload "input")) 1
    else if is_list (lookup payload "messages")
    then leb (size (lookup payload "messages")) 1 && not (truthy (lookup payload "functions"))
    else is_short_text (lookup payload "prompt")
