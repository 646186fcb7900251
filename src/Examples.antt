-- ===== src/Examples.antt =====
-- _cli_impl.py, the tool calls that a repair shows as examples: `ChatToolCallExampleStore`. `strip` is
-- `str.strip`, `show` is Python's `str`, and `arguments_of` is
-- `_normalize_tool_call_arguments_for_example`, which is about JSON texts. The names of the tools that
-- a request offers come from outside. Times are in milliseconds.
pub mod Kept
pub mod Usable
pub mod Latest
use heimdall_gateway.Prelude.{◌>>=◌}
use Prim.Native.String.{String}
use heimdall_gateway.Prelude.{
  ℕ, ◌+◌, max, Bool, not, ◌&&◌, ◌||◌, Option, none, some, List, [], ◌∷◌, leb, if◌then◌else◌,
  or_else, is_some, ◌==◌, nat_key, string_key, is_empty, any, filter, take,
}
use heimdall_gateway.Dict.{Dict, get, put, retain}
use heimdall_gateway.Value.{
  Value, text, items, fields, Values, no_values, and_value, Object, to_object, truthy, lookup,
}

pub record Example : Type 0 where
  pub tool_name : String
  pub arguments : String
  pub request_id : String
  pub seen : ℕ

pub record ExampleStore : Type 0 where
  pub max_per_key : ℕ
  pub ttl : ℕ
  pub examples_by_key : Dict String (List Example)

unfoldable pub new_store : ℕ → ℕ → ExampleStore
new_store max_per_key ttl = record {
  max_per_key = max 1 max_per_key;
  ttl = max 60000 ttl;
  examples_by_key = [];
}

-- the examples that are not too old, as many as a key may have
unfoldable pub fresh_examples : ℕ → ExampleStore → List Example → List Example
unfolding take
fresh_examples now s examples = take s.max_per_key (filter (λ e. leb now (e.seen + s.ttl)) examples)

unfoldable pub with_fresh :
    ℕ → ExampleStore → Dict String (List Example) → Dict String (List Example)
unfolding fresh_examples
with_fresh now s [] = []
with_fresh now s ((key, examples) ∷ rest) =
    (key, fresh_examples now s examples) ∷ with_fresh now s rest

unfoldable pub prune_examples : ℕ → ExampleStore → ExampleStore
unfolding with_fresh
prune_examples now s = record s {
  examples_by_key =
      retain (λ key examples. not (is_empty examples)) (with_fresh now s s.examples_by_key);
}

-- `tool_call.get("function") or {}`, if it is a dict
unfoldable pub function_of : Value → Option Object
function_of (fields function) = some (to_object function)
function_of v = if truthy v then none else some []

-- `v or ""`
abbrev pub or_empty : Value → Value
or_empty v = if truthy v then v else text ""

unfoldable pub is_offered : List String → String → Bool
is_offered valid_names name =
    not (name == "") && (is_empty valid_names || any (λ valid. valid == name) valid_names)

abbrev pub same_call : Example → Example → Bool
same_call a b = a.tool_name == b.tool_name && a.arguments == b.arguments

-- `existing` without the equal ones, and the example in front
unfoldable pub insert_example : List Example → Example → List Example
insert_example existing e = e ∷ filter (λ old. not (same_call old e)) existing

unfoldable pub insert_examples : List Example → List Example → List Example
unfolding insert_example
insert_examples [] existing = existing
insert_examples (e ∷ new) existing = insert_examples new (insert_example existing e)

module _ (strip : String → String) (show : Value → String) (arguments_of : Value → String) where
  unfoldable pub example_of_function : List String → String → ℕ → Object → Option Example
  unfolding is_offered
  example_of_function valid_names request_id now function =
      let name = strip (show (or_empty (lookup function "name"))) in
      let arguments = arguments_of (or_empty (lookup function "arguments")) in
      if is_offered valid_names name && not (arguments == "")
      then some
          (record { tool_name = name; arguments = arguments; request_id = request_id; seen = now })
      else none

  unfoldable pub example_of : List String → String → ℕ → Value → Option Example
  unfolding example_of_function function_of
  example_of valid_names request_id now (fields tool_call) = do
    function ← function_of (lookup (to_object tool_call) "function")
    example_of_function valid_names request_id now function
  example_of valid_names request_id now v = none

  unfoldable pub new_examples : List String → String → ℕ → Values → List Example
  unfolding example_of
  new_examples valid_names request_id now no_values = []
  new_examples valid_names request_id now (and_value v vs) =
      let rest = new_examples valid_names request_id now vs in
      elim (example_of valid_names request_id now v) [ some e ↦ e ∷ rest | none ↦ rest ]

  -- the locked part
  unfoldable pub store_examples : String → List Example → ℕ → ExampleStore → ExampleStore
  unfolding prune_examples insert_examples take
  store_examples key [] now s = s
  store_examples key (e ∷ new) now s =
      let pruned = prune_examples now s in
      let existing = or_else (get pruned.examples_by_key key) [] in
      record pruned {
        examples_by_key =
            put pruned.examples_by_key key
              (take s.max_per_key (insert_examples (e ∷ new) existing));
      }

  unfoldable pub remember : String → Value → List String → String → ℕ → ExampleStore → ExampleStore
  unfolding new_examples store_examples
  remember key (items tool_calls) valid_names request_id now s =
      if key == ""
      then s
      else store_examples key (new_examples valid_names request_id now tool_calls) now s
  remember key v valid_names request_id now s = s

  -- the first of the examples that is offered, as (tool_name, arguments)
  unfoldable pub offered_example : List String → List Example → Option (String × String)
  unfolding is_offered
  offered_example valid_names [] = none
  offered_example valid_names (e ∷ examples) =
      let name = strip e.tool_name in
      let arguments = strip e.arguments in
      if is_offered valid_names name && not (arguments == "")
      then some (name, arguments)
      else offered_example valid_names examples

  unfoldable pub example_at :
      List String → List String → Dict String (List Example) → Option (String × String)
  unfolding offered_example
  example_at [] valid_names d = none
  example_at (key ∷ keys) valid_names d =
      let found = offered_example valid_names (or_else (get d key) []) in
      let later = example_at keys valid_names d in
      if key == "" || not (is_some found) then later else found

  unfoldable pub get_example :
      List String → List String → ℕ → ExampleStore → Option (String × String) × ExampleStore
  unfolding prune_examples example_at
  get_example keys valid_names now s =
      let pruned = prune_examples now s in
      (example_at keys valid_names pruned.examples_by_key, pruned)
