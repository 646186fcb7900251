-- ===== src/Tests/Examples.antt =====
-- The store of examples at concrete inputs: two tool calls, remembered under one key.
use Prim.Native.String.{String}
use heimdall_gateway.Prelude.{◌≡◌, refl, some, [], ◌∷◌, ◌++◌, arith, nat_key, string_key}
use heimdall_gateway.Value.{
  Value, text, items, fields, Values, no_values, and_value, no_fields, and_field, to_object,
}
use heimdall_gateway.Dict.{get}
use heimdall_gateway.Examples.{
  Example, ExampleStore, new_store, function_of, is_offered, example_of_function, example_of,
  new_examples, remember, get_example,
}
use heimdall_gateway.Examples.Kept.{IsKept, remembering, apply_calls, apply_calls-IsKept}
use heimdall_gateway.Examples.Usable.{StripLaws}
use heimdall_gateway.Examples.Latest.{get_example-remember}

-- texts of the test hold no white space
abbrev strip_test : String → String
strip_test s = s

abbrev show_test : Value → String
show_test (text s) = s
show_test v = ""

abbrev arguments_test : Value → String
arguments_test (text s) = s
arguments_test v = "{}"

abbrev laws_test : StripLaws strip_test arguments_test
laws_test = record { again = λ s. refl; on_arguments = λ v. refl }

-- {"function": {"name": ..., "arguments": ...}}
abbrev call : String → String → Value
call name arguments = fields (
    and_field "function"
      (fields (and_field "name" (text name) (and_field "arguments" (text arguments) no_fields)))
      no_fields)

abbrev calls : Values
calls = and_value (call "search" "{}") (and_value (call "fetch" "[]") no_values)

abbrev store : ExampleStore
store = new_store 4 0

abbrev first_call : Example
first_call = record { tool_name = "search"; arguments = "{}"; request_id = "r"; seen = 5 }

abbrev second_call : Example
second_call = record { tool_name = "fetch"; arguments = "[]"; request_id = "r"; seen = 5 }

both_new :
    new_examples strip_test show_test arguments_test [] "r" 5 calls
    ≡ (first_call ∷ []) ++ second_call ∷ []
unfolding new_examples example_of example_of_function function_of to_object is_offered get
both_new = refl

get_example-remember_example :
    (get_example strip_test show_test arguments_test
      ("k" ∷ [])
      []
      60000
      (remember strip_test show_test arguments_test "k" (items calls) [] "r" 5 store)).0
    ≡ some ("fetch", "[]")
unfolding new_store
get_example-remember_example =
    get_example-remember strip_test show_test arguments_test laws_test "k" [] [] "r" 5 60000 calls
      (first_call ∷ []) second_call store (omega arith) refl both_new refl

apply_calls-IsKept_example : IsKept (
    apply_calls strip_test show_test arguments_test
      (remembering "k" (items calls) [] "r" 5 ∷ [])
      (new_store 1 0))
apply_calls-IsKept_example =
    apply_calls-IsKept strip_test show_test arguments_test
      (remembering "k" (items calls) [] "r" 5 ∷ []) 1 0
