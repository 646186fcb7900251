-- ===== src/Examples/Usable.antt =====
-- _cli_impl.py, `ChatToolCallExampleStore`: what every example that is remembered has.
use mathlib.Core.Path.{subst}
use heimdall_gateway.Prelude.{◌>>=◌}
use Prim.Native.String.{String}
use heimdall_gateway.Prelude.{
  ℕ, ◌≡◌, refl, ap, ◌∙◌, inl, inr, Bool, true, false, not, ◌&&◌, Option, none, some, List,
  if◌then◌else◌, Option-cases, ◌==◌, nat_key, string_key, All,
}
use heimdall_gateway.Value.{
  Value, null, boolean, number, text, items, fields, Values, no_values, and_value, Object,
  to_object, lookup,
}
use heimdall_gateway.Examples.{
  Example, function_of, or_empty, is_offered, example_of_function, example_of, new_examples,
}

-- the laws of `strip` that the store relies on
pub record StripLaws (strip : String → String) (arguments_of : Value → String) : Type 0 where
  pub again : (s : String) → strip (strip s) ≡ strip s
  pub on_arguments : (v : Value) → strip (arguments_of v) ≡ arguments_of v

module _ (strip : String → String) (show : Value → String) (arguments_of : Value → String)
    (laws : StripLaws strip arguments_of) where
  -- what every example that is remembered has
  abbrev pub IsUsable : List String → ℕ → Example → Type 0
  IsUsable valid_names now e =
      (is_offered valid_names (strip e.tool_name) && not (strip e.arguments == "") ≡ true)
      × (strip e.tool_name ≡ e.tool_name)
      × (strip e.arguments ≡ e.arguments)
      × (e.seen ≡ now)

  abbrev AllOf : (Example → Type 0) → Option Example → Type 0
  AllOf P none = Unit
  AllOf P (some e) = P e

  AllOf-guarded :
      (P : Example → Type 0) (b : Bool) (e : Example)
      → (b ≡ true → P e)
      → AllOf P (if b then some e else none)
  AllOf-guarded P true e holds = holds refl
  AllOf-guarded P false e holds = tt

  example_of_function-IsUsable :
      (valid_names : List String) (request_id : String) (now : ℕ) (function : Object)
      → AllOf
          (IsUsable valid_names now)
          (example_of_function strip show arguments_of valid_names request_id now function)
  unfolding example_of_function
  example_of_function-IsUsable valid_names request_id now function =
      let given = or_empty (lookup function "arguments") in
      let name = show (or_empty (lookup function "name")) in
      let named = laws.again name in
      let unchanged = laws.on_arguments given in
      AllOf-guarded (IsUsable valid_names now) _ _ λ holds. (
        ap (λ n. is_offered valid_names n && not (strip (arguments_of given) == "")) named
            ∙ ap (λ a. is_offered valid_names (strip name) && not (a == "")) unchanged
            ∙ holds,
        named,
        unchanged,
        refl,
      )

  example_of-IsUsable :
      (valid_names : List String) (request_id : String) (now : ℕ) (v : Value)
      → AllOf
          (IsUsable valid_names now)
          (example_of strip show arguments_of valid_names request_id now v)
  unfolding example_of
  example_of-IsUsable valid_names request_id now (fields fs) =
      of_found (function_of (lookup (to_object fs) "function"))
    where
      of_found :
          (found : Option Object)
          → AllOf
              (IsUsable valid_names now)
              (found >>= example_of_function strip show arguments_of valid_names request_id now)
      of_found none = tt
      of_found (some function) = example_of_function-IsUsable valid_names request_id now function
  example_of-IsUsable valid_names request_id now null = tt
  example_of-IsUsable valid_names request_id now (boolean b) = tt
  example_of-IsUsable valid_names request_id now (number z) = tt
  example_of-IsUsable valid_names request_id now (text t) = tt
  example_of-IsUsable valid_names request_id now (items vs) = tt

  pub new_examples-IsUsable :
      (valid_names : List String) (request_id : String) (now : ℕ) (vs : Values)
      → All
          (IsUsable valid_names now)
          (new_examples strip show arguments_of valid_names request_id now vs)
  unfolding new_examples
  new_examples-IsUsable valid_names request_id now no_values = tt
  new_examples-IsUsable valid_names request_id now (and_value v vs) =
      let found = example_of strip show arguments_of valid_names request_id now v in
      let usable = example_of-IsUsable valid_names request_id now v in
      let rest = new_examples-IsUsable valid_names request_id now vs in
      elim (Option-cases found) [
        | inl e ↦ rw (new_examples, e) rest
        | inr (example, e) ↦
            rw (new_examples, e) (subst (AllOf (IsUsable valid_names now)) e usable, rest)
      ]
