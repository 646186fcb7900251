-- ===== src/Examples/Kept.antt =====
-- _cli_impl.py, `ChatToolCallExampleStore`: how many examples a key has, and that they differ.
use mathlib.Core.Path.{subst}
use Prim.Native.String.{String}
use heimdall_gateway.Prelude.{
  ℕ, zero, suc, ◌≤◌, ◌≡◌, refl, sym, ap, ◌∙◌, inl, inr, Bool, false, not, Option, none, some, List,
  [], ◌∷◌, arith, Bool-cases, or_else, if_elim, ◌==◌, nat_key, string_key, length, is_empty, filter,
  take, take_of_nothing, length-take-le, All, take-All, filter-not-All,
}
use heimdall_gateway.Dict.{Dict, keep, get, get-put, get-retain}
use heimdall_gateway.Value.{Value, null, boolean, number, text, items, fields}
use heimdall_gateway.Examples.{
  Example, ExampleStore, new_store, fresh_examples, with_fresh, prune_examples, same_call,
  insert_example, insert_examples, store_examples, remember, get_example,
}

-- no two of the examples are the same call
abbrev pub AllDiffer : List Example → Type 0
AllDiffer [] = Unit
AllDiffer (e ∷ examples) = All (λ old. same_call old e ≡ false) examples × AllDiffer examples

abbrev pub examples_at : ExampleStore → String → List Example
examples_at s key = or_else (get s.examples_by_key key) []

abbrev pub IsKept : ExampleStore → Type 0
IsKept s =
    (key : String) → (length (examples_at s key) ≤ s.max_per_key) × AllDiffer (examples_at s key)

-- a call of `remember` or of `get`
pub data ExampleCall : Type 0 where
  remembering : String → Value → List String → String → ℕ → ExampleCall
  getting : List String → List String → ℕ → ExampleCall

filter-keeps :
    (P : Example → Type 0) (p : Example → Bool) (examples : List Example)
    → All P examples
    → All P (filter p examples)
filter-keeps P p [] holds = tt
filter-keeps P p (e ∷ examples) (first, holds) =
    if_elim (All P) (p e) _ _ (first, filter-keeps P p examples holds)
      (filter-keeps P p examples holds)

filter-AllDiffer :
    (p : Example → Bool) (examples : List Example)
    → AllDiffer examples
    → AllDiffer (filter p examples)
filter-AllDiffer p [] differ = tt
filter-AllDiffer p (e ∷ examples) (first, differ) =
    if_elim AllDiffer (p e) _ _
      (
        filter-keeps (λ old. same_call old e ≡ false) p examples first,
        filter-AllDiffer p examples differ,
      )
      (filter-AllDiffer p examples differ)

take-AllDiffer :
    (n : ℕ) (examples : List Example) → AllDiffer examples → AllDiffer (take n examples)
unfolding take
take-AllDiffer zero examples differ = tt
take-AllDiffer (suc n) [] differ = tt
take-AllDiffer (suc n) (e ∷ examples) (first, differ) =
    (take-All _ n examples first, take-AllDiffer n examples differ)

insert_examples-AllDiffer :
    (new existing : List Example) → AllDiffer existing → AllDiffer (insert_examples new existing)
unfolding insert_examples insert_example
insert_examples-AllDiffer [] existing differ = differ
insert_examples-AllDiffer (e ∷ new) existing differ = insert_examples-AllDiffer new _ (
  filter-not-All (λ old. same_call old e) existing,
  filter-AllDiffer (λ old. not (same_call old e)) existing differ,
)

abbrev pub mapped_option :
    (List Example → List Example) → Option (List Example) → Option (List Example)
mapped_option f none = none
mapped_option f (some examples) = some (f examples)

get-with_fresh :
    (now : ℕ) (s : ExampleStore) (d : Dict String (List Example)) (key : String)
    → get (with_fresh now s d) key ≡ mapped_option (fresh_examples now s) (get d key)
unfolding with_fresh get
get-with_fresh now s [] key = refl
get-with_fresh now s ((k, examples) ∷ d) key = elim (Bool-cases (k == key)) [
  | inl e ↦ rw e refl
  | inr e ↦ rw e (get-with_fresh now s d key)
]

unless_empty :
    (examples : List Example)
    → or_else (keep (λ kept. not (is_empty kept)) (some examples)) [] ≡ examples
unless_empty [] = refl
unless_empty (e ∷ examples) = refl

kept_fresh :
    (now : ℕ) (s : ExampleStore) (found : Option (List Example))
    → or_else (keep (λ kept. not (is_empty kept)) (mapped_option (fresh_examples now s) found)) []
      ≡ fresh_examples now s (or_else found [])
unfolding fresh_examples
kept_fresh now s none = sym (take_of_nothing s.max_per_key)
kept_fresh now s (some examples) = unless_empty (fresh_examples now s examples)

-- what a key has after pruning: the fresh ones, as many as fit
pub examples_at-prune_examples :
    (now : ℕ) (s : ExampleStore) (key : String)
    → examples_at (prune_examples now s) key ≡ fresh_examples now s (examples_at s key)
unfolding prune_examples
examples_at-prune_examples now s key =
    ap (λ o. or_else o [])
      (get-retain (λ key examples. not (is_empty examples)) (with_fresh now s s.examples_by_key)
        key)
    ∙ ap (λ o. or_else (keep (λ kept. not (is_empty kept)) o) [])
        (get-with_fresh now s s.examples_by_key key)
    ∙ kept_fresh now s (get s.examples_by_key key)

pub prune_examples-IsKept : (now : ℕ) (s : ExampleStore) → IsKept s → IsKept (prune_examples now s)
unfolding fresh_examples prune_examples
prune_examples-IsKept now s kept key =
    let (few, differ) = kept key in
    subst (λ l. (length l ≤ s.max_per_key) × AllDiffer l)
      (sym (examples_at-prune_examples now s key))
      (
        length-take-le s.max_per_key _,
        take-AllDiffer s.max_per_key _ (filter-AllDiffer _ (examples_at s key) differ),
      )

module _ (strip : String → String) (show : Value → String) (arguments_of : Value → String) where
  store_examples-IsKept :
      (key : String) (new : List Example) (now : ℕ) (s : ExampleStore)
      → IsKept s
      → IsKept (store_examples strip show arguments_of key new now s)
  unfolding store_examples prune_examples
  store_examples-IsKept key [] now s kept = kept
  store_examples-IsKept key (e ∷ new) now s kept = λ k.
      let pruned = prune_examples now s in
      let (few, differ) = prune_examples-IsKept now s kept key in
      elim (Bool-cases (key == k)) [
        | inl e1 ↦
            rw (get-put pruned.examples_by_key key k, e1)
              (
                length-take-le s.max_per_key _,
                take-AllDiffer s.max_per_key _
                    (insert_examples-AllDiffer (e ∷ new) (examples_at pruned key) differ),
              )
        | inr e1 ↦
            rw (get-put pruned.examples_by_key key k, e1) (prune_examples-IsKept now s kept k)
      ]

  remember-IsKept :
      (key : String) (tool_calls : Value) (valid_names : List String) (request_id : String)
      (now : ℕ) (s : ExampleStore)
      → IsKept s
      → IsKept (remember strip show arguments_of key tool_calls valid_names request_id now s)
  unfolding remember
  remember-IsKept key (items tool_calls) valid_names request_id now s kept =
      if_elim IsKept (key == "") _ _ kept (store_examples-IsKept key _ now s kept)
  remember-IsKept key null valid_names request_id now s kept = kept
  remember-IsKept key (boolean b) valid_names request_id now s kept = kept
  remember-IsKept key (number z) valid_names request_id now s kept = kept
  remember-IsKept key (text t) valid_names request_id now s kept = kept
  remember-IsKept key (fields fs) valid_names request_id now s kept = kept

  -- the calls of the store, one after the other
  unfoldable pub apply_calls : List ExampleCall → ExampleStore → ExampleStore
  unfolding remember get_example
  apply_calls [] s = s
  apply_calls (remembering key tool_calls valid_names request_id now ∷ calls) s =
      apply_calls calls
        (remember strip show arguments_of key tool_calls valid_names request_id now s)
  apply_calls (getting keys valid_names now ∷ calls) s =
      apply_calls calls (get_example strip show arguments_of keys valid_names now s).1

  apply_calls-keeps :
      (calls : List ExampleCall) (s : ExampleStore) → IsKept s → IsKept (apply_calls calls s)
  unfolding apply_calls get_example
  apply_calls-keeps [] s kept = kept
  apply_calls-keeps (remembering key tool_calls valid_names request_id now ∷ calls) s kept =
      apply_calls-keeps calls _ (remember-IsKept key tool_calls valid_names request_id now s kept)
  apply_calls-keeps (getting keys valid_names now ∷ calls) s kept =
      apply_calls-keeps calls _ (prune_examples-IsKept now s kept)

  -- After any calls on a new store, every key has at most the examples that a key may have, and no
  -- two of them have the same tool name and arguments.
  pub apply_calls-IsKept :
      (calls : List ExampleCall) (max_per_key ttl : ℕ)
      → IsKept (apply_calls calls (new_store max_per_key ttl))
  unfolding new_store get
  apply_calls-IsKept calls max_per_key ttl =
      apply_calls-keeps calls (new_store max_per_key ttl) (λ key. (omega arith, tt))
