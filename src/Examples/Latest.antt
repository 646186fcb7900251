-- ===== src/Examples/Latest.antt =====
-- _cli_impl.py, `ChatToolCallExampleStore`: the latest usable call is the example that is given.
use mathlib.Core.Path.{subst}
use Prim.Native.String.{String}
use heimdall_gateway.Prelude.{
  ℕ, zero, suc, ◌+◌, ◌≤◌, ◌≡◌, refl, sym, ap, ◌∙◌, true, false, some, List, [], ◌∷◌, ◌++◌, arith,
  leb, if◌then◌else◌, or_else, ◌==◌, nat_key, string_key, ==_refl, filter, take, All,
}
use heimdall_gateway.Dict.{Dict, get, get-put}
use heimdall_gateway.Value.{Value, items, Values}
use heimdall_gateway.Examples.{
  Example, ExampleStore, fresh_examples, prune_examples, insert_example, insert_examples,
  new_examples, store_examples, remember, offered_example, example_at, get_example,
}
use heimdall_gateway.Examples.Kept.{examples_at, examples_at-prune_examples}
use heimdall_gateway.Examples.Usable.{StripLaws, IsUsable, new_examples-IsUsable}

-- the list begins with this example
abbrev IsLedBy : Example → List Example → Type 0
IsLedBy e examples = (rest : List Example) × (examples ≡ e ∷ rest)

insert_examples-IsLedBy :
    (before : List Example) (e : Example) (existing : List Example)
    → IsLedBy e (insert_examples (before ++ e ∷ []) existing)
unfolding insert_examples insert_example
insert_examples-IsLedBy [] e existing = (_, refl)
insert_examples-IsLedBy (d ∷ before) e existing = insert_examples-IsLedBy before e _

take-IsLedBy :
    (n : ℕ) (e : Example) (examples : List Example)
    → 1 ≤ n
    → IsLedBy e examples
    → IsLedBy e (take n examples)
unfolding take
take-IsLedBy zero e examples some_kept led = absurd (omega arith)
take-IsLedBy (suc n) e examples some_kept (rest, led) = (take n rest, ap (take (suc n)) led)

fresh_examples-IsLedBy :
    (now : ℕ) (s : ExampleStore) (e : Example) (examples : List Example)
    → 1 ≤ s.max_per_key
    → leb now (e.seen + s.ttl) ≡ true
    → IsLedBy e examples
    → IsLedBy e (fresh_examples now s examples)
unfolding fresh_examples
fresh_examples-IsLedBy now s e examples some_kept fresh (rest, led) =
    take-IsLedBy s.max_per_key e _ some_kept (
      filter (λ e. leb now (e.seen + s.ttl)) rest,
      ap (filter (λ e. leb now (e.seen + s.ttl))) led
          ∙ ap
              (λ b.
                if b
                then e ∷ filter (λ e. leb now (e.seen + s.ttl)) rest
                else filter (λ e. leb now (e.seen + s.ttl)) rest)
              fresh,
    )

last-All :
    (P : Example → Type 0) (before : List Example) (e : Example) → All P (before ++ e ∷ []) → P e
last-All P [] e (holds, rest) = holds
last-All P (d ∷ before) e (first, holds) = last-All P before e holds

module _ (strip : String → String) (show : Value → String) (arguments_of : Value → String)
    (laws : StripLaws strip arguments_of) where
  offered_example-led :
      (valid_names : List String) (now : ℕ) (e : Example) (examples : List Example)
      → IsUsable strip show arguments_of laws valid_names now e
      → IsLedBy e examples
      → offered_example strip show arguments_of valid_names examples
        ≡ some (e.tool_name, e.arguments)
  unfolding offered_example
  offered_example-led valid_names now e examples (offered, named, unchanged, seen) (rest, led) =
      ap (offered_example strip show arguments_of valid_names) led
      ∙ ap
          (λ b.
            if b
            then some (strip e.tool_name, strip e.arguments)
            else offered_example strip show arguments_of valid_names rest)
          offered
      ∙ ap (λ n. some (n, strip e.arguments)) named
      ∙ ap (λ a. some (e.tool_name, a)) unchanged

  examples_at-store_examples :
      (key : String) (e : Example) (new : List Example) (now : ℕ) (s : ExampleStore)
      → examples_at (store_examples strip show arguments_of key (e ∷ new) now s) key
        ≡ take s.max_per_key (insert_examples (e ∷ new) (examples_at (prune_examples now s) key))
  unfolding store_examples
  examples_at-store_examples key e new now s =
      rw (get-put (prune_examples now s).examples_by_key key key, ==_refl key) refl

  store_examples-IsLedBy :
      (key : String) (before : List Example) (e : Example) (now : ℕ) (s : ExampleStore)
      → 1 ≤ s.max_per_key
      → IsLedBy e
          (examples_at (store_examples strip show arguments_of key (before ++ e ∷ []) now s) key)
  store_examples-IsLedBy key [] e now s some_kept =
      rw (examples_at-store_examples key e [] now s)
        (take-IsLedBy s.max_per_key e _ some_kept (insert_examples-IsLedBy [] e _))
  store_examples-IsLedBy key (d ∷ before) e now s some_kept =
      rw (examples_at-store_examples key d (before ++ e ∷ []) now s)
        (take-IsLedBy s.max_per_key e _ some_kept (insert_examples-IsLedBy (d ∷ before) e _))

  store_examples-limits :
      (key : String) (new : List Example) (now : ℕ) (s : ExampleStore)
      → ((store_examples strip show arguments_of key new now s).max_per_key ≡ s.max_per_key)
        × ((store_examples strip show arguments_of key new now s).ttl ≡ s.ttl)
  unfolding store_examples prune_examples
  store_examples-limits key [] now s = (refl, refl)
  store_examples-limits key (e ∷ new) now s = (refl, refl)

  example_at-first :
      (key : String) (keys valid_names : List String) (d : Dict String (List Example))
      (found : String × String)
      → (key == "") ≡ false
      → offered_example strip show arguments_of valid_names (or_else (get d key) []) ≡ some found
      → example_at strip show arguments_of (key ∷ keys) valid_names d ≡ some found
  unfolding example_at
  example_at-first key keys valid_names d found named e = rw (named, e) refl

  get_example-led :
      (key : String) (keys valid_names : List String) (now later : ℕ) (e : Example)
      (t : ExampleStore)
      → (key == "") ≡ false
      → IsUsable strip show arguments_of laws valid_names now e
      → IsLedBy e (examples_at (prune_examples later t) key)
      → (get_example strip show arguments_of (key ∷ keys) valid_names later t).0
        ≡ some (e.tool_name, e.arguments)
  unfolding get_example
  get_example-led key keys valid_names now later e t named usable led =
      example_at-first key keys valid_names _ _ named
        (offered_example-led valid_names now e _ usable led)

  remember-stored :
      (key : String) (tool_calls : Values) (valid_names : List String) (request_id : String)
      (now : ℕ) (s : ExampleStore)
      → (key == "") ≡ false
      → remember strip show arguments_of key (items tool_calls) valid_names request_id now s
        ≡ store_examples strip show arguments_of key
            (new_examples strip show arguments_of valid_names request_id now tool_calls)
            now
            s
  unfolding remember
  remember-stored key tool_calls valid_names request_id now s named =
      ap
        (λ b.
          if b
          then s
          else store_examples strip show arguments_of key
              (new_examples strip show arguments_of valid_names request_id now tool_calls) now s)
        named

  store_examples-pruned :
      (key : String) (before : List Example) (e : Example) (valid_names : List String)
      (now later : ℕ) (s : ExampleStore)
      → 1 ≤ s.max_per_key
      → IsUsable strip show arguments_of laws valid_names now e
      → leb later (now + s.ttl) ≡ true
      → IsLedBy e (
          examples_at
            (prune_examples later
              (store_examples strip show arguments_of key (before ++ e ∷ []) now s))
            key)
  store_examples-pruned key before e valid_names now later s some_kept (offered, n, a, seen) fresh =
      let t = store_examples strip show arguments_of key (before ++ e ∷ []) now s in
      let (same_max, same_ttl) = store_examples-limits key (before ++ e ∷ []) now s in
      subst (IsLedBy e) (sym (examples_at-prune_examples later t key)) (
        fresh_examples-IsLedBy later t e _ (subst (λ m. 1 ≤ m) (sym same_max) some_kept)
          (ap (λ d. leb later (d + t.ttl)) seen ∙ ap (λ d. leb later (now + d)) same_ttl ∙ fresh)
          (store_examples-IsLedBy key before e now s some_kept))

  -- After tool calls are remembered under a key, of which e is the last usable one, a request that
  -- offers the same tools is given the name and arguments of e for the key, as long as e is not older
  -- than the store keeps examples.
  pub get_example-remember :
      (key : String) (keys valid_names : List String) (request_id : String) (now later : ℕ)
      (tool_calls : Values) (before : List Example) (e : Example) (s : ExampleStore)
      → 1 ≤ s.max_per_key
      → (key == "") ≡ false
      → new_examples strip show arguments_of valid_names request_id now tool_calls
        ≡ before ++ e ∷ []
      → leb later (now + s.ttl) ≡ true
      → (get_example strip show arguments_of
          (key ∷ keys)
          valid_names
          later
          (remember strip show arguments_of key (items tool_calls) valid_names request_id now s)).0
        ≡ some (e.tool_name, e.arguments)
  get_example-remember key keys valid_names request_id now later tool_calls before e s some_kept
        named last fresh =
      let usable = last-All (IsUsable strip show arguments_of laws valid_names now) before e (
        subst (All (IsUsable strip show arguments_of laws valid_names now)) last (
          new_examples-IsUsable strip show arguments_of laws valid_names request_id now
            tool_calls)) in
      ap (λ t. (get_example strip show arguments_of (key ∷ keys) valid_names later t).0)
        (remember-stored key tool_calls valid_names request_id now s named
          ∙ ap (λ new. store_examples strip show arguments_of key new now s) last)
      ∙ get_example-led key keys valid_names now later e _ named usable
          (store_examples-pruned key before e valid_names now later s some_kept usable fresh)
