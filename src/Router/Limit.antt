-- ===== src/Router/Limit.antt =====
-- _cli_impl.py: `_reject_if_concurrent_limit_exceeded`, the limit on the requests that a target serves
-- at once. A limit that is not positive is 0. `show` writes a number.
use Prim.Native.String.{String, ◌++◌ as ◌+++◌}
use heimdall_gateway.Prelude.{
  ℕ, ◌+◌, ◌≡◌, inl, inr, Bool, ◌||◌, Option, none, some, [], ◌∷◌, arith, eq_iff, leb, nat_eq,
  if◌then◌else◌, Option-cases, ◌==◌, nat_key, string_key,
}
use heimdall_gateway.Dict.{get, put, get-put}
use heimdall_gateway.Value.{text, fields, Object, of_object}
use heimdall_gateway.Router.State.{ReplicaRouterState}
use heimdall_gateway.Router.Requests.{base_load, in_flight_of}

-- the slot that a request takes
unfoldable pub take_slot : String → ℕ → ReplicaRouterState → ReplicaRouterState
unfolding base_load
take_slot target now s = elim (get s.records target) [
  | some rec ↦ record s {
    records = put s.records target (record rec { in_flight = rec.in_flight + 1; last_used = now });
  }
  | none ↦ record s {
    base_in_flight = put s.base_in_flight target (base_load s target + 1);
    base_last_used = put s.base_last_used target now;
  }
]

-- `upstream_model_name or model_name`
abbrev pub limited_target : String → Option String → String
limited_target model_name none = model_name
limited_target model_name (some upstream) = if upstream == "" then model_name else upstream

-- the new state, and how many requests there are when one more is too many
unfoldable pub reject_if_concurrent_limit_exceeded :
    ℕ → String → Option String → ℕ → ReplicaRouterState → ReplicaRouterState × Option ℕ
unfolding take_slot in_flight_of
reject_if_concurrent_limit_exceeded limit model_name upstream now s =
    let target = limited_target model_name upstream in
    if nat_eq limit 0 || target == ""
    then (s, none)
    else if leb limit (in_flight_of s target)
    then (s, some (in_flight_of s target))
    else (take_slot target now s, none)

-- the body that is sent with status 429
module _ (show : ℕ → String) where
  abbrev pub overload_text : String → ℕ → ℕ → String
  overload_text target overloaded_total limit =
      "Model '"
      +++ (target
          +++ ("' is overloaded: "
              +++ (show overloaded_total
                  +++ (" concurrent requests (limit "
                      +++ (show limit
                          +++ "). Server is busy processing other requests for the same model. Please retry shortly.")))))

  unfoldable pub overload_body : Bool → String → ℕ → ℕ → Object
  unfolding of_object
  overload_body is_openai target overloaded_total limit =
      let message = text (overload_text target overloaded_total limit) in
      let code = text "model_overloaded" in
      if is_openai
      then (
        "error",
        fields (
            of_object (("message", message) ∷ ("type", text "server_error") ∷ ("code", code) ∷ [])),
      )
        ∷ []
      else ("error", message) ∷ ("code", code) ∷ []

pub in_flight_of-take_slot :
    (target j : String) (now : ℕ) (s : ReplicaRouterState)
    → in_flight_of (take_slot target now s) j
      ≡ (if target == j then in_flight_of s j + 1 else in_flight_of s j)
unfolding take_slot in_flight_of
in_flight_of-take_slot target j now s = elim (Option-cases (get s.records target)) [
  | inl e ↦
      rw (e, take_slot)
        (ground (
          arith,
          get-put s.base_in_flight target j (base_load s target + 1),
          eq_iff target j,
          Option-cases (get s.records j),
        ))
  | inr (rec, e) ↦
      rw (e, take_slot)
        (ground (
          arith,
          get-put s.records target j
              (record rec { in_flight = rec.in_flight + 1; last_used = now }),
          eq_iff target j,
        ))
]
