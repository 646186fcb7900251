-- ===== src/Intake/Slots.antt =====
-- _cli_impl.py, `_handle_ollama_chat`: the end of the way of a request, where it takes a slot of its
-- target.
use heimdall_gateway.Router.Steps.{admits, passes, done}
use mathlib.Core.Path.{subst}
use Prim.Native.String.{String}
use heimdall_gateway.Prelude.{
  ℕ, ◌≡◌, refl, sym, ap, ◌∙◌, ◌⊎◌, inl, inr, true, false, Option, none, some, arith, leb, nat_eq,
  if◌then◌else◌, Bool-cases, ◌==◌, nat_key, string_key,
}
use heimdall_gateway.Router.State.{ReplicaRouterState}
use heimdall_gateway.Router.Requests.{request_started, in_flight_of}
use heimdall_gateway.Router.Limit.{take_slot, limited_target, reject_if_concurrent_limit_exceeded}
use heimdall_gateway.Router.Steps.{
  Step, Event, began, passed, nothing, admission_event, event_of, Run,
}
use heimdall_gateway.Router.Steps.Runs.{Run-trans}
use heimdall_gateway.Intake.{Arrival, Outcome, overloaded, proceeds, start_unlimited, admit}

-- what the outcome means for the requests that run
abbrev pub outcome_event : Arrival → Outcome → Event
outcome_event a (proceeds upstream) =
    if nat_eq a.limit 0
    then (if upstream == "" then nothing else passed upstream)
    else began (limited_target a.model_name (some upstream))
outcome_event a outcome = nothing

limited_target-named :
    (model_name upstream : String)
    → (model_name == "") ≡ false
    → (limited_target model_name (some upstream) == "") ≡ false
limited_target-named model_name upstream named = ground arith

module _ (a : Arrival) where
  -- the last step of a request, which counts it, or none
  abbrev pub LastStep : ReplicaRouterState → ReplicaRouterState × Outcome → Type 0
  LastStep u m =
      ((m.0 ≡ u) × (outcome_event a m.1 ≡ nothing))
      ⊎ ((step : Step a.limit a.cfg u m.0) × (event_of a.limit a.cfg u m.0 step
            ≡ outcome_event a m.1))

  abbrev pub Counts : ReplicaRouterState → ReplicaRouterState × Outcome → Type 0
  Counts s m = (u : ReplicaRouterState) × Run a.limit a.cfg s u × LastStep u m

  pub Counts-after :
      (s t : ReplicaRouterState) (m : ReplicaRouterState × Outcome)
      → Run a.limit a.cfg s t
      → Counts t m
      → Counts s m
  Counts-after s t m before (u, run, last) = (u, Run-trans a.limit a.cfg s t u before run, last)

  pub stops :
      (s t : ReplicaRouterState) (outcome : Outcome)
      → Run a.limit a.cfg s t
      → outcome_event a outcome ≡ nothing
      → Counts s (t, outcome)
  stops s t outcome run quiet = (t, run, inl (refl, quiet))

  -- `admit` without a limit, with a target that is full, and with one that is not
  module _ (upstream : String) (s : ReplicaRouterState) where
    abbrev target : String
    target = limited_target a.model_name (some upstream)

    admit_unlimited :
        nat_eq a.limit 0 ≡ true
        → admit a upstream s ≡ (
          (if upstream == "" then s else request_started upstream a.times.admitted s),
          proceeds upstream,
        )
    unfolding admit start_unlimited reject_if_concurrent_limit_exceeded
    admit_unlimited free = ground (arith, free)

    admit_full :
        nat_eq a.limit 0 ≡ false
        → (target == "") ≡ false
        → leb a.limit (in_flight_of s target) ≡ true
        → admit a upstream s ≡ (s, overloaded (in_flight_of s target))
    unfolding admit reject_if_concurrent_limit_exceeded
    admit_full limited named full = ground (arith, limited, named, full)

    rejects_none :
        nat_eq a.limit 0 ≡ false
        → (target == "") ≡ false
        → leb a.limit (in_flight_of s target) ≡ false
        → reject_if_concurrent_limit_exceeded a.limit a.model_name
            (some upstream)
            a.times.admitted
            s
          ≡ (take_slot target a.times.admitted s, none)
    unfolding reject_if_concurrent_limit_exceeded
    rejects_none limited named room = ground (arith, limited, named, room)

    admit_room :
        nat_eq a.limit 0 ≡ false
        → (target == "") ≡ false
        → leb a.limit (in_flight_of s target) ≡ false
        → admit a upstream s ≡ (take_slot target a.times.admitted s, proceeds upstream)
    unfolding admit start_unlimited
    admit_room limited named room = ground (arith, limited, rejects_none limited named room)

    admission_event-room :
        nat_eq a.limit 0 ≡ false
        → (target == "") ≡ false
        → leb a.limit (in_flight_of s target) ≡ false
        → admission_event a.limit a.model_name (some upstream) s ≡ began target
    unfolding admission_event
    admission_event-room limited named room = ground (arith, limited, named, room)

    admits_room :
        nat_eq a.limit 0 ≡ false
        → (target == "") ≡ false
        → leb a.limit (in_flight_of s target) ≡ false
        → LastStep s (take_slot target a.times.admitted s, proceeds upstream)
    admits_room limited named room = inr (
        subst
          (λ t.
            (step : Step a.limit a.cfg s t) × (event_of a.limit a.cfg s t step
              ≡ outcome_event a (proceeds upstream)))
          (ap (λ (m : ReplicaRouterState × Option ℕ). m.0) (rejects_none limited named room))
          (
            admits a.model_name (some upstream) a.times.admitted,
            admission_event-room limited named room ∙ sym (rw limited refl),
          ))

    pub admit-Counts : (a.model_name == "") ≡ false → Counts s (admit a upstream s)
    admit-Counts known_model =
        let named = limited_target-named a.model_name upstream known_model in
        elim (Bool-cases (nat_eq a.limit 0)) [
          | inl free ↦ rw (admit_unlimited free) (elim (Bool-cases (upstream == "")) [
            | inl empty ↦ rw empty (s, done, inl (refl, rw free refl))
            | inr known ↦
                rw known (s, done, inr (passes upstream a.times.admitted, sym (rw free refl)))
          ])
          | inr limited ↦ elim (Bool-cases (leb a.limit (in_flight_of s target))) [
            | inl full ↦ rw (admit_full limited named full) (s, done, inl (refl, refl))
            | inr room ↦
                rw (admit_room limited named room) (s, done, admits_room limited named room)
          ]
        ]
