-- ===== src/Router/Steps/Runs.antt =====
-- _cli_impl.py, `ReplicaRouterState`: several sections in a row, as an operation makes them that takes the
-- lock more than once.
use heimdall_gateway.Router.Steps.{later, done, after}
use Prim.Native.String.{String}
use heimdall_gateway.Prelude.{ℕ, ◌≡◌, refl, ap, ◌∙◌, List, ◌∷◌, nat_key, string_key}
use heimdall_gateway.Policy.Config.{AffinityConfig}
use heimdall_gateway.Router.State.{ReplicaRouterState}
use heimdall_gateway.Router.Steps.{Step, Event, nothing, event_of, Reach, Run}
use heimdall_gateway.Router.Steps.Counts.{counted_after, running, unlimited_after, unlimited}

module _ (limit : ℕ) (cfg : AffinityConfig) where
  pub quiet-Run :
      (s t : ReplicaRouterState) (step : Step limit cfg s t)
      → event_of limit cfg s t step ≡ nothing
      → Run limit cfg s t
  quiet-Run s t step quiet = after s t done step quiet

  pub Run-trans :
      (s t u : ReplicaRouterState) → Run limit cfg s t → Run limit cfg t u → Run limit cfg s u
  Run-trans s t _ before done = before
  Run-trans s t _ before (after v u run step quiet) =
      after v u (Run-trans s t v before run) step quiet

  -- A run goes from a reachable state to a reachable state, of a history in which the same requests
  -- of every target run, and the same began without asking for the limit.
  pub Reach-Run :
      (history : List Event) (s t : ReplicaRouterState)
      → Reach limit cfg history s
      → Run limit cfg s t
      → (longer : List Event) × Reach limit cfg longer t
        × ((j : String)
            → (running longer j ≡ running history j) × (unlimited longer j ≡ unlimited history j))
  Reach-Run history s _ reached done = (history, reached, λ j. (refl, refl))
  Reach-Run history s _ reached (after t u run step quiet) =
      let (longer, still, same) = Reach-Run history s t reached run in
      let event = event_of limit cfg t u step in
      (
        event ∷ longer,
        later longer t u still step,
        λ j.
            let (runs, beyond) = same j in
            (
              ap (λ e. counted_after e j (running longer j)) quiet ∙ runs,
              ap (λ e. unlimited_after e j (unlimited longer j)) quiet ∙ beyond,
            ),
      )
