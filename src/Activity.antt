-- ===== src/Activity.antt =====
-- _cli_impl.py: what the gateway remembers of the use of each model (`mark_model_activity`), and the
-- two decisions that read it. Times are in milliseconds, durations of the configuration in seconds.
pub mod Guard
use Prim.Native.String.{String}
use heimdall_gateway.Prelude.{
  ℕ, ◌+◌, ◌-◌, ◌*◌, min, max, Bool, true, false, not, ◌&&◌, ◌||◌, Option, none, some, [], ◌∷◌, ltb,
  leb, if◌then◌else◌, ◌==◌, nat_key, string_key,
}
use heimdall_gateway.Dict.{Dict, get, put}

-- an entry of MODEL_ACTIVITY: `last_activity_monotonic` and `last_phase`
pub record Activity : Type 0 where
  pub at : ℕ
  pub phase : String

pub record ActivityLog : Type 0 where
  pub activity : Dict String Activity
  pub last_activity_model_id : String

unfoldable pub mark_model_activity : String → String → ℕ → ActivityLog → ActivityLog
mark_model_activity model_id phase now l = if model_id == "" then l else record {
  activity = put l.activity model_id (record { at = now; phase = phase });
  last_activity_model_id = model_id;
}

-- a tuple (model_id, age, phase)
pub record Blocker : Type 0 where
  pub model_id : String
  pub age : ℕ
  pub phase : String

-- the entries that pass the tests of the loop
unfoldable pub blocks_switch : String → ℕ → ℕ → String → Activity → Bool
blocks_switch target now grace_s model_id a =
    not (model_id == "" || model_id == target)
    && not (ltb now a.at)
    && leb now (a.at + grace_s * 1000)

-- `if best is None or age < best[1]: best = (model_id, age, phase)`
unfoldable pub closer : Option Blocker → Blocker → Option Blocker
closer none b = some b
closer (some best) b = if ltb b.age best.age then some b else some best

unfoldable pub scan_activity :
    String → ℕ → ℕ → Dict String Activity → Option Blocker → Option Blocker
unfolding blocks_switch closer
scan_activity target now grace_s [] best = best
scan_activity target now grace_s ((model_id, a) ∷ activity) best =
    scan_activity target now grace_s activity (
      if blocks_switch target now grace_s model_id a
      then closer best (record { model_id = model_id; age = now - a.at; phase = a.phase })
      else best)

unfoldable pub recent_activity_blocking_model_switch :
    String → Dict String Activity → ℕ → ℕ → Option Blocker
unfolding scan_activity
recent_activity_blocking_model_switch target activity now grace_s =
    scan_activity target now grace_s activity none

-- min(30.0, max(5.0, idle_ttl * 0.1))
abbrev pub ttl_tail_grace : ℕ → ℕ
ttl_tail_grace idle_ttl = min 30000 (max 5000 (idle_ttl * 100))

-- the decision on a recorded activity, with its age
unfoldable pub reload_after : String → String → ℕ → ℕ → Activity → Bool × Option ℕ
reload_after model_id last_activity_model_id now idle_ttl a =
    if ltb now a.at
    then (false, none)
    else if leb (idle_ttl * 1000) (now - a.at)
    then (false, some (now - a.at))
    else if leb (idle_ttl * 1000 - ttl_tail_grace idle_ttl) (now - a.at)
    then (false, some (now - a.at))
    else if not (last_activity_model_id == "") && not (last_activity_model_id == model_id)
    then (false, some (now - a.at))
    else (true, some (now - a.at))

unfoldable pub should_reload_after_unexpected_unload :
    String → Dict String Activity → String → ℕ → ℕ → Bool × Option ℕ
unfolding reload_after
should_reload_after_unexpected_unload model_id activity last_activity_model_id now idle_ttl =
    elim (get activity model_id) [
      | none ↦ (false, none)
      | some a ↦ reload_after model_id last_activity_model_id now idle_ttl a
    ]
