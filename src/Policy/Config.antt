-- ===== src/Policy/Config.antt =====
-- cli/replica_policy.py: `AffinityConfig`, its defaults, and `normalize_affinity_config`.
-- `float()` and `int()` of Python, on whatever a JSON value may be, are arguments: `none` stands
-- for the TypeError or ValueError that they raise. Times are in milliseconds.
use heimdall_gateway.Prelude.{
  ℕ, ◌≤◌, String, ◌≡◌, refl, ◌⊎◌, inl, Bool, false, ◌||◌, Option, none, some, arith, eq_iff,
  if◌then◌else◌, ◌==◌, nat_key, string_key,
}
use heimdall_gateway.Prelude.Int.{ℤ, clamp_below}
use heimdall_gateway.Dict.{Dict, get}

pub record AffinityConfig : Type 0 where
  pub min_dwell : ℕ
  pub max_transfers : ℕ
  pub max_hard_transfers : ℕ
  pub evacuate_cooldown : ℕ
  pub saturated_target : String
  pub queue_max_wait_ms : ℕ
  pub queue_max_depth : ℕ
  pub allow_suspected_transfers : Bool
  pub probe_interval : ℕ
  pub probe_timeout : ℕ

unfoldable pub affinity_policy_defaults : AffinityConfig
affinity_policy_defaults = record {
  min_dwell = 120000;
  max_transfers = 2;
  max_hard_transfers = 5;
  evacuate_cooldown = 300000;
  saturated_target = "retry";
  queue_max_wait_ms = 0;
  queue_max_depth = 0;
  allow_suspected_transfers = false;
  probe_interval = 10000;
  probe_timeout = 1500;
}

-- `max(minimum, value)`, or the default where the conversion raises
unfoldable pub bounded : ℕ → ℕ → Option ℤ → ℕ
bounded minimum default none = default
bounded minimum default (some z) = clamp_below minimum z

-- What Python computes of the raw values: the two conversions, `bool(v)`, and
-- `str(v or "").strip().lower()`.
pub record Conversions (Raw : Type 0) : Type 0 where
  pub to_float : Raw → Option ℤ
  pub to_int : Raw → Option ℤ
  pub to_bool : Raw → Bool
  pub to_mode : Raw → String

-- mode if mode in {"retry", "queue"} else "retry"
unfoldable pub known_mode_or_retry : String → String
known_mode_or_retry mode = if mode == "retry" || mode == "queue" then mode else "retry"

known_mode_or_retry-mem :
    (m : String) → (known_mode_or_retry m ≡ "retry") ⊎ (known_mode_or_retry m ≡ "queue")
unfolding known_mode_or_retry
known_mode_or_retry-mem m = ground (arith, eq_iff m "retry", eq_iff m "queue")

module _ {Raw : Type 0} (py : Conversions Raw) where
  -- raw.get(key, default), converted; a missing key converts the default, which is in range
  unfoldable pub num : Dict String Raw → String → ℕ → ℕ → ℕ
  unfolding bounded get
  num raw key default minimum = elim (get raw key) [
    | none ↦ Prim.Native.Nat.max minimum default
    | some v ↦ bounded minimum default (py.to_float v)
  ]

  unfoldable pub int_ : Dict String Raw → String → ℕ → ℕ → ℕ
  unfolding bounded get
  int_ raw key default minimum = elim (get raw key) [
    | none ↦ Prim.Native.Nat.max minimum default
    | some v ↦ bounded minimum default (py.to_int v)
  ]

  unfoldable pub mode_of : Dict String Raw → String → String
  unfolding get
  mode_of raw default =
      known_mode_or_retry
        (elim (get raw "saturated_target") [ none ↦ default | some v ↦ py.to_mode v ])

  unfoldable pub flag_of : Dict String Raw → Bool → Bool
  unfolding get
  flag_of raw default = elim (get raw "allow_suspected_transfers") [
    | none ↦ default
    | some v ↦ py.to_bool v
  ]

  -- `none` is a config blob that is no dict
  unfoldable pub normalize_affinity_config : Option (Dict String Raw) → AffinityConfig
  unfolding affinity_policy_defaults num int_ mode_of flag_of
  normalize_affinity_config none = affinity_policy_defaults
  normalize_affinity_config (some raw) =
      let cfg = affinity_policy_defaults in
      record {
        min_dwell = num raw "min_dwell_s" cfg.min_dwell 0;
        max_transfers = int_ raw "max_transfers" cfg.max_transfers 0;
        max_hard_transfers = int_ raw "max_hard_transfers" cfg.max_hard_transfers 1;
        evacuate_cooldown = num raw "evacuate_cooldown_s" cfg.evacuate_cooldown 0;
        saturated_target = mode_of raw cfg.saturated_target;
        queue_max_wait_ms = int_ raw "queue_max_wait_ms" cfg.queue_max_wait_ms 0;
        queue_max_depth = int_ raw "queue_max_depth" cfg.queue_max_depth 0;
        allow_suspected_transfers = flag_of raw cfg.allow_suspected_transfers;
        probe_interval = num raw "probe_interval_s" cfg.probe_interval 100;
        probe_timeout = num raw "probe_timeout_s" cfg.probe_timeout 50;
      }

  num-le : (raw : Dict String Raw) (k : String) (d m : ℕ) → m ≤ d → m ≤ num raw k d m
  unfolding num
  num-le raw k d m h = ground arith

  int_-le : (raw : Dict String Raw) (k : String) (d m : ℕ) → m ≤ d → m ≤ int_ raw k d m
  unfolding int_
  int_-le raw k d m h = ground arith

  mode_of-mem :
      (raw : Dict String Raw) (d : String) → (mode_of raw d ≡ "retry") ⊎ (mode_of raw d ≡ "queue")
  unfolding mode_of
  mode_of-mem raw d = known_mode_or_retry-mem _

-- What the rest of the program relies on in a configuration.
pub record IsUsable (cfg : AffinityConfig) : Type 0 where
  pub escapable : 1 ≤ cfg.max_hard_transfers
  pub spaced_probes : 100 ≤ cfg.probe_interval
  pub patient_probes : 50 ≤ cfg.probe_timeout
  pub known_mode : (cfg.saturated_target ≡ "retry") ⊎ (cfg.saturated_target ≡ "queue")

-- Whatever the config blob holds, and whatever Python makes of its values, the normalised policy
-- is usable: one proven-death transfer at least, probes at least 0.1 s apart with at least 0.05 s
-- to answer, and a saturation mode that is "retry" or "queue".
pub normalize_affinity_config-IsUsable :
    {Raw : Type 0} (py : Conversions Raw) (raw : Option (Dict String Raw))
    → IsUsable (normalize_affinity_config py raw)
unfolding normalize_affinity_config
normalize_affinity_config-IsUsable py none = record {
  escapable = omega arith;
  spaced_probes = omega arith;
  patient_probes = omega arith;
  known_mode = inl refl;
}
normalize_affinity_config-IsUsable py (some raw) = record {
  escapable = int_-le py raw "max_hard_transfers" 5 1 (omega arith);
  spaced_probes = num-le py raw "probe_interval_s" 10000 100 (omega arith);
  patient_probes = num-le py raw "probe_timeout_s" 1500 50 (omega arith);
  known_mode = mode_of-mem py raw "retry";
}
