-- ===== src/Settings.antt =====
-- _cli_impl.py, the normalisation of the `experimental` settings: `_normalize_bool_flag`,
-- `_normalize_dedup_inflight_config`, `_normalize_affinity_spillover_config`,
-- `_normalize_model_probe_autoload_config` and `_normalize_auto_update_config`. Each gives the settings,
-- and whether they differ from what the configuration holds. `int_of` is what Python's `int` makes of a
-- value, a text stripped first; `none` is an exception.
pub mod Stable
pub mod Limits
use Prim.Native.String.{String}
use heimdall_gateway.Prelude.Int.{ℤ, pos, negsuc}
use heimdall_gateway.Prelude.{
  ℕ, min, max, Bool, true, false, not, ◌&&◌, ◌||◌, Option, none, some, List, [], ◌∷◌, map, nat_eq,
  if◌then◌else◌, or_else, nat_key, string_key, any,
}
use heimdall_gateway.Dict.{get}
use heimdall_gateway.Value.{Value, boolean, number, text, fields, Object, to_object, truthy, lookup}
use heimdall_gateway.Prelude.Text.{codes, lower}
use heimdall_gateway.Dedup.{DedupState, new_dedup}
use heimdall_gateway.Runtime.Probe.{strip_right, strip_left}

unfoldable pub same_codes : List ℕ → List ℕ → Bool
same_codes [] [] = true
same_codes (c ∷ cs) (d ∷ ds) = nat_eq c d && same_codes cs ds
same_codes cs ds = false

-- `value.strip().lower()`, as code points
unfoldable pub stripped_lower : String → List ℕ
unfolding strip_left strip_right lower
stripped_lower s = lower (strip_left (strip_right (codes s)))

-- `word in {...}`
unfoldable pub is_word : List String → List ℕ → Bool
unfolding same_codes
is_word words word = any (λ w. same_codes word (codes w)) words

-- a text that stands for a flag
unfoldable pub flag_of_text : List ℕ → Option Bool
unfolding is_word
flag_of_text word =
    if is_word ("1" ∷ "true" ∷ "yes" ∷ "on" ∷ []) word
    then some true
    else if is_word ("0" ∷ "false" ∷ "no" ∷ "off" ∷ []) word
    then some false
    else none

unfoldable pub normalize_bool_flag : Value → Option Bool
unfolding stripped_lower flag_of_text
normalize_bool_flag (boolean b) = some b
normalize_bool_flag (number z) = some (truthy (number z))
normalize_bool_flag (text s) = flag_of_text (stripped_lower s)
normalize_bool_flag v = none

abbrev pub is_bool : Value → Bool
is_bool (boolean b) = true
is_bool v = false

-- `isinstance(raw_val, int)` of a value that is no flag
abbrev pub is_int : Value → Bool
is_int (number z) = true
is_int v = false

-- a setting, and whether it differs from what was read
abbrev pub Read : Type 0
Read = Value × Bool

unfoldable pub parsed_flag : Bool → Value → Option Bool → Read
parsed_flag fallback v none = (boolean fallback, true)
parsed_flag fallback v (some b) = (boolean b, not (is_bool v))

unfoldable pub read_flag : Object → String → Bool → Read
unfolding normalize_bool_flag parsed_flag
read_flag raw k fallback = elim (get raw k) [
  | none ↦ (boolean fallback, true)
  | some v ↦ parsed_flag fallback v (normalize_bool_flag v)
]

-- a number of the settings: its key, its default, and its limits
pub record IntField : Type 0 where
  pub key : String
  pub fallback : ℕ
  pub low : ℕ
  pub high : ℕ

-- max(min_v, min(max_v, iv))
abbrev pub clamped : IntField → ℤ → ℕ
clamped f (pos n) = max f.low (min f.high n)
clamped f (negsuc n) = f.low

-- `clamped != iv`
abbrev pub moved : IntField → ℤ → Bool
moved f (pos n) = not (nat_eq (clamped f (pos n)) n)
moved f (negsuc n) = true

unfoldable pub converted : IntField → Value → Option ℤ → Read
converted f v none = (number (pos f.fallback), true)
converted f v (some z) = (number (pos (clamped f z)), moved f z || not (is_int v))

module _ (int_of : Value → Option ℤ) where
  -- `_clamp_int` of each of the functions
  unfoldable pub clamp_int : Object → IntField → Read
  unfolding converted
  clamp_int raw f = elim (get raw f.key) [
    | none ↦ (number (pos f.fallback), true)
    | some v ↦ if is_bool v then (number (pos f.fallback), true) else converted f v (int_of v)
  ]

  -- the calls of `_clamp_int` in turn
  unfoldable pub clamp_ints : Object → List IntField → Object × Bool
  unfolding clamp_int
  clamp_ints raw [] = ([], false)
  clamp_ints raw (f ∷ fs) =
      let (v, changed) = clamp_int raw f in
      let (rest, later) = clamp_ints raw fs in ((f.key, v) ∷ rest, changed || later)

  -- The body that the functions share. Each key of the defaults is set by then, so that the loops over
  -- the defaults at the end of the functions find nothing to do.
  unfoldable pub normalize_settings : String → Bool → List IntField → Object → Object × Bool
  unfolding read_flag clamp_ints
  normalize_settings flag fallback fs raw =
      let (b, changed) = read_flag raw flag fallback in
      let (numbers, later) = clamp_ints raw fs in ((flag, b) ∷ numbers, changed || later)

-- the defaults of the same settings
unfoldable pub default_settings : String → Bool → List IntField → Object
default_settings flag fallback fs =
    (flag, boolean fallback) ∷ map (λ (f : IntField). (f.key, number (pos f.fallback))) fs

abbrev pub dedup_fields : List IntField
dedup_fields =
    record { key = "ttl_s"; fallback = 600; low = 0; high = 86400 }
    ∷ record { key = "max_wait_ms"; fallback = 2000; low = 0; high = 30000 }
    ∷ record { key = "max_entries"; fallback = 2000; low = 1; high = 100000 }
    ∷ record { key = "tee_buffer_lines"; fallback = 1024; low = 1; high = 100000 }
    ∷ record { key = "tee_buffer_bytes"; fallback = 2097152; low = 1024; high = 104857600 }
    ∷ record { key = "grace_s"; fallback = 30; low = 0; high = 86400 }
    ∷ []

abbrev pub spillover_fields : List IntField
spillover_fields = record { key = "idle_threshold_s"; fallback = 30; low = 5; high = 600 } ∷ []

abbrev pub probe_fields : List IntField
probe_fields = record { key = "grace_s"; fallback = 0; low = 0; high = 86400 } ∷ []

-- `max_entries` of settings, as `int(normalized.get("max_entries", 2000))`
unfoldable pub entry_limit : Object → ℕ
entry_limit o = elim (lookup o "max_entries") [ number (pos n) ↦ n | _ ↦ 2000 ]

-- what becomes of DEDUP_STATE: it is made when there is none, and its limit follows the settings
unfoldable pub follow_limit : {R E : Type 0} → ℕ → Option (DedupState R E) → DedupState R E
unfolding new_dedup
follow_limit limit none = new_dedup limit
follow_limit limit (some s) = record s { max_entries = limit }

-- the dict that a value is
unfoldable pub dict_of : Value → Option Object
dict_of (fields fs) = some (to_object fs)
dict_of v = none

module _ (int_of : Value → Option ℤ) where
  -- `if not isinstance(raw, dict): return dict(defaults), True`, and the body
  unfoldable pub settings_of : String → Bool → List IntField → Option Object → Object × Bool
  unfolding normalize_settings default_settings
  settings_of flag fallback fs none = (default_settings flag fallback fs, true)
  settings_of flag fallback fs (some raw) = normalize_settings int_of flag fallback fs raw

  unfoldable pub normalize_auto_update_config : Value → Object × Bool
  unfolding settings_of dict_of
  normalize_auto_update_config raw = settings_of "deferred_enabled" true [] (dict_of raw)

  unfoldable pub normalize_affinity_spillover_config : Value → Object × Bool
  unfolding settings_of dict_of
  normalize_affinity_spillover_config raw =
      settings_of "enabled" false spillover_fields (dict_of raw)

  -- the grace of `_default_model_probe_autoload_config` is 30, that of a dict without one is 0
  unfoldable pub probe_settings_of : Option Object → Object × Bool
  unfolding normalize_settings
  probe_settings_of none = (("enabled", boolean true) ∷ ("grace_s", number (pos 30)) ∷ [], true)
  probe_settings_of (some raw) = normalize_settings int_of "enabled" true probe_fields raw

  unfoldable pub normalize_model_probe_autoload_config : Value → Object × Bool
  unfolding probe_settings_of dict_of
  normalize_model_probe_autoload_config raw = probe_settings_of (dict_of raw)

  -- the state that shares executions, after the settings were read
  unfoldable pub dedup_state_of :
      {R E : Type 0} → Option Object → Option (DedupState R E) → DedupState R E
  unfolding settings_of entry_limit follow_limit new_dedup
  dedup_state_of none state = or_else state (new_dedup 2000)
  dedup_state_of (some raw) state =
      follow_limit (entry_limit (settings_of "enabled" false dedup_fields (some raw)).0) state

  unfoldable pub normalize_dedup_inflight_config :
      {R E : Type 0} → Value → Option (DedupState R E) → (Object × Bool) × DedupState R E
  unfolding settings_of dedup_state_of dict_of
  normalize_dedup_inflight_config raw state =
      (settings_of "enabled" false dedup_fields (dict_of raw), dedup_state_of (dict_of raw) state)
