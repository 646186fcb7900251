-- ===== src/Settings/Limits.antt =====
-- _cli_impl.py, the four normalisations of settings: a second pass changes nothing, and the state that
-- shares executions follows its limit.
use Prim.Native.String.{String}
use heimdall_gateway.Prelude.Int.{ℤ, pos}
use heimdall_gateway.Prelude.{
  ℕ, ◌≤◌, ◌≡◌, refl, sym, ap, ◌∙◌, Bool, true, false, Option, none, some, List, [], ◌∷◌, arith,
  nat_key, string_key, All,
}
use heimdall_gateway.Dict.{get}
use heimdall_gateway.Value.{
  Value, boolean, number, fields, Fields, Object, to_object, of_object, lookup, to_object-of_object,
}
use heimdall_gateway.Dedup.{DedupState, new_dedup}
use heimdall_gateway.Settings.{
  normalize_bool_flag, parsed_flag, read_flag, IntField, converted, clamp_int, clamp_ints,
  normalize_settings, default_settings, dedup_fields, spillover_fields, probe_fields, entry_limit,
  follow_limit, dict_of, settings_of, normalize_auto_update_config,
  normalize_affinity_spillover_config, probe_settings_of, normalize_model_probe_autoload_config,
  dedup_state_of, normalize_dedup_inflight_config,
}
use heimdall_gateway.Settings.Stable.{
  IsSound, InLimits, Fresh, normalize_settings_settled, normalize_settings-InLimits,
  default_settings_lem,
}

dedup-IsSound : All IsSound dedup_fields
dedup-IsSound = (
  (omega arith, omega arith),
  (
    (omega arith, omega arith),
    (
      (omega arith, omega arith),
      ((omega arith, omega arith), ((omega arith, omega arith), ((omega arith, omega arith), tt))),
    ),
  ),
)

dedup-Fresh : Fresh ("enabled" ∷ []) dedup_fields
dedup-Fresh = (refl, (refl, (refl, (refl, (refl, (refl, tt))))))

-- a second pass over what a normalisation gives changes nothing, and says so
abbrev pub IsNormal : (Value → Object × Bool) → Value → Type 0
IsNormal normalize raw =
    normalize (fields (of_object (normalize raw).0)) ≡ ((normalize raw).0, false)

module _ (int_of : Value → Option ℤ)
    (exact : (n : ℕ) → int_of (number (pos n)) ≡ some (pos n)) where
  settings_of_settled :
      (flag : String) (fallback : Bool) (fs : List IntField) (raw : Option Object)
      → All IsSound fs
      → Fresh (flag ∷ []) fs
      → settings_of int_of flag fallback fs
          (dict_of (fields (of_object (settings_of int_of flag fallback fs raw).0)))
        ≡ ((settings_of int_of flag fallback fs raw).0, false)
  unfolding settings_of dict_of
  settings_of_settled flag fallback fs none sound fresh =
      rw
        (
          to_object-of_object (default_settings flag fallback fs),
          default_settings_lem int_of flag fallback fs,
        )
        (normalize_settings_settled int_of flag fallback fs [] exact sound fresh)
  settings_of_settled flag fallback fs (some raw) sound fresh =
      rw (to_object-of_object (normalize_settings int_of flag fallback fs raw).0)
        (normalize_settings_settled int_of flag fallback fs raw exact sound fresh)

  probe_default :
      normalize_settings int_of "enabled" true probe_fields
        (to_object (of_object (("enabled", boolean true) ∷ ("grace_s", number (pos 30)) ∷ [])))
      ≡ (("enabled", boolean true) ∷ ("grace_s", number (pos 30)) ∷ [], false)
  unfolding normalize_settings read_flag parsed_flag normalize_bool_flag clamp_ints clamp_int
      converted to_object of_object get
  probe_default = rw (exact 30) refl

  probe_settled :
      (raw : Option Object)
      → probe_settings_of int_of (dict_of (fields (of_object (probe_settings_of int_of raw).0)))
        ≡ ((probe_settings_of int_of raw).0, false)
  unfolding probe_settings_of dict_of
  probe_settled none = probe_default
  probe_settled (some raw) =
      rw (to_object-of_object (normalize_settings int_of "enabled" true probe_fields raw).0) (
        normalize_settings_settled int_of "enabled" true probe_fields raw exact
          ((omega arith, omega arith), tt) (refl, tt))

-- For any configuration, a second pass of each of the four normalisations over the settings that the
-- first gave changes nothing and reports no change, given that Python's `int` is the identity on
-- integers.
pub normalize_settings-IsNormal :
    {R E : Type 0} (int_of : Value → Option ℤ) (raw : Value) (state : Option (DedupState R E))
    → ((n : ℕ) → int_of (number (pos n)) ≡ some (pos n))
    → IsNormal (λ v. (normalize_dedup_inflight_config int_of v state).0) raw
      × IsNormal (normalize_affinity_spillover_config int_of) raw
      × IsNormal (normalize_model_probe_autoload_config int_of) raw
      × IsNormal (normalize_auto_update_config int_of) raw
unfolding normalize_dedup_inflight_config normalize_affinity_spillover_config
    normalize_model_probe_autoload_config normalize_auto_update_config
normalize_settings-IsNormal int_of raw state exact = (
  settings_of_settled int_of exact "enabled" false dedup_fields (dict_of raw) dedup-IsSound
      dedup-Fresh,
  settings_of_settled int_of exact "enabled" false spillover_fields (dict_of raw)
      ((omega arith, omega arith), tt) (refl, tt),
  probe_settled int_of exact (dict_of raw),
  settings_of_settled int_of exact "deferred_enabled" true [] (dict_of raw) tt tt,
)

entry_limit_of : (o : Object) (n : ℕ) → lookup o "max_entries" ≡ number (pos n) → entry_limit o ≡ n
unfolding entry_limit
entry_limit_of o n e = rw (entry_limit, e) refl

limit-follow_limit :
    {R E : Type 0} (limit : ℕ) (state : Option (DedupState R E))
    → (follow_limit limit state).max_entries ≡ limit
unfolding follow_limit new_dedup
limit-follow_limit limit none = refl
limit-follow_limit limit (some s) = refl

-- From any dict the limits of the dedup settings hold, and the state that shares executions, a new one
-- or the one it had, has max_entries set to the number in the settings, between 1 and 100000.
pub normalize_dedup_inflight_config-InLimits :
    {R E : Type 0} (int_of : Value → Option ℤ) (raw : Fields) (state : Option (DedupState R E))
    → let out = normalize_dedup_inflight_config int_of (fields raw) state in
      All (λ f. InLimits f (lookup out.0.0 f.key)) dedup_fields
      × (lookup out.0.0 "max_entries" ≡ number (pos out.1.max_entries))
      × (1 ≤ out.1.max_entries)
      × (out.1.max_entries ≤ 100000)
unfolding normalize_dedup_inflight_config settings_of dict_of dedup_state_of
normalize_dedup_inflight_config-InLimits int_of raw state =
    let limits =
      normalize_settings-InLimits int_of "enabled" false dedup_fields (to_object raw) dedup-IsSound
        dedup-Fresh in
    let settings = (normalize_settings int_of "enabled" false dedup_fields (to_object raw)).0 in
    let (n, is_n, low, high) = limits.1.1.0 in
    let same : (follow_limit (entry_limit settings) state).max_entries ≡ n =
      limit-follow_limit (entry_limit settings) state ∙ entry_limit_of settings n is_n in
    (limits, is_n ∙ ap (λ k. number (pos k)) (sym same), rw same low, rw same high)
