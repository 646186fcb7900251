-- ===== src/Tests/Settings.antt =====
-- The normalisation of settings at concrete inputs.
use heimdall_gateway.Prelude.Int.{ℤ, pos}
use heimdall_gateway.Prelude.{
  ◌≤◌, String, ◌≡◌, refl, Bool, true, Option, none, some, nat_key, string_key, All,
}
use heimdall_gateway.Dict.{get}
use heimdall_gateway.Value.{
  Value, number, text, fields, Fields, no_fields, and_field, Object, to_object, lookup,
}
use heimdall_gateway.Messages.Empties.{is_space}
use heimdall_gateway.Dedup.{DedupState, new_dedup}
use heimdall_gateway.Prelude.Text.{lower_code, lower}
use heimdall_gateway.Runtime.Probe.{strip_right, strip_left}
use heimdall_gateway.Settings.{
  same_codes, stripped_lower, is_word, flag_of_text, normalize_bool_flag, parsed_flag, read_flag,
  converted, clamp_int, clamp_ints, normalize_settings, dedup_fields, entry_limit, follow_limit,
  dict_of, settings_of, normalize_auto_update_config, normalize_affinity_spillover_config,
  probe_settings_of, normalize_model_probe_autoload_config, dedup_state_of,
  normalize_dedup_inflight_config,
}
use heimdall_gateway.Settings.Stable.{InLimits}
use heimdall_gateway.Settings.Limits.{
  IsNormal, normalize_settings-IsNormal, normalize_dedup_inflight_config-InLimits,
}

abbrev int_like : Value → Option ℤ
int_like (number z) = some z
int_like v = none

-- a flag as a text, and a number beyond its limit
abbrev written_settings : Fields
written_settings =
    and_field "enabled" (text " Yes ") (and_field "max_entries" (number (pos 200000)) no_fields)

limit_runs :
    (normalize_dedup_inflight_config int_like {R = String} {E = String}
      (fields written_settings)
      none).1.max_entries
    ≡ 100000
unfolding normalize_dedup_inflight_config settings_of dict_of dedup_state_of to_object
    normalize_settings read_flag parsed_flag normalize_bool_flag clamp_ints clamp_int converted
    entry_limit follow_limit new_dedup get
limit_runs = refl

flag_runs : normalize_bool_flag (text " Yes ") ≡ some true
unfolding normalize_bool_flag flag_of_text is_word same_codes stripped_lower strip_left strip_right
    is_space lower lower_code
flag_runs = refl

-- a dict that says nothing of the grace turns the guard off, where no dict at all leaves it at 30 s
probe_grace_dropped :
    lookup (normalize_model_probe_autoload_config int_like (fields no_fields)).0 "grace_s"
    ≡ number (pos 0)
unfolding normalize_model_probe_autoload_config probe_settings_of dict_of to_object
    normalize_settings read_flag parsed_flag normalize_bool_flag clamp_ints clamp_int converted get
probe_grace_dropped = refl

normalize_settings-IsNormal_example :
    IsNormal
      (λ v. (normalize_dedup_inflight_config int_like {R = String} {E = String} v none).0)
      (fields written_settings)
    × IsNormal (normalize_affinity_spillover_config int_like) (fields written_settings)
    × IsNormal (normalize_model_probe_autoload_config int_like) (fields written_settings)
    × IsNormal (normalize_auto_update_config int_like) (fields written_settings)
normalize_settings-IsNormal_example =
    normalize_settings-IsNormal {R = String} {E = String} int_like (fields written_settings) none
      (λ n. refl)

abbrev normal_dedup : (Object × Bool) × DedupState String String
normal_dedup = normalize_dedup_inflight_config int_like (fields written_settings) none

normalize_dedup_inflight_config-InLimits_example :
    All (λ f. InLimits f (lookup normal_dedup.0.0 f.key)) dedup_fields
    × (lookup normal_dedup.0.0 "max_entries" ≡ number (pos normal_dedup.1.max_entries))
    × (1 ≤ normal_dedup.1.max_entries)
    × (normal_dedup.1.max_entries ≤ 100000)
normalize_dedup_inflight_config-InLimits_example =
    normalize_dedup_inflight_config-InLimits int_like written_settings none
