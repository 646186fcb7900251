-- ===== src/Settings/Stable.antt =====
-- _cli_impl.py, the normalisation of settings: normalised settings are normal, and lie within limits.
use Prim.Native.String.{String}
use heimdall_gateway.Prelude.Int.{ℤ, pos, negsuc}
use mathlib.Core.List.{append_assoc, map-append}
use heimdall_gateway.Prelude.{
  ℕ, ◌≤◌, min, max, ◌≡◌, refl, sym, ap, ◌∙◌, inl, inr, Bool, false, Option, none, some, List, [],
  ◌∷◌, ◌++◌, map, arith, Option-cases, or_else, if_elim, nat_key, string_key, ==_refl, All,
  contains,
}
use heimdall_gateway.Dict.{get}
use heimdall_gateway.Value.{Value, null, boolean, number, Object, lookup}
use heimdall_gateway.Settings.{
  normalize_bool_flag, is_bool, Read, parsed_flag, read_flag, IntField, clamped, converted,
  clamp_int, clamp_ints, normalize_settings, default_settings,
}

-- a field whose default lies within its limits
abbrev pub IsSound : IntField → Type 0
IsSound f = (f.low ≤ f.fallback) × (f.fallback ≤ f.high)

-- a value that lies within the limits of its field
abbrev pub InLimits : IntField → Value → Type 0
InLimits f v = (n : ℕ) × (v ≡ number (pos n)) × (f.low ≤ n) × (n ≤ f.high)

fallback-InLimits : (f : IntField) → IsSound f → InLimits f (number (pos f.fallback))
fallback-InLimits f sound = (f.fallback, refl, sound.0, sound.1)

clamped-InLimits : (f : IntField) (z : ℤ) → IsSound f → InLimits f (number (pos (clamped f z)))
clamped-InLimits f (pos n) sound =
    (_, refl, omega (arith, sound.0, sound.1), omega (arith, sound.0, sound.1))
clamped-InLimits f (negsuc n) sound = (_, refl, omega arith, omega (arith, sound.0, sound.1))

converted-InLimits :
    (f : IntField) (v : Value) (o : Option ℤ) → IsSound f → InLimits f (converted f v o).0
unfolding converted
converted-InLimits f v none sound = fallback-InLimits f sound
converted-InLimits f v (some z) sound = clamped-InLimits f z sound

-- the keys are not among those before them
abbrev pub Fresh : List String → List IntField → Type 0
Fresh keys [] = Unit
Fresh keys (f ∷ fs) = (contains keys f.key ≡ false) × Fresh (keys ++ f.key ∷ []) fs

abbrev keys_of : Object → List String
keys_of o = map (λ entry. entry.0) o

get-append :
    (before rest : Object) (k : String)
    → contains (keys_of before) k ≡ false
    → get (before ++ rest) k ≡ get rest k
unfolding get
get-append [] rest k fresh = refl
get-append ((j, v) ∷ before) rest k fresh = ground (arith, get-append before rest k)

get_first : (k : String) (v : Value) (rest : Object) → get ((k, v) ∷ rest) k ≡ some v
unfolding get
get_first k v rest = rw (==_refl k) refl

parsed_is_bool :
    (fallback : Bool) (v : Value) (o : Option Bool)
    → (b : Bool) × ((parsed_flag fallback v o).0 ≡ boolean b)
unfolding parsed_flag
parsed_is_bool fallback v none = (fallback, refl)
parsed_is_bool fallback v (some b) = (b, refl)

flag_is_bool :
    (raw : Object) (flag : String) (fallback : Bool)
    → (b : Bool) × ((read_flag raw flag fallback).0 ≡ boolean b)
unfolding read_flag
flag_is_bool raw flag fallback = elim (Option-cases (get raw flag)) [
  | inl e ↦ (fallback, rw (read_flag, e) refl)
  | inr (v, e) ↦
      let (b, is_b) = parsed_is_bool fallback v (normalize_bool_flag v) in
      (b, rw (read_flag, e) is_b)
]

flag_read :
    (flag : String) (b fallback : Bool) (rest : Object)
    → read_flag ((flag, boolean b) ∷ rest) flag fallback ≡ (boolean b, false)
unfolding read_flag parsed_flag normalize_bool_flag
flag_read flag b fallback rest = rw (read_flag, get_first flag (boolean b) rest) refl

module _ (int_of : Value → Option ℤ) where
  clamp_int-InLimits :
      (raw : Object) (f : IntField) → IsSound f → InLimits f (clamp_int int_of raw f).0
  unfolding clamp_int
  clamp_int-InLimits raw f sound = elim (Option-cases (get raw f.key)) [
    | inl e ↦ rw (clamp_int, e) (fallback-InLimits f sound)
    | inr (v, e) ↦
        rw (clamp_int, e)
          (if_elim (λ (r : Read). InLimits f r.0) (is_bool v) _ _ (fallback-InLimits f sound)
            (converted-InLimits f v (int_of v) sound))
  ]

  -- a number within the limits is read as it is, given that `int` is the identity on numbers
  clamp_int_settled :
      (o : Object) (f : IntField) (n : ℕ)
      → int_of (number (pos n)) ≡ some (pos n)
      → get o f.key ≡ some (number (pos n))
      → f.low ≤ n
      → n ≤ f.high
      → clamp_int int_of o f ≡ (number (pos n), false)
  unfolding clamp_int converted
  clamp_int_settled o f n exact found low high =
      rw (clamp_int, found, exact)
        let same : max f.low (min f.high n) ≡ n = omega arith in rw (same, ==_refl n) refl

  -- what a pass over the fields gives is read back as it is
  clamp_ints_settled :
      (raw before : Object) (fs : List IntField)
      → ((n : ℕ) → int_of (number (pos n)) ≡ some (pos n))
      → All IsSound fs
      → Fresh (keys_of before) fs
      → clamp_ints int_of (before ++ (clamp_ints int_of raw fs).0) fs
        ≡ ((clamp_ints int_of raw fs).0, false)
  unfolding clamp_ints
  clamp_ints_settled raw before [] exact sound fresh = refl
  clamp_ints_settled raw before (f ∷ fs) exact (sound, sounds) (fresh, freshes) =
      let v = (clamp_int int_of raw f).0 in
      let rest = (clamp_ints int_of raw fs).0 in
      let (n, is_n, low, high) = clamp_int-InLimits raw f sound in
      let found : get (before ++ (f.key, v) ∷ rest) f.key ≡ some (number (pos n)) =
        get-append before ((f.key, v) ∷ rest) f.key fresh
        ∙ (get_first f.key v rest ∙ ap some is_n) in
      let keys : keys_of (before ++ (f.key, v) ∷ []) ≡ keys_of before ++ f.key ∷ [] =
        map-append (λ entry. entry.0) before ((f.key, v) ∷ []) in
      let later =
        clamp_ints_settled raw (before ++ (f.key, v) ∷ []) fs exact sounds (rw keys freshes) in
      rw
        (
          clamp_int_settled _ f n (exact n) found low high,
          rw (append_assoc before ((f.key, v) ∷ []) rest) at later,
        )
        (ap (λ w. ((f.key, w) ∷ rest, false)) (sym is_n))

  -- each number of the settings lies within its limits
  clamp_ints-InLimits :
      (raw before : Object) (fs : List IntField)
      → All IsSound fs
      → Fresh (keys_of before) fs
      → All (λ f. InLimits f (lookup (before ++ (clamp_ints int_of raw fs).0) f.key)) fs
  unfolding clamp_ints
  clamp_ints-InLimits raw before [] sound fresh = tt
  clamp_ints-InLimits raw before (f ∷ fs) (sound, sounds) (fresh, freshes) =
      let v = (clamp_int int_of raw f).0 in
      let rest = (clamp_ints int_of raw fs).0 in
      let (n, is_n, low, high) = clamp_int-InLimits raw f sound in
      let found : lookup (before ++ (f.key, v) ∷ rest) f.key ≡ v =
        ap (λ o. or_else o null)
          (get-append before ((f.key, v) ∷ rest) f.key fresh ∙ get_first f.key v rest) in
      let keys : keys_of (before ++ (f.key, v) ∷ []) ≡ keys_of before ++ f.key ∷ [] =
        map-append (λ entry. entry.0) before ((f.key, v) ∷ []) in
      (
        (n, found ∙ is_n, low, high),
        rw (append_assoc before ((f.key, v) ∷ []) rest) at
            (clamp_ints-InLimits raw (before ++ (f.key, v) ∷ []) fs sounds (rw keys freshes)),
      )

  flag_settled :
      (raw rest : Object) (flag : String) (fallback : Bool)
      → read_flag ((flag, (read_flag raw flag fallback).0) ∷ rest) flag fallback
        ≡ ((read_flag raw flag fallback).0, false)
  flag_settled raw rest flag fallback =
      let (b, is_b) = flag_is_bool raw flag fallback in rw is_b (flag_read flag b fallback rest)

  pub normalize_settings_settled :
      (flag : String) (fallback : Bool) (fs : List IntField) (raw : Object)
      → ((n : ℕ) → int_of (number (pos n)) ≡ some (pos n))
      → All IsSound fs
      → Fresh (flag ∷ []) fs
      → normalize_settings int_of flag fallback fs
          (normalize_settings int_of flag fallback fs raw).0
        ≡ ((normalize_settings int_of flag fallback fs raw).0, false)
  unfolding normalize_settings
  normalize_settings_settled flag fallback fs raw exact sound fresh =
      let b = (read_flag raw flag fallback).0 in
      rw
        (
          flag_settled raw (clamp_ints int_of raw fs).0 flag fallback,
          clamp_ints_settled raw ((flag, b) ∷ []) fs exact sound fresh,
        )
        refl

  pub normalize_settings-InLimits :
      (flag : String) (fallback : Bool) (fs : List IntField) (raw : Object)
      → All IsSound fs
      → Fresh (flag ∷ []) fs
      → All (λ f. InLimits f (lookup (normalize_settings int_of flag fallback fs raw).0 f.key)) fs
  unfolding normalize_settings
  normalize_settings-InLimits flag fallback fs raw sound fresh =
      clamp_ints-InLimits raw ((flag, (read_flag raw flag fallback).0) ∷ []) fs sound fresh

  clamp_ints_empty :
      (fs : List IntField)
      → (clamp_ints int_of [] fs).0 ≡ map (λ (f : IntField). (f.key, number (pos f.fallback))) fs
  unfolding clamp_ints clamp_int get
  clamp_ints_empty [] = refl
  clamp_ints_empty (f ∷ fs) =
      ap (λ rest. (f.key, number (pos f.fallback)) ∷ rest) (clamp_ints_empty fs)

  -- the defaults are what an empty dict is normalised to
  pub default_settings_lem :
      (flag : String) (fallback : Bool) (fs : List IntField)
      → default_settings flag fallback fs ≡ (normalize_settings int_of flag fallback fs []).0
  unfolding default_settings normalize_settings read_flag get
  default_settings_lem flag fallback fs =
      ap (λ rest. (flag, boolean fallback) ∷ rest) (sym (clamp_ints_empty fs))
