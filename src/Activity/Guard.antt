-- ===== src/Activity/Guard.antt =====
-- _cli_impl.py: which switches of models recent activity blocks, and when an unloaded model returns.
use Prim.Native.String.{String}
use heimdall_gateway.Prelude.{
  ℕ, ◌+◌, ◌-◌, ◌*◌, ◌≤◌, ◌≡◌, refl, inl, inr, Bool, true, false, ◌&&◌, ◌||◌, Option, none, some, [],
  ◌∷◌, arith, ltb, leb, Bool-cases, Option-cases, is_some, if_elim, ◌==◌, nat_key, string_key, any,
  filter, All,
}
use heimdall_gateway.Dict.{Dict, get}
use heimdall_gateway.Activity.{
  Activity, Blocker, blocks_switch, closer, scan_activity, recent_activity_blocking_model_switch,
  ttl_tail_grace, reload_after, should_reload_after_unexpected_unload,
}

-- no age beats the blocker's
abbrev pub IsClosest : Option Blocker → ℕ → Type 0
IsClosest none age = ⊥
IsClosest (some b) age = b.age ≤ age

module _ (target : String) (now grace_s : ℕ) where
  abbrev pub blocks_entry : String × Activity → Bool
  blocks_entry entry = blocks_switch target now grace_s entry.0 entry.1

  closer-some : (best : Option Blocker) (b : Blocker) → is_some (closer best b) ≡ true
  unfolding closer
  closer-some none b = refl
  closer-some (some best) b = ground arith

  scan_activity_iff :
      (activity : Dict String Activity) (best : Option Blocker)
      → is_some (scan_activity target now grace_s activity best)
        ≡ (is_some best || any blocks_entry activity)
  unfolding scan_activity
  scan_activity_iff [] best = ground arith
  scan_activity_iff ((id, a) ∷ activity) best =
      let b : Blocker = record { model_id = id; age = now - a.at; phase = a.phase } in
      ground (
        arith,
        scan_activity_iff activity best,
        scan_activity_iff activity (closer best b),
        closer-some best b,
      )

  closer-IsClosest :
      (best : Option Blocker) (b : Blocker) (age : ℕ)
      → IsClosest best age
      → IsClosest (closer best b) age
  unfolding closer
  closer-IsClosest none b age holds = elim holds [ ]
  closer-IsClosest (some best) b age holds = elim (Bool-cases (ltb b.age best.age)) [
    | inl under ↦ rw under (ground (arith, under))
    | inr over ↦ rw over holds
  ]

  closer_new : (best : Option Blocker) (b : Blocker) → IsClosest (closer best b) b.age
  unfolding closer
  closer_new none b = omega arith
  closer_new (some best) b = elim (Bool-cases (ltb b.age best.age)) [
    | inl under ↦ rw under (omega arith)
    | inr over ↦ rw over (ground (arith, over))
  ]

  IsClosest-kept :
      (activity : Dict String Activity) (best : Option Blocker) (age : ℕ)
      → IsClosest best age
      → IsClosest (scan_activity target now grace_s activity best) age
  unfolding scan_activity
  IsClosest-kept [] best age holds = holds
  IsClosest-kept ((id, a) ∷ activity) best age holds = IsClosest-kept activity _ age (
      if_elim (λ b. IsClosest b age) (blocks_switch target now grace_s id a) _ _
        (closer-IsClosest best _ age holds) holds)

  IsClosest-filter :
      (activity : Dict String Activity) (best : Option Blocker)
      → All
          (λ entry. IsClosest (scan_activity target now grace_s activity best) (now - entry.1.at))
          (filter blocks_entry activity)
  unfolding scan_activity
  IsClosest-filter [] best = tt
  IsClosest-filter ((id, a) ∷ activity) best =
      elim (Bool-cases (blocks_switch target now grace_s id a)) [
        | inl e ↦ rw e (
          IsClosest-kept activity
              (closer best (record { model_id = id; age = now - a.at; phase = a.phase }))
              (now - a.at) (closer_new best _),
          IsClosest-filter activity _,
        )
        | inr e ↦ rw e (IsClosest-filter activity best)
      ]

-- A switch to a model is blocked exactly if some other named model was used at most the grace
-- period ago, and no such use is more recent than the one that is reported.
pub recent_activity_blocking_model_switch_iff :
    (target : String) (activity : Dict String Activity) (now grace_s : ℕ)
    → (is_some (recent_activity_blocking_model_switch target activity now grace_s)
        ≡ any (blocks_entry target now grace_s) activity)
      × All
          (λ entry.
            IsClosest
              (recent_activity_blocking_model_switch target activity now grace_s)
              (now - entry.1.at))
          (filter (blocks_entry target now grace_s) activity)
unfolding recent_activity_blocking_model_switch
recent_activity_blocking_model_switch_iff target activity now grace_s = (
  scan_activity_iff target now grace_s activity none,
  IsClosest-filter target now grace_s activity none,
)

-- A model that was unloaded is loaded again exactly if it was used, is the last model used as far as
-- that is known, and its idle time so far leaves more of the idle limit than the tail: a tenth of the
-- limit, at least 5 s and at most 30 s.
pub should_reload_after_unexpected_unload_iff :
    (model_id : String) (activity : Dict String Activity) (last : String) (now idle_ttl : ℕ)
    → (should_reload_after_unexpected_unload model_id activity last now idle_ttl).0
      ≡ (elim (get activity model_id) [
        | none ↦ false
        | some a ↦
            leb a.at now
            && ltb (now + ttl_tail_grace idle_ttl) (a.at + idle_ttl * 1000)
            && (last == "" || last == model_id)
      ])
unfolding should_reload_after_unexpected_unload reload_after
should_reload_after_unexpected_unload_iff model_id activity last now idle_ttl =
    elim (Option-cases (get activity model_id)) [
      | inl e ↦ rw (should_reload_after_unexpected_unload, e) refl
      | inr (a, e) ↦ rw (should_reload_after_unexpected_unload, e) (ground arith)
    ]
