-- ===== src/Runtime/Decision.antt =====
-- _cli_impl.py, `plan_runtime_placement`: when it decides what, and what it writes.
use Prim.Native.String.{String}
use heimdall_gateway.Prelude.{
  ℕ, ◌≡◌, refl, ◌∙◌, inl, inr, Bool, true, false, not, ◌&&◌, Option, none, some, List, [], ◌∷◌,
  arith, Bool-cases, or_else, and_left, nat_key, string_key, is_empty, any, filter,
}
use heimdall_gateway.Dict.{get}
use heimdall_gateway.Router.State.{ReplicaRouterState}
use heimdall_gateway.Router.Overrides.{claim_gpu_override, claim_placement_write}
use heimdall_gateway.Runtime.{Host, Occupant, effective_model_gpu_set, gpu_occupants}
use heimdall_gateway.Runtime.Plan.{
  Action, reject, repin_then_forward, Outlook, is_busy, Planned, fits_alternative,
  claim_alternative, gpu_set_of, held_plan, Obstacle, moving_plan, repin_plan, plan_held,
  obstacle_at, plan_pinned,
}

abbrev pub is_reject : Action → Bool
is_reject reject = true
is_reject a = false

abbrev pub is_repin : Action → Bool
is_repin repin_then_forward = true
is_repin a = false

is_empty-filter :
    (s : ReplicaRouterState) (entries : List Occupant)
    → is_empty (filter (is_busy s) entries) ≡ not (any (is_busy s) entries)
is_empty-filter s [] = refl
is_empty-filter s (entry ∷ entries) = ground (arith, is_empty-filter s entries)

unfoldable pub holders_on : Host → String → List ℕ → ReplicaRouterState → List Occupant
unfolding gpu_occupants
holders_on host model_name (pin ∷ []) s = or_else (get (gpu_occupants host s model_name) pin) []
holders_on host model_name pinned s = []

-- the occupants of the GPU that a single-GPU model is pinned to
unfoldable pub holders : Host → Outlook → String → ℕ → ReplicaRouterState → List Occupant
unfolding effective_model_gpu_set holders_on
holders host o model_name now s =
    holders_on host model_name (effective_model_gpu_set o.assigned model_name now s) s

none_busy :
    (s : ReplicaRouterState) (entries : List Occupant)
    → is_empty entries ≡ true
    → any (is_busy s) entries ≡ false
none_busy s [] free = refl
none_busy s (entry ∷ entries) free = ground arith

not-not : (b : Bool) → not (not b) ≡ b
not-not true = refl
not-not false = refl

refused_write :
    (model_name : String) (gpus log : List ℕ) (now : ℕ) (s : ReplicaRouterState)
    → (claim_placement_write model_name gpus now log s).2 ≡ false
    → (claim_placement_write model_name gpus now log s).1 ≡ s
unfolding claim_placement_write claim_gpu_override
refused_write model_name gpus log now s refused = ground arith

refused_claim :
    (model_name : String) (alternative : Option (ℕ × ℕ)) (now : ℕ) (log : List ℕ)
    (s : ReplicaRouterState)
    → (claim_alternative model_name alternative now log s).2 ≡ false
    → (claim_alternative model_name alternative now log s).1 ≡ s
unfolding claim_alternative
refused_claim model_name none now log s refused = refl
refused_claim model_name (some (gpu, free)) now log s refused =
    refused_write model_name (gpu ∷ []) log now s refused

-- what a repinning plan rests on
pub record IsRepin (o : Outlook) (now : ℕ) (log : List ℕ) (s : ReplicaRouterState) (x : Obstacle)
    (plan : Planned) (gpu : ℕ) : Type 0 where
  pub target : plan.2.alt_gpu_set ≡ some (gpu ∷ [])
  pub offered : gpu_set_of x.alternative ≡ some (gpu ∷ [])
  pub room : o.fits (gpu ∷ []) ≡ true
  pub written : plan.1 ≡ (claim_placement_write x.model_name (gpu ∷ []) now log s).1
  pub allowed_write : (claim_placement_write x.model_name (gpu ∷ []) now log s).2 ≡ true

module _ (show : ℕ → String) (o : Outlook) (now : ℕ) (log : List ℕ) (s : ReplicaRouterState) where
  reject-plan_held :
      (x : Obstacle) (busy idle : List Occupant)
      → is_reject (plan_held show o x busy idle now log s).2.action ≡ not (is_empty busy)
  unfolding plan_held
  reject-plan_held x [] [] = ground arith
  reject-plan_held x [] (occupant ∷ idle) = ground arith
  reject-plan_held x (occupant ∷ busy) idle = ground arith

  pub state-plan_held :
      (x : Obstacle) (busy idle : List Occupant)
      → is_repin (plan_held show o x busy idle now log s).2.action ≡ false
      → (plan_held show o x busy idle now log s).1 ≡ s
  unfolding plan_held
  state-plan_held x [] [] kept = refl
  state-plan_held x [] (occupant ∷ idle) kept =
      elim (Bool-cases (fits_alternative o x.alternative && o.may_repin)) [
        | inl fits ↦ elim (Bool-cases (claim_alternative x.model_name x.alternative now log s).2) [
          | inl granted ↦ absurd (ground (arith, fits, granted))
          | inr refused ↦
              rw (fits, refused) (refused_claim x.model_name x.alternative now log s refused)
        ]
        | inr tight ↦ rw tight refl
      ]
  state-plan_held x (occupant ∷ busy) idle kept = refl

  abbrev obstacle : String → ℕ → ℕ → Option (ℕ × ℕ) → Obstacle
  obstacle model_name pin occupied alternative = record {
    model_name = model_name;
    pin = pin;
    occupied_mib = occupied;
    alternative = alternative;
  }

  IsRepin-idle :
      (model_name : String) (pin occupied : ℕ) (alternative : Option (ℕ × ℕ)) (occupant : Occupant)
      (idle : List Occupant)
      → let x = obstacle model_name pin occupied alternative in
        is_repin (plan_held show o x [] (occupant ∷ idle) now log s).2.action ≡ true
        → (gpu : ℕ) × IsRepin o now log s x (plan_held show o x [] (occupant ∷ idle) now log s) gpu
  unfolding plan_held claim_alternative fits_alternative repin_plan moving_plan held_plan
  IsRepin-idle model_name pin occupied none occupant idle moved = absurd (ground arith)
  IsRepin-idle model_name pin occupied (some (gpu, free)) occupant idle moved =
      elim (Bool-cases (o.fits (gpu ∷ []) && o.may_repin)) [
        | inr tight ↦ absurd (ground (arith, tight))
        | inl fits ↦ elim (Bool-cases (claim_placement_write model_name (gpu ∷ []) now log s).2) [
          | inr refused ↦ absurd (ground (arith, fits, refused))
          | inl granted ↦ (
            gpu,
            rw (fits, granted)
                (record {
                  target = refl;
                  offered = refl;
                  room = and_left (o.fits (gpu ∷ [])) o.may_repin fits;
                  written = refl;
                  allowed_write = granted;
                }),
          )
        ]
      ]

  pub IsRepin-plan_held :
      (x : Obstacle) (busy idle : List Occupant)
      → is_repin (plan_held show o x busy idle now log s).2.action ≡ true
      → (gpu : ℕ) × IsRepin o now log s x (plan_held show o x busy idle now log s) gpu
  unfolding plan_held claim_alternative
  IsRepin-plan_held x [] [] moved = ground arith
  IsRepin-plan_held x [] (occupant ∷ idle) moved =
      IsRepin-idle x.model_name x.pin x.occupied_mib x.alternative occupant idle moved
  IsRepin-plan_held x (occupant ∷ busy) idle moved = ground arith

  pub reject-plan_pinned :
      (host : Host) (model_name : String) (pinned : List ℕ)
      → is_reject (plan_pinned show host o model_name pinned now log s).2.action
        ≡ any (is_busy s) (holders_on host model_name pinned s)
  unfolding plan_pinned holders_on
  reject-plan_pinned host model_name [] = ground arith
  reject-plan_pinned host model_name (pin ∷ []) =
      elim (Bool-cases (is_empty (or_else (get (gpu_occupants host s model_name) pin) []))) [
        | inl free ↦ rw free (ground (arith, none_busy s _ free))
        | inr held ↦ rw held (
            reject-plan_held (obstacle_at host model_name pin s)
              (filter (is_busy s) (or_else (get (gpu_occupants host s model_name) pin) [])) _
            ∙ rw (is_empty-filter s (or_else (get (gpu_occupants host s model_name) pin) []))
                (not-not _))
      ]
  reject-plan_pinned host model_name (pin ∷ gpu ∷ pinned) = ground arith
