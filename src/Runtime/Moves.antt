-- ===== src/Runtime/Moves.antt =====
-- _cli_impl.py, `plan_runtime_placement`: the whole decision, and where a repinned model lands.
use Prim.Native.String.{String}
use heimdall_gateway.Prelude.{
  ℕ, ◌+◌, ◌<◌, ◌≡◌, refl, ap, ◌∙◌, inl, inr, Bool, true, false, not, ◌&&◌, ◌||◌, Option, none, some,
  List, [], ◌∷◌, arith, leb, Bool-cases, or_else, nat_key, string_key, is_empty, any, filter,
  contains,
}
use heimdall_gateway.Dict.{Dict, get}
use heimdall_gateway.Router.State.{ReplicaRouterState}
use heimdall_gateway.Router.Prune.{live_gpu_override}
use heimdall_gateway.Router.Overrides.{
  placement_override_ttl, placement_override_min_interval, claim_gpu_override,
  claim_placement_write, live-claimed,
}
use heimdall_gateway.Runtime.{
  Host, Occupant, effective_model_gpu_set, gpu_occupants, smaller, best_alternative_gpu,
}
use heimdall_gateway.Runtime.Plan.{
  Outlook, is_left_alone, is_busy, Planned, gpu_set_of, obstacle_at, plan_pinned,
  plan_runtime_placement,
}
use heimdall_gateway.Runtime.Decision.{
  is_reject, is_repin, holders, IsRepin, state-plan_held, IsRepin-plan_held, reject-plan_pinned,
}

pick_free :
    (held : ℕ → Bool) (g f : ℕ) (best : Option (ℕ × ℕ)) (gpu free : ℕ)
    → held g ≡ false
    → ((k n : ℕ) → best ≡ some (k, n) → held k ≡ false)
    → smaller g f best ≡ some (gpu, free)
    → held gpu ≡ false
unfolding smaller
pick_free held g f none gpu free first rest e = ground (arith, first, e)
pick_free held g f (some (k, n)) gpu free first rest e = elim (Bool-cases (leb g k)) [
  | inl under ↦ ground (arith, first, under, e)
  | inr over ↦ ground (arith, rest k n refl, over, e)
]

best_alternative_gpu_free :
    (snapshot : Dict ℕ ℕ) (pinned : List ℕ) (occupants : Dict ℕ (List Occupant)) (gpu free : ℕ)
    → best_alternative_gpu snapshot pinned occupants ≡ some (gpu, free)
    → (contains pinned gpu || not (is_empty (or_else (get occupants gpu) []))) ≡ false
unfolding best_alternative_gpu
best_alternative_gpu_free [] pinned occupants gpu free e = absurd (ground arith)
best_alternative_gpu_free ((g, f) ∷ snapshot) pinned occupants gpu free e =
    elim (Bool-cases (contains pinned g || not (is_empty (or_else (get occupants g) [])))) [
      | inl held ↦ best_alternative_gpu_free snapshot pinned occupants gpu free (rw held at e)
      | inr open_gpu ↦
          pick_free (λ k. contains pinned k || not (is_empty (or_else (get occupants k) []))) g f
            (best_alternative_gpu snapshot pinned occupants) gpu free open_gpu
            (best_alternative_gpu_free snapshot pinned occupants) (rw open_gpu at e)
    ]

granted_override :
    (model_name : String) (gpus log : List ℕ) (now : ℕ) (s : ReplicaRouterState)
    → (claim_placement_write model_name gpus now log s).2 ≡ true
    → (claim_gpu_override model_name gpus placement_override_ttl placement_override_min_interval now
        s).1
      ≡ true
unfolding claim_placement_write
granted_override model_name gpus log now s granted = ground arith

written_override :
    (model_name : String) (gpus log : List ℕ) (now later : ℕ) (s : ReplicaRouterState)
    → (claim_placement_write model_name gpus now log s).2 ≡ true
    → later < now + placement_override_ttl
    → live_gpu_override model_name later (claim_placement_write model_name gpus now log s).1
      ≡ some gpus
unfolding claim_placement_write
written_override model_name gpus log now later s granted soon = ground (
  arith,
  granted_override model_name gpus log now s granted,
  live-claimed model_name gpus placement_override_ttl placement_override_min_interval now later s,
)

-- The plan for a load asks to reject it exactly when runtime placement looks at the model, the model
-- is pinned to one GPU, and a model there serves a request, whatever room there is on other GPUs.
pub plan_runtime_placement-reject :
    (show : ℕ → String) (host : Host) (o : Outlook) (model_name : String) (now : ℕ) (log : List ℕ)
    (s : ReplicaRouterState)
    → is_reject (plan_runtime_placement show host o model_name now log s).2.action
      ≡ (not (is_left_alone o model_name) && any (is_busy s) (holders host o model_name now s))
unfolding plan_runtime_placement holders
plan_runtime_placement-reject show host o model_name now log s = ground (
  arith,
  reject-plan_pinned show o now log s host model_name
      (effective_model_gpu_set o.assigned model_name now s),
)

state-plan_pinned :
    (show : ℕ → String) (host : Host) (o : Outlook) (model_name : String) (pinned : List ℕ)
    (now : ℕ) (log : List ℕ) (s : ReplicaRouterState)
    → is_repin (plan_pinned show host o model_name pinned now log s).2.action ≡ false
    → (plan_pinned show host o model_name pinned now log s).1 ≡ s
unfolding plan_pinned
state-plan_pinned show host o model_name [] now log s kept = refl
state-plan_pinned show host o model_name (pin ∷ gpu ∷ pinned) now log s kept = refl
state-plan_pinned show host o model_name (pin ∷ []) now log s kept =
    elim (Bool-cases (is_empty (or_else (get (gpu_occupants host s model_name) pin) []))) [
      | inl free ↦ rw free refl
      | inr held ↦ rw held (
          state-plan_held show o now log s (obstacle_at host model_name pin s)
            (filter (is_busy s) (or_else (get (gpu_occupants host s model_name) pin) []))
            (filter (λ entry. not (is_busy s entry))
              (or_else (get (gpu_occupants host s model_name) pin) []))
            (rw held at kept))
    ]

-- A plan that does not move the model leaves the router's state as it is.
pub plan_runtime_placement-state :
    (show : ℕ → String) (host : Host) (o : Outlook) (model_name : String) (now : ℕ) (log : List ℕ)
    (s : ReplicaRouterState)
    → is_repin (plan_runtime_placement show host o model_name now log s).2.action ≡ false
    → (plan_runtime_placement show host o model_name now log s).1 ≡ s
unfolding plan_runtime_placement
plan_runtime_placement-state show host o model_name now log s kept =
    elim (Bool-cases (is_left_alone o model_name)) [
      | inl alone ↦ rw alone refl
      | inr seen ↦ rw seen (state-plan_pinned show host o model_name _ now log s (rw seen at kept))
    ]

-- where a repinned model goes, and from when on: `later` reads the router's state after the plan
pub record Lands (host : Host) (o : Outlook) (model_name : String) (pinned : List ℕ) (later : ℕ)
    (s : ReplicaRouterState) (plan : Planned) (gpu : ℕ) : Type 0 where
  pub target : plan.2.alt_gpu_set ≡ some (gpu ∷ [])
  pub unheld :
      (contains pinned gpu
        || not (is_empty (or_else (get (gpu_occupants host s model_name) gpu) [])))
      ≡ false
  pub room : o.fits (gpu ∷ []) ≡ true
  pub effective : effective_model_gpu_set o.assigned model_name later plan.1 ≡ gpu ∷ []

offered_gpu :
    (best : Option (ℕ × ℕ)) (gpu : ℕ)
    → gpu_set_of best ≡ some (gpu ∷ [])
    → (free : ℕ) × (best ≡ some (gpu, free))
offered_gpu none gpu e = absurd (ground arith)
offered_gpu (some (g, free)) gpu e = (free, ground (arith, e))

effective_of_live :
    (assigned : Dict String (List ℕ)) (model_name : String) (gpu later : ℕ) (t : ReplicaRouterState)
    → live_gpu_override model_name later t ≡ some (gpu ∷ [])
    → effective_model_gpu_set assigned model_name later t ≡ gpu ∷ []
unfolding effective_model_gpu_set
effective_of_live assigned model_name gpu later t live = rw (effective_model_gpu_set, live) refl

module _ (show : ℕ → String) (host : Host) (o : Outlook) (model_name : String) (now later : ℕ)
    (log : List ℕ) (s : ReplicaRouterState) (soon : later < now + placement_override_ttl) where
  Lands-held :
      (pin : ℕ) (plan : Planned) (gpu : ℕ)
      → IsRepin o now log s (obstacle_at host model_name pin s) plan gpu
      → Lands host o model_name (pin ∷ []) later s plan gpu
  unfolding obstacle_at
  Lands-held pin plan gpu moves =
      let (free, best) = offered_gpu _ gpu moves.offered in
      record {
        target = moves.target;
        unheld =
            best_alternative_gpu_free host.free_mib (pin ∷ []) (gpu_occupants host s model_name) gpu
              free best;
        room = moves.room;
        effective = effective_of_live o.assigned model_name gpu later plan.1 (
            ap (live_gpu_override model_name later) moves.written
            ∙ written_override model_name (gpu ∷ []) log now later s moves.allowed_write soon);
      }

  repin-plan_pinned :
      (pinned : List ℕ)
      → is_repin (plan_pinned show host o model_name pinned now log s).2.action ≡ true
      → (gpu : ℕ) × Lands host o model_name pinned later s
          (plan_pinned show host o model_name pinned now log s)
          gpu
  unfolding plan_pinned
  repin-plan_pinned [] moved = absurd (ground arith)
  repin-plan_pinned (pin ∷ gpu ∷ pinned) moved = absurd (ground arith)
  repin-plan_pinned (pin ∷ []) moved =
      elim (Bool-cases (is_empty (or_else (get (gpu_occupants host s model_name) pin) []))) [
        | inl free ↦ absurd (ground (arith, free))
        | inr held ↦
            let entries = or_else (get (gpu_occupants host s model_name) pin) [] in
            let (gpu, moves) =
              IsRepin-plan_held show o now log s (obstacle_at host model_name pin s)
                (filter (is_busy s) entries) (filter (λ entry. not (is_busy s entry)) entries)
                (rw held at moved) in
            (gpu, rw held (Lands-held pin _ gpu moves))
      ]

-- A plan that moves a model to another GPU moves it to one that it is not pinned to and that no other
-- model's process holds, on which it fits by the estimate; and until the override's lifetime ends,
-- the GPU set that its route is launched on is that GPU.
pub plan_runtime_placement-Lands :
    (show : ℕ → String) (host : Host) (o : Outlook) (model_name : String) (now later : ℕ)
    (log : List ℕ) (s : ReplicaRouterState)
    → later < now + placement_override_ttl
    → is_repin (plan_runtime_placement show host o model_name now log s).2.action ≡ true
    → (gpu : ℕ) × Lands host o model_name
        (effective_model_gpu_set o.assigned model_name now s)
        later
        s
        (plan_runtime_placement show host o model_name now log s)
        gpu
unfolding plan_runtime_placement
plan_runtime_placement-Lands show host o model_name now later log s soon moved =
    elim (Bool-cases (is_left_alone o model_name)) [
      | inl alone ↦ absurd (ground (arith, alone))
      | inr seen ↦
          rw seen
            (repin-plan_pinned show host o model_name now later log s soon _ (rw seen at moved))
    ]
