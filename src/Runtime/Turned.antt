-- ===== src/Runtime/Turned.antt =====
-- _cli_impl.py, `_reject_if_gpu_busy`: what a request that is refused leaves behind, and one that passes.
use Prim.Native.String.{String}
use heimdall_gateway.Prelude.{
  ℕ, ◌≡◌, refl, ap, ◌∙◌, inl, inr, true, false, not, ◌&&◌, ◌||◌, Option, none, some, List, [], ◌∷◌,
  arith, if◌then◌else◌, Bool-cases, Option-cases, is_some, ◌==◌, nat_key, string_key, is_empty, All,
}
use heimdall_gateway.Dict.{get, pop}
use heimdall_gateway.Value.{Object}
use heimdall_gateway.Router.State.{ReplicaRouterState}
use heimdall_gateway.Router.Claims.{
  process_loaded, key_or_model, claim_loading, release_loading_claim, held, held_alike,
  held-release, granted_alias,
}
use heimdall_gateway.Router.Conflicts.{blocking_conflicting_load}
use heimdall_gateway.Router.Overrides.{
  placement_override_ttl, placement_override_min_interval, note_gpu_demand, claim_gpu_override,
}
use heimdall_gateway.Runtime.{Host}
use heimdall_gateway.Runtime.Plan.{
  Action, forward, reject, repin_then_forward, retire_then_forward, PlacementPlan, Outlook,
  plan_runtime_placement,
}
use heimdall_gateway.Runtime.Safety.{IsExpendable, retire_idle_occupants-IsExpendable}
use heimdall_gateway.Runtime.Gate.{
  gpu_demand_ttl, Surroundings, Passage, probe_blocker, settle_conflict, act_on, place,
  reject_if_gpu_busy,
}
use heimdall_gateway.Runtime.Overriding.{plan_runtime_placement_kept}

-- the loading claims and their aliases are the same
record SameClaims (s t : ReplicaRouterState) : Type 0 where
  claims : s.loading_claims ≡ t.loading_claims
  aliases : s.loading_claim_aliases ≡ t.loading_claim_aliases

claim_gpu_override-SameClaims :
    (model_name : String) (gpus : List ℕ) (ttl min_interval now : ℕ) (s : ReplicaRouterState)
    → SameClaims (claim_gpu_override model_name gpus ttl min_interval now s).0 s
unfolding claim_gpu_override
claim_gpu_override-SameClaims model_name gpus ttl min_interval now s = record {
  claims = ground arith;
  aliases = ground arith;
}

plan_runtime_placement-SameClaims :
    (show : ℕ → String) (host : Host) (o : Outlook) (model_name : String) (now : ℕ) (log : List ℕ)
    (s : ReplicaRouterState)
    → SameClaims (plan_runtime_placement show host o model_name now log s).1 s
plan_runtime_placement-SameClaims show host o model_name now log s =
    plan_runtime_placement_kept (λ t. SameClaims t s) now s
      (record { claims = refl; aliases = refl })
      (λ model gpus.
        claim_gpu_override-SameClaims model gpus placement_override_ttl
          placement_override_min_interval now s)
      show o host model_name log

-- What a passage makes of the loading claims of a router: they are given back exactly if the request
-- is refused, and then nothing is unloaded and no route is rewritten.
pub record Settles (model_name : String) (s : ReplicaRouterState) (p : Passage) : Type 0 where
  pub settled : p.router.loading_claims ≡ (
      if is_some p.refusal_sent
      then (release_loading_claim model_name s).loading_claims
      else s.loading_claims)
  pub inert : (is_some p.refusal_sent && (not (is_empty p.unloaded) || p.repinned)) ≡ false
  pub expendable : All (IsExpendable p.router model_name) p.unloaded

note_gpu_demand-SameClaims :
    (gpus : Option (List ℕ)) (ttl now : ℕ) (s : ReplicaRouterState)
    → SameClaims (note_gpu_demand gpus ttl now s) s
unfolding note_gpu_demand
note_gpu_demand-SameClaims none ttl now s = record { claims = refl; aliases = refl }
note_gpu_demand-SameClaims (some []) ttl now s = record { claims = refl; aliases = refl }
note_gpu_demand-SameClaims (some (gpu ∷ gpus)) ttl now s = record { claims = refl; aliases = refl }

release_alike :
    (model_name : String) (t s : ReplicaRouterState)
    → SameClaims t s
    → (release_loading_claim model_name t).loading_claims
      ≡ (release_loading_claim model_name s).loading_claims
unfolding release_loading_claim
release_alike model_name t s same =
    ap
      (λ claims.
        pop (pop claims model_name)
          (key_or_model (get t.loading_claim_aliases model_name) model_name))
      same.claims
    ∙ ap
        (λ aliases.
          pop (pop s.loading_claims model_name) (key_or_model (get aliases model_name) model_name))
        same.aliases

settle_conflict-Settles :
    (x : Surroundings) (model_name : String) (now : ℕ) (log : List ℕ) (s : ReplicaRouterState)
    (conflict : Option String)
    → Settles model_name s (settle_conflict x model_name now log s conflict)
unfolding settle_conflict
settle_conflict-Settles x model_name now log s none = record {
  settled = refl;
  inert = refl;
  expendable = tt;
}
settle_conflict-Settles x model_name now log s (some message) = elim (Bool-cases (message == "")) [
  | inl none_given ↦ rw none_given (record { settled = refl; inert = refl; expendable = tt })
  | inr given ↦ rw given (record {
    settled =
        release_alike model_name _ s
          (note_gpu_demand-SameClaims (get x.outlook.assigned model_name) gpu_demand_ttl now s);
    inert = refl;
    expendable = tt;
  })
]

act_on-Settles :
    (x : Surroundings) (model_name : String) (now : ℕ) (log : List ℕ) (s : ReplicaRouterState)
    (plan : PlacementPlan) (action : Action)
    → Settles model_name s (act_on x model_name now log s plan action)
unfolding act_on
act_on-Settles x model_name now log s plan retire_then_forward = record {
  settled = refl;
  inert = refl;
  expendable = retire_idle_occupants-IsExpendable x.unloads x.host plan model_name s;
}
act_on-Settles x model_name now log s plan repin_then_forward = record {
  settled = refl;
  inert = refl;
  expendable = tt;
}
act_on-Settles x model_name now log s plan reject =
    settle_conflict-Settles x model_name now log s plan.message
act_on-Settles x model_name now log s plan forward =
    settle_conflict-Settles x model_name now log s x.conflict

Settles-alike :
    (model_name : String) (t s : ReplicaRouterState) (p : Passage)
    → SameClaims t s
    → Settles model_name t p
    → Settles model_name s p
Settles-alike model_name t s p same kept = record {
  settled = elim (Bool-cases (is_some p.refusal_sent)) [
    | inl e ↦ kept.settled ∙ rw e (release_alike model_name t s same)
    | inr e ↦ kept.settled ∙ rw e same.claims
  ];
  inert = kept.inert;
  expendable = kept.expendable;
}

place-Settles :
    (show : ℕ → String) (x : Surroundings) (model_name : String) (now : ℕ) (log : List ℕ)
    (s : ReplicaRouterState)
    → Settles model_name s (place show x model_name now log s)
unfolding place
place-Settles show x model_name now log s =
    let planned = plan_runtime_placement show x.host x.outlook model_name now log s in
    Settles-alike model_name planned.1 s _
      (plan_runtime_placement-SameClaims show x.host x.outlook model_name now log s)
      (act_on-Settles x model_name now planned.0 planned.1 planned.2 planned.2.action)

-- A request that is refused gives its model's loading claim back, with no instance unloaded and no
-- route rewritten; one that passes keeps the claims as they are, and what was unloaded for it serves
-- no request and is neither the model nor one of its replicas.
pub reject_if_gpu_busy-Settles :
    (show : ℕ → String) (x : Surroundings) (model_name : String) (payload : Object) (now : ℕ)
    (log : List ℕ) (s : ReplicaRouterState)
    → Settles model_name s (reject_if_gpu_busy show x model_name payload now log s)
unfolding reject_if_gpu_busy
reject_if_gpu_busy-Settles show x model_name payload now log s =
    elim (Option-cases (blocking_conflicting_load x.membership model_name now s)) [
      | inr (load, e) ↦
          rw (reject_if_gpu_busy, e) (record { settled = refl; inert = refl; expendable = tt })
      | inl e ↦ elim (Option-cases (probe_blocker x model_name payload now)) [
        | inr (b, f) ↦
            rw (reject_if_gpu_busy, e, f) (record { settled = refl; inert = refl; expendable = tt })
        | inl f ↦ rw (reject_if_gpu_busy, e, f) (place-Settles show x model_name now log s)
      ]
    ]

held_settled :
    (model_name : String) (later : ℕ) (t : ReplicaRouterState) (p : Passage)
    → Settles model_name t p
    → held (release_loading_claim model_name t) model_name later ≡ false
    → held p.router model_name later
      ≡ (if is_some p.refusal_sent then false else held t model_name later)
held_settled model_name later t p kept released = elim (Bool-cases (is_some p.refusal_sent)) [
  | inl e ↦ rw e (
      held_alike p.router (release_loading_claim model_name t) model_name later
        (kept.settled ∙ rw e refl)
      ∙ released)
  | inr e ↦ rw e (held_alike p.router t model_name later (kept.settled ∙ rw e refl))
]

-- From the claim to the gate: when a request was granted the loading claim of an unloaded base model
-- and then meets the gate, nobody holds that claim at any later time if it is refused, and it holds
-- it as before if it passes.
pub reject_if_gpu_busy-held :
    (show : ℕ → String) (x : Surroundings) (model_name : String) (payload : Object) (now later : ℕ)
    (log : List ℕ) (s : ReplicaRouterState)
    → (model_name == "") ≡ false
    → (claim_loading model_name false false none now s).1 ≡ true
    → let t = (claim_loading model_name false false none now s).0 in
      let p = reject_if_gpu_busy show x model_name payload now log t in
      held p.router model_name later
      ≡ (if is_some p.refusal_sent then false else held t model_name later)
unfolding process_loaded
reject_if_gpu_busy-held show x model_name payload now later log s named granted =
    let t = (claim_loading model_name false false none now s).0 in
    held_settled model_name later t _
      (reject_if_gpu_busy-Settles show x model_name payload now log t)
      (held-release model_name model_name later t named
        (granted_alias model_name false false none now s refl granted))
