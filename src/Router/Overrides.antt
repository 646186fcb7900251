-- ===== src/Router/Overrides.antt =====
-- _cli_impl.py: `note_gpu_demand`, `claim_gpu_override`, and `_claim_placement_write` with its log of
-- the writes of the last hour.
use heimdall_gateway.Prelude.{
  ℕ, ◌+◌, ◌≤◌, ◌<◌, max, String, ◌≡◌, refl, ap, ◌∙◌, inl, inr, Bool, true, false, ◌&&◌, ◌||◌,
  Option, none, some, List, [], ◌∷◌, ◌++◌, arith, ltb, leb, nat_eq, if◌then◌else◌, Bool-cases,
  Option-cases, or_else, is_some, ◌==◌, nat_eq_iff, nat_key, string_key, ==_refl, length, contains,
}
use heimdall_gateway.Dict.{Dict, get, put, get-put}
use heimdall_gateway.Router.State.{ReplicaRouterState}
use heimdall_gateway.Router.Prune.{demands, live_gpu_override, prune, prune-readers}

abbrev pub placement_override_ttl : ℕ
placement_override_ttl = 1800000

abbrev pub placement_override_min_interval : ℕ
placement_override_min_interval = 900000

abbrev pub placement_max_writes_per_hour : ℕ
placement_max_writes_per_hour = 4

-- for gpu in gpus: self.gpu_demand[gpu] = max(self.gpu_demand.get(gpu, 0.0), deadline)
unfoldable pub raise_demand : List ℕ → ℕ → Dict ℕ ℕ → Dict ℕ ℕ
raise_demand [] deadline demand = demand
raise_demand (gpu ∷ gpus) deadline demand =
    raise_demand gpus deadline (put demand gpu (max (or_else (get demand gpu) 0) deadline))

-- `none` is a GPU set that is no list of integers
unfoldable pub note_gpu_demand : Option (List ℕ) → ℕ → ℕ → ReplicaRouterState → ReplicaRouterState
unfolding raise_demand
note_gpu_demand none ttl now s = s
note_gpu_demand (some []) ttl now s = s
note_gpu_demand (some (gpu ∷ gpus)) ttl now s = record s {
  gpu_demand = raise_demand (gpu ∷ gpus) (now + max 1000 ttl) s.gpu_demand;
}

-- moment - last < min_interval
abbrev too_recent : Option ℕ → ℕ → ℕ → Bool
too_recent none min_interval now = false
too_recent (some last) min_interval now = ltb now (last + min_interval)

unfoldable pub claim_gpu_override :
    String → List ℕ → ℕ → ℕ → ℕ → ReplicaRouterState → ReplicaRouterState × Bool
unfolding live_gpu_override
claim_gpu_override model_id gpu_set ttl min_interval now s =
    if is_some (live_gpu_override model_id now s)
    then (s, false)
    else if too_recent (get s.gpu_override_written_at model_id) min_interval now
    then (s, false)
    else (
      record s {
        gpu_override = put s.gpu_override model_id (gpu_set, now + max 1000 ttl);
        gpu_override_written_at = put s.gpu_override_written_at model_id now;
      },
      true,
    )

-- while log and log[0] <= cutoff: log.pop(0), with cutoff = now - 3600
unfoldable pub drop_old_writes : ℕ → List ℕ → List ℕ
drop_old_writes now [] = []
drop_old_writes now (t ∷ log) =
    let rest = drop_old_writes now log in if leb (t + 3600000) now then rest else t ∷ log

unfoldable pub claim_placement_write :
    String → List ℕ → ℕ → List ℕ → ReplicaRouterState → List ℕ × ReplicaRouterState × Bool
unfolding drop_old_writes
claim_placement_write model_id gpu_set now log s =
    let recent = drop_old_writes now log in
    if leb placement_max_writes_per_hour (length recent)
    then (recent, s, false)
    else (let (t, granted) =
          claim_gpu_override model_id gpu_set placement_override_ttl placement_override_min_interval
            now s in
        if granted then (recent ++ now ∷ [], t, true) else (recent, t, false))

pub live-claimed :
    (model_id : String) (gpus : List ℕ) (ttl interval now later : ℕ) (s : ReplicaRouterState)
    → (claim_gpu_override model_id gpus ttl interval now s).1 ≡ true
    → later < now + ttl
    → live_gpu_override model_id later (claim_gpu_override model_id gpus ttl interval now s).0
      ≡ some gpus
unfolding claim_gpu_override
live-claimed model_id gpus ttl interval now later s granted soon =
    ground
      (arith, ==_refl model_id, get-put s.gpu_override model_id model_id (gpus, now + max 1000 ttl))

refused_while_live :
    (model_id : String) (gpus gpus' : List ℕ) (ttl interval now : ℕ) (s : ReplicaRouterState)
    → live_gpu_override model_id now s ≡ some gpus
    → (claim_gpu_override model_id gpus' ttl interval now s).1 ≡ false
unfolding claim_gpu_override
refused_while_live model_id gpus gpus' ttl interval now s live = ground arith

-- A granted override is the live one for its whole lifetime, and until it ends no claim for the
-- same model is granted, for whatever GPUs and interval, even if the state is pruned in between.
pub claim_gpu_override-excludes :
    (model_id : String) (gpus gpus' : List ℕ) (ttl ttl' interval interval' now pruned later : ℕ)
    (s : ReplicaRouterState)
    → (claim_gpu_override model_id gpus ttl interval now s).1 ≡ true
    → pruned ≤ later
    → later < now + ttl
    → let t = (claim_gpu_override model_id gpus ttl interval now s).0 in
      (live_gpu_override model_id later t ≡ some gpus)
      × ((claim_gpu_override model_id gpus' ttl' interval' later (prune pruned t)).1 ≡ false)
claim_gpu_override-excludes model_id gpus gpus' ttl ttl' interval interval' now pruned later s
      granted before soon =
    let t = (claim_gpu_override model_id gpus ttl interval now s).0 in
    let live = live-claimed model_id gpus ttl interval now later s granted soon in
    (
      live,
      refused_while_live model_id gpus gpus' ttl' interval' later (prune pruned t)
          ((prune-readers pruned later t before model_id 0).3 ∙ live),
    )

raised_step :
    (here there : Bool) (old new deadline final : ℕ)
    → new ≡ (if here then max old deadline else old)
    → final ≡ (if there then max new deadline else new)
    → final ≡ (if here || there then max old deadline else old)
raised_step true true old new deadline final e f = omega arith
raised_step true false old new deadline final e f = omega arith
raised_step false true old new deadline final e f = omega arith
raised_step false false old new deadline final e f = omega arith

raised_first :
    (gpu g deadline : ℕ) (d : Dict ℕ ℕ)
    → or_else (get (put d gpu (max (or_else (get d gpu) 0) deadline)) g) 0
      ≡ (if gpu == g then max (or_else (get d g) 0) deadline else or_else (get d g) 0)
raised_first gpu g deadline d = elim (Bool-cases (nat_eq gpu g)) [
  | inl e ↦ rw (get-put, e) (ap (λ n. max (or_else (get d n) 0) deadline) ((nat_eq_iff gpu g).0 e))
  | inr e ↦ rw (get-put, e) refl
]

raised :
    (gpus : List ℕ) (deadline : ℕ) (d : Dict ℕ ℕ) (g : ℕ)
    → or_else (get (raise_demand gpus deadline d) g) 0
      ≡ (if contains gpus g then max (or_else (get d g) 0) deadline else or_else (get d g) 0)
unfolding raise_demand
raised [] deadline d g = refl
raised (gpu ∷ gpus) deadline d g =
    raised_step (gpu == g) (contains gpus g) (or_else (get d g) 0) _ deadline _
      (raised_first gpu g deadline d)
      (raised gpus deadline (put d gpu (max (or_else (get d gpu) 0) deadline)) g)

demands-eq :
    (s : ReplicaRouterState) (now g : ℕ)
    → demands s now g ≡ ltb now (or_else (get s.gpu_demand g) 0)
unfolding demands
demands-eq s now g = ground (arith, Option-cases (get s.gpu_demand g))

-- After a refused model has noted the GPUs that it wants, a GPU counts as demanded exactly if it
-- did so before, or is one of those and the note's lifetime, a second at least, is not over: a
-- short note never cuts a longer one short, and no other GPU is touched.
pub note_gpu_demand-demands :
    (gpus : List ℕ) (ttl now g later : ℕ) (s : ReplicaRouterState)
    → demands (note_gpu_demand (some gpus) ttl now s) later g
      ≡ (demands s later g || (contains gpus g && ltb later (now + max 1000 ttl)))
unfolding note_gpu_demand
note_gpu_demand-demands [] ttl now g later s = ground arith
note_gpu_demand-demands (gpu ∷ gpus) ttl now g later s =
    let deadline = now + max 1000 ttl in
    ground (
      arith,
      demands-eq s later g,
      demands-eq (record s { gpu_demand = raise_demand (gpu ∷ gpus) deadline s.gpu_demand }) later
          g,
      raised (gpu ∷ gpus) deadline s.gpu_demand g,
    )
