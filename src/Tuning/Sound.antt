-- ===== src/Tuning/Sound.antt =====
-- auto_performance.py, `repair_until_feasible`: the mechanical repairs, and what holds of a repaired
-- configuration.
use Prim.Native.String.{String}
use heimdall_gateway.Prelude.{◌>>=◌}
use heimdall_gateway.Prelude.{
  ℕ, ◌≤◌, max, ◌≡◌, refl, ap, ◌∙◌, inl, inr, true, false, ◌&&◌, Option, none, some, List, arith,
  ltb, leb, Bool-cases, or_else, is_some, nat_key, string_key,
}
use heimdall_gateway.Tuning.{
  TunedConfig, Note, Repaired, holds_word, selected_gpus, is_split, ubatch_of, batch_of,
  draft_context, has_draft, budget_of, raise_ubatch, cap_at, cap_ubatch, split_layers, cap_draft,
  mechanical_repairs, halve_parallel, halve_batches, repair_round, repair_rounds,
  repair_until_feasible,
}
use heimdall_gateway.Tuning.Kept.{
  Holds, Holds-both, SameDemand, SameDemand-refl, repair_round-Holds, repair_rounds-Holds,
}

abbrev pub main_context : TunedConfig → ℕ
main_context c = or_else c.ctx_size 2048

-- the sizes of the batches fit each other, and the smaller is supported when the larger is
abbrev pub BatchesFit : TunedConfig → Type 0
BatchesFit c = (ubatch_of c ≤ batch_of c) × (256 ≤ batch_of c → 256 ≤ ubatch_of c)

abbrev pub SplitFits : TunedConfig → Type 0
SplitFits c = is_split c && holds_word "none" c.split_mode ≡ false

abbrev pub DraftFits : TunedConfig → Type 0
DraftFits c = has_draft c && ltb (main_context c) (draft_context c) ≡ false

abbrev pub IsSound : TunedConfig → Type 0
IsSound c = BatchesFit c × SplitFits c × DraftFits c

-- both sizes are set
abbrev pub HasBatches : TunedConfig → Type 0
HasBatches c = (is_some c.ubatch_size ≡ true) × (is_some c.batch_size ≡ true)

-- what the mechanical repairs leave: the slots too, and no larger batches than were asked for
abbrev pub Mends : TunedConfig → TunedConfig → Type 0
Mends c d = SameDemand c d × (d.parallel ≡ c.parallel) × (ubatch_of d ≤ max 256 (ubatch_of c))

Mends-refl : (c : TunedConfig) → Mends c c
Mends-refl c = (SameDemand-refl c, refl, omega arith)

Mends-trans : (b c d : TunedConfig) → Mends b c → Mends c d → Mends b d
Mends-trans b c d ((e1, e2, e3, e4), same_slots, le) ((f1, f2, f3, f4), still, less) =
    ((f1 ∙ e1, f2 ∙ e2, f3 ∙ e3, f4 ∙ e4), still ∙ same_slots, omega arith)

raise_ubatch_lem :
    (c : TunedConfig)
    → HasBatches c
    → HasBatches (raise_ubatch c).0
      × (256 ≤ ubatch_of (raise_ubatch c).0)
      × Mends c (raise_ubatch c).0
unfolding raise_ubatch
raise_ubatch_lem c (ubatch, batch) = elim (Bool-cases (ltb (ubatch_of c) 256)) [
  | inl e ↦ rw e ((refl, batch), omega arith, (SameDemand-refl c, refl, ground arith))
  | inr e ↦ rw e ((ubatch, batch), ground arith, Mends-refl c)
]

-- the configuration that a stage gives, with a property
abbrev pub Gives : (TunedConfig → Type 0) → Option Repaired → Type 0
Gives P result = (d : TunedConfig) × (log : List Note) × (result ≡ some (d, log)) × P d

cap_at-Gives :
    (c : TunedConfig) (log : List Note) (ubatch batch : Option ℕ)
    → (is_some ubatch ≡ true) × (is_some batch ≡ true)
    → or_else batch 2048 ≡ batch_of c
    → or_else batch 2048 ≤ max 256 (ubatch_of c)
    → Gives (λ d. BatchesFit d × Mends c d) (cap_at ubatch batch c log)
unfolding cap_at
cap_at-Gives c log (some u) (some b) (hu, hb) e low =
    (_, _, refl, ((omega arith, λ large. omega arith), (SameDemand-refl c, refl, low)))
cap_at-Gives c log none batch (hu, hb) e low = absurd (ground arith)
cap_at-Gives c log (some u) none (hu, hb) e low = absurd (ground arith)

cap_ubatch-Gives :
    (c : TunedConfig) (log : List Note)
    → HasBatches c
    → 256 ≤ ubatch_of c
    → Gives (λ d. BatchesFit d × Mends c d) (cap_ubatch (c, log))
unfolding cap_ubatch
cap_ubatch-Gives c log has large = elim (Bool-cases (ltb (batch_of c) (ubatch_of c))) [
  | inl e ↦ rw e (cap_at-Gives c log c.ubatch_size c.batch_size has refl (ground arith))
  | inr e ↦ rw e (c, log, refl, ((ground arith, λ b. large), Mends-refl c))
]

split_layers_lem :
    (c : TunedConfig) (log : List Note)
    → SplitFits (split_layers (c, log)).0
      × Mends c (split_layers (c, log)).0
      × (BatchesFit c → BatchesFit (split_layers (c, log)).0)
unfolding split_layers
split_layers_lem c log = elim (Bool-cases (is_split c && holds_word "none" c.split_mode)) [
  | inl e ↦ rw e (ground arith, Mends-refl c, λ fit. fit)
  | inr e ↦ rw e (e, Mends-refl c, λ fit. fit)
]

cap_draft_lem :
    (c : TunedConfig) (log : List Note)
    → DraftFits (cap_draft (c, log)).0
      × Mends c (cap_draft (c, log)).0
      × (BatchesFit c → BatchesFit (cap_draft (c, log)).0)
      × (SplitFits c → SplitFits (cap_draft (c, log)).0)
unfolding cap_draft
cap_draft_lem c log = elim (Bool-cases (has_draft c && ltb (main_context c) (draft_context c))) [
  | inl e ↦ rw e (ground arith, Mends-refl c, λ fit. fit, λ fit. fit)
  | inr e ↦ rw e (e, Mends-refl c, λ fit. fit, λ fit. fit)
]

pub mechanical_repairs-Gives :
    (c : TunedConfig) → HasBatches c → Gives (λ d. IsSound d × Mends c d) (mechanical_repairs c)
unfolding mechanical_repairs
mechanical_repairs-Gives c has =
    let (still, large, same1) = raise_ubatch_lem c has in
    let (d, log, e, (fit, same2)) =
      cap_ubatch-Gives (raise_ubatch c).0 (raise_ubatch c).1 still large in
    let (split, same3, fit1) = split_layers_lem d log in
    let layered = split_layers (d, log) in
    let (draft, same4, fit2, split2) = cap_draft_lem layered.0 layered.1 in
    let end = cap_draft layered in
    (
      end.0,
      end.1,
      ap (λ r. r >>= λ capped. some (cap_draft (split_layers capped))) e,
      (
        (fit2 (fit1 fit), split2 split, draft),
        Mends-trans c (raise_ubatch c).0 end.0 same1 (
            Mends-trans (raise_ubatch c).0 d end.0 same2
              (Mends-trans d layered.0 end.0 same3 same4)),
      ),
    )

halve_batches-BatchesFit :
    (c : TunedConfig) → ltb 256 (ubatch_of c) ≡ true → Holds BatchesFit (halve_batches c)
unfolding halve_batches
halve_batches-BatchesFit c e = (ground arith, λ large. ground arith)

module _ (total : TunedConfig → ℕ) (spread : String → ℕ → String) where
  repair_round-IsSound : (c : TunedConfig) → IsSound c → Holds IsSound (repair_round total spread c)
  unfolding halve_parallel halve_batches
  repair_round-IsSound c (fit, split, draft) =
      repair_round-Holds total spread IsSound c (fit, split, draft) (fit, split, draft)
        (λ e. (halve_batches-BatchesFit c e, split, draft)) (λ e. (fit, split, ground arith))
        (λ weights. (fit, split, draft)) (fit, split, draft)

  repair_round-SameDemand :
      (asked c : TunedConfig)
      → SameDemand asked c
      → Holds (SameDemand asked) (repair_round total spread c)
  unfolding halve_parallel halve_batches
  repair_round-SameDemand asked c same =
      repair_round-Holds total spread (SameDemand asked) c same same (λ e. same) (λ e. same)
        (λ weights. same) same

  -- a property that the mechanical repairs establish and the loop keeps holds of the result
  pub repair_until_feasible-Gives :
      (P Q : TunedConfig → Type 0) (vram_mib : List ℕ) (c : TunedConfig)
      → leb (budget_of vram_mib (selected_gpus c)) 0 ≡ false
      → Gives P (mechanical_repairs c)
      → ((d : TunedConfig) (log : List Note)
          → P d
          → Q (repair_rounds total spread 15 (budget_of vram_mib (selected_gpus c)) d log).0)
      → Gives Q (repair_until_feasible total spread vram_mib c)
  unfolding repair_until_feasible
  repair_until_feasible-Gives P Q vram_mib c budget (d, log, e, p) kept =
      rw (budget, e) (_, _, refl, kept d log p)

  -- With a budget and the sizes of both batches set, the repair gives a configuration. In it the
  -- smaller batch is at most the larger, and at least 256 where the larger is; several GPUs have a
  -- split mode other than "none"; the draft model's context is at most the main one's; and the GPUs,
  -- the context size, the draft model and the keys that are not tuned are those asked for.
  pub repair_until_feasible-IsSound :
      (vram_mib : List ℕ) (c : TunedConfig)
      → leb (budget_of vram_mib (selected_gpus c)) 0 ≡ false
      → HasBatches c
      → Gives (λ d. IsSound d × SameDemand c d) (repair_until_feasible total spread vram_mib c)
  repair_until_feasible-IsSound vram_mib c budget has =
      repair_until_feasible-Gives (λ d. IsSound d × Mends c d) (λ d. IsSound d × SameDemand c d)
        vram_mib c budget (mechanical_repairs-Gives c has)
        λ d log (sound, (same, slots, less)).
          repair_rounds-Holds total spread (λ d. IsSound d × SameDemand c d)
            (λ d (s, m).
              Holds-both IsSound (SameDemand c) (repair_round total spread d)
                (repair_round-IsSound d s) (repair_round-SameDemand c d m))
            15 _ d log (sound, same)
