-- ===== src/Tuning/Kept.antt =====
-- auto_performance.py, `repair_until_feasible`: what no repair changes.
use Prim.Native.String.{String}
use heimdall_gateway.Prelude.{
  ℕ, zero, suc, ◌≡◌, refl, inl, inr, true, not, ◌&&◌, some, List, [], ◌∷◌, ◌++◌, ltb, Bool-cases,
  or_else, if_elim, ◌==◌, nat_key, string_key,
}
use heimdall_gateway.Value.{text}
use heimdall_gateway.Tuning.{
  TunedConfig, Note, Repaired, is_split, ubatch_of, parallel_of, draft_context, has_draft, Round,
  changed, stopped, is_quantized, halve_parallel, halve_batches, reduce_draft, keep_context,
  may_reduce_layers, reduce_layers, after_round, rebalance, repair_round, fits_in, repair_rounds,
}

-- a property of the configuration that a round gives, if it gives one
abbrev pub Holds : (TunedConfig → Type 0) → Round → Type 0
Holds P (changed c note) = P c
Holds P (stopped notes) = Unit

pub Holds-both :
    (P Q : TunedConfig → Type 0) (r : Round) → Holds P r → Holds Q r → Holds (λ d. P d × Q d) r
Holds-both P Q (changed c note) p q = (p, q)
Holds-both P Q (stopped notes) p q = tt

-- the same GPUs, context size, draft model and other settings
abbrev pub SameDemand : TunedConfig → TunedConfig → Type 0
SameDemand c d =
    (d.gpu_set ≡ c.gpu_set)
    × (d.ctx_size ≡ c.ctx_size)
    × (d.model_draft ≡ c.model_draft)
    × (d.others ≡ c.others)

pub SameDemand-refl : (c : TunedConfig) → SameDemand c c
SameDemand-refl c = (refl, refl, refl, refl)

keep_context-Holds : (P : TunedConfig → Type 0) (c : TunedConfig) → Holds P (keep_context c)
unfolding keep_context
keep_context-Holds P c = if_elim (Holds P) (ltb 2048 (or_else c.ctx_size 8192)) _ _ tt tt

reduce_draft-Holds :
    (P : TunedConfig → Type 0) (c : TunedConfig)
    → (ltb 1024 (draft_context c) ≡ true → P (record c { ctx_size_draft = some 1024 }))
    → Holds P (reduce_draft c)
unfolding reduce_draft
reduce_draft-Holds P c draft = elim (Bool-cases (ltb 1024 (draft_context c))) [
  | inl e ↦ rw e (draft e)
  | inr e ↦ rw e tt
]

-- a property that every change of a round has
pub repair_round-Holds :
    (total : TunedConfig → ℕ) (spread : String → ℕ → String) (P : TunedConfig → Type 0)
    (c : TunedConfig)
    → P (record c { cache_type_k = some "q8_0"; cache_type_v = some "q8_0" })
    → Holds P (halve_parallel c)
    → (ltb 256 (ubatch_of c) ≡ true → Holds P (halve_batches c))
    → (ltb 1024 (draft_context c) ≡ true → P (record c { ctx_size_draft = some 1024 }))
    → ((split : String) → P (record c { tensor_split = some split }))
    → P (record c { n_gpu_layers = some (text "auto") })
    → Holds P (repair_round total spread c)
unfolding repair_round rebalance reduce_layers reduce_draft
repair_round-Holds total spread P c cached slots batches draft split layers =
    if_elim (Holds P) (not (is_quantized c)) _ _ cached (
      if_elim (Holds P) (ltb 1 (parallel_of c)) _ _ slots
        (elim (Bool-cases (ltb 256 (ubatch_of c))) [
          | inl e ↦ rw e (batches e)
          | inr e ↦ rw e (
              if_elim (Holds P) (has_draft c) _ _ (reduce_draft-Holds P c draft) (
                if_elim (Holds P) (is_split c && not (spread _ _ == _)) _ _ (split _)
                  (if_elim (Holds P) (may_reduce_layers c) _ _ layers (keep_context-Holds P c))))
        ]))

after_round-Holds :
    (P : TunedConfig → Type 0) (rest : TunedConfig → List Note → Repaired) (c : TunedConfig)
    (log : List Note) (r : Round)
    → ((d : TunedConfig) (more : List Note) → P d → P (rest d more).0)
    → P c
    → Holds P r
    → P (after_round rest c log r).0
after_round-Holds P rest c log (changed d note) kept p holds = kept d (log ++ note ∷ []) holds
after_round-Holds P rest c log (stopped notes) kept p holds = p

module _ (total : TunedConfig → ℕ) (spread : String → ℕ → String) where
  -- a property that every round keeps holds after the loop
  pub repair_rounds-Holds :
      (P : TunedConfig → Type 0)
      → ((c : TunedConfig) → P c → Holds P (repair_round total spread c))
      → (rounds budget : ℕ) (c : TunedConfig) (log : List Note) → P c
      → P (repair_rounds total spread rounds budget c log).0
  unfolding repair_rounds
  repair_rounds-Holds P kept zero budget c log p = p
  repair_rounds-Holds P kept (suc rounds) budget c log p =
      if_elim (λ (end : Repaired). P end.0) (fits_in total spread budget c) _ _ p
        (after_round-Holds P (repair_rounds total spread rounds budget) c log
          (repair_round total spread c) (repair_rounds-Holds P kept rounds budget) p (kept c p))
