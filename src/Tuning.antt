-- ===== src/Tuning.antt =====
-- auto_performance.py: `repair_until_feasible`, which changes a configuration until it fits in the
-- memory of its GPUs. `total` is the estimate of `_estimate_vram_breakdown` in MiB, `spread` is
-- `_spread_tensor_split`. A key that is absent is `none`; reading it by `[]` raises, and the result
-- is `none`.
pub mod Sound
pub mod Kept
pub mod Exhausted
use heimdall_gateway.Prelude.{◌>>=◌}
use Prim.Native.String.{String}
use heimdall_gateway.Prelude.{
  ℕ, zero, suc, ◌+◌, ◌*◌, ◌/◌, max, Bool, false, not, ◌&&◌, Option, none, some, List, [], ◌∷◌, ◌++◌,
  ltb, leb, if◌then◌else◌, or_else, ◌==◌, nat_key, string_key, length,
}
use heimdall_gateway.Value.{Value, text, Object}

-- the keys of a configuration that the repair reads, and the others
pub record TunedConfig : Type 0 where
  pub gpu_set : Option (List ℕ)
  pub ubatch_size : Option ℕ
  pub batch_size : Option ℕ
  pub split_mode : Option String
  pub model_draft : Option String
  pub ctx_size : Option ℕ
  pub ctx_size_draft : Option ℕ
  pub cache_type_k : Option String
  pub cache_type_v : Option String
  pub parallel : Option ℕ
  pub tensor_split : Option String
  pub n_gpu_layers : Option Value
  pub others : Object

-- an entry of `repair_log`
pub data Note : Type 0 where
  no_budget : Note
  raised_ubatch : Note
  capped_ubatch : ℕ → ℕ → Note
  split_by_layer : Note
  capped_draft : ℕ → ℕ → Note
  quantized_cache : Note
  reduced_parallel : ℕ → Note
  reduced_batches : ℕ → ℕ → Note
  reduced_draft : Note
  draft_infeasible : Note
  rebalanced : String → String → Note
  reduced_layers : Note
  kept_context : ℕ → Note

abbrev pub Repaired : Type 0
Repaired = TunedConfig × List Note

-- `config.get(key) == word`
abbrev pub holds_word : String → Option String → Bool
holds_word word none = false
holds_word word (some s) = s == word

abbrev pub holds_text : String → Option Value → Bool
holds_text word (some (text s)) = s == word
holds_text word v = false

abbrev pub selected_gpus : TunedConfig → List ℕ
selected_gpus c = or_else c.gpu_set (0 ∷ [])

abbrev pub is_split : TunedConfig → Bool
is_split c = ltb 1 (length (selected_gpus c))

abbrev pub ubatch_of : TunedConfig → ℕ
ubatch_of c = or_else c.ubatch_size 512

abbrev pub batch_of : TunedConfig → ℕ
batch_of c = or_else c.batch_size 2048

abbrev pub parallel_of : TunedConfig → ℕ
parallel_of c = or_else c.parallel 1

abbrev pub draft_context : TunedConfig → ℕ
draft_context c = or_else c.ctx_size_draft 2048

-- `bool(config.get("model_draft"))`
abbrev pub has_draft : TunedConfig → Bool
has_draft c = not (or_else c.model_draft "" == "")

-- `vram_mib_list[i]`, nothing out of range
unfoldable pub memory_at : List ℕ → ℕ → ℕ
memory_at [] i = 0
memory_at (m ∷ memory) zero = m
memory_at (m ∷ memory) (suc i) = memory_at memory i

unfoldable pub budget_of : List ℕ → List ℕ → ℕ
unfolding memory_at
budget_of memory [] = 0
budget_of memory (gpu ∷ gpus) = memory_at memory gpu + budget_of memory gpus

-- phase 0, in the order of its tests
unfoldable pub raise_ubatch : TunedConfig → Repaired
raise_ubatch c =
    if ltb (ubatch_of c) 256
    then (record c { ubatch_size = some 256 }, raised_ubatch ∷ [])
    else (c, [])

unfoldable pub cap_at : Option ℕ → Option ℕ → TunedConfig → List Note → Option Repaired
cap_at (some ubatch) (some batch) c log =
    some (record c { ubatch_size = some batch }, log ++ capped_ubatch ubatch batch ∷ [])
cap_at ubatch batch c log = none

unfoldable pub cap_ubatch : Repaired → Option Repaired
unfolding cap_at
cap_ubatch (c, log) =
    if ltb (batch_of c) (ubatch_of c)
    then cap_at c.ubatch_size c.batch_size c log
    else some (c, log)

unfoldable pub split_layers : Repaired → Repaired
split_layers (c, log) =
    if is_split c && holds_word "none" c.split_mode
    then (record c { split_mode = some "layer" }, log ++ split_by_layer ∷ [])
    else (c, log)

unfoldable pub cap_draft : Repaired → Repaired
cap_draft (c, log) =
    let main_ctx = or_else c.ctx_size 2048 in
    if has_draft c && ltb main_ctx (draft_context c)
    then (
      record c { ctx_size_draft = some main_ctx },
      log ++ capped_draft (draft_context c) main_ctx ∷ [],
    )
    else (c, log)

unfoldable pub mechanical_repairs : TunedConfig → Option Repaired
unfolding raise_ubatch cap_ubatch split_layers cap_draft
mechanical_repairs c = do
  capped ← cap_ubatch (raise_ubatch c)
  some (cap_draft (split_layers capped))

-- how a round ends when the configuration does not fit: with a change, or with `break`
pub data Round : Type 0 where
  changed : TunedConfig → Note → Round
  stopped : List Note → Round

abbrev pub is_quantized : TunedConfig → Bool
is_quantized c = holds_word "q8_0" c.cache_type_k && holds_word "q8_0" c.cache_type_v

-- step 2
unfoldable pub halve_parallel : TunedConfig → Round
halve_parallel c =
    let slots = max 1 (parallel_of c / 2) in
    changed (record c { parallel = some slots }) (reduced_parallel slots)

-- step 3
unfoldable pub halve_batches : TunedConfig → Round
halve_batches c =
    let ubatch = (if ltb (ubatch_of c / 2) 256 then 256 else ubatch_of c / 2) in
    let batch = max ubatch (batch_of c / 2) in
    changed (record c { ubatch_size = some ubatch; batch_size = some batch })
      (reduced_batches batch ubatch)

-- step 4
unfoldable pub reduce_draft : TunedConfig → Round
reduce_draft c =
    if ltb 1024 (draft_context c)
    then changed (record c { ctx_size_draft = some 1024 }) reduced_draft
    else stopped (draft_infeasible ∷ [])

-- step 7, with CTX_SIZE_POLICY = "never_decrease"
unfoldable pub keep_context : TunedConfig → Round
keep_context c =
    let current_ctx = or_else c.ctx_size 8192 in
    if ltb 2048 current_ctx then stopped (kept_context current_ctx ∷ []) else stopped []

abbrev pub may_reduce_layers : TunedConfig → Bool
may_reduce_layers c =
    holds_text "all" c.n_gpu_layers && is_split c && leb (parallel_of c) 2 && leb (ubatch_of c) 256

-- step 6
unfoldable pub reduce_layers : TunedConfig → Round
unfolding keep_context
reduce_layers c =
    if may_reduce_layers c
    then changed (record c { n_gpu_layers = some (text "auto") }) reduced_layers
    else keep_context c

-- `continue` or `break`, with what the rounds that are left do
abbrev pub after_round :
    (TunedConfig → List Note → Repaired) → TunedConfig → List Note → Round → Repaired
after_round rest c log (changed d note) = rest d (log ++ note ∷ [])
after_round rest c log (stopped notes) = (c, log ++ notes)

module _ (total : TunedConfig → ℕ) (spread : String → ℕ → String) where
  -- step 5
  unfoldable pub rebalance : TunedConfig → Round
  unfolding reduce_layers
  rebalance c =
      let current = or_else c.tensor_split "1" in
      let new = spread current (length (selected_gpus c)) in
      if is_split c && not (new == current)
      then changed (record c { tensor_split = some new }) (rebalanced current new)
      else reduce_layers c

  -- steps 1 to 7
  unfoldable pub repair_round : TunedConfig → Round
  unfolding halve_parallel halve_batches reduce_draft rebalance
  repair_round c =
      if not (is_quantized c)
      then changed (record c { cache_type_k = some "q8_0"; cache_type_v = some "q8_0" })
          quantized_cache
      else if ltb 1 (parallel_of c)
      then halve_parallel c
      else if ltb 256 (ubatch_of c)
      then halve_batches c
      else if has_draft c
      then reduce_draft c
      else rebalance c

  -- `total_needed <= budget * VRAM_ZONES["amber"]`
  abbrev pub fits_in : ℕ → TunedConfig → Bool
  fits_in budget c = leb (total c * 100) (budget * 95)

  -- the loop, for so many rounds
  unfoldable pub repair_rounds : ℕ → ℕ → TunedConfig → List Note → Repaired
  unfolding repair_round
  repair_rounds zero budget c log = (c, log)
  repair_rounds (suc rounds) budget c log =
      if fits_in budget c
      then (c, log)
      else after_round (repair_rounds rounds budget) c log (repair_round c)

  unfoldable pub repair_until_feasible : List ℕ → TunedConfig → Option Repaired
  unfolding budget_of mechanical_repairs repair_rounds
  repair_until_feasible vram_mib c =
      let budget = budget_of vram_mib (selected_gpus c) in
      if leb budget 0
      then some (c, no_budget ∷ [])
      else do (repaired, log) ← mechanical_repairs c; some (repair_rounds 15 budget repaired log)
