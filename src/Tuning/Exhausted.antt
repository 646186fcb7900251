-- ===== src/Tuning/Exhausted.antt =====
-- auto_performance.py, `repair_until_feasible`: fifteen rounds are enough on a single GPU.
use mathlib.Core.Path.{subst}
use Prim.Native.String.{String}
use heimdall_gateway.Prelude.{
  ℕ, zero, suc, ◌+◌, ◌*◌, ◌≤◌, ◌≡◌, refl, sym, ◌⊎◌, inl, inr, Bool, true, false, not, ◌&&◌, some,
  List, [], ◌∷◌, ◌++◌, arith, ltb, leb, if◌then◌else◌, Bool-cases, or_else, if_elim, nat_key,
  string_key, length,
}
use heimdall_gateway.Tuning.{
  TunedConfig, Note, quantized_cache, reduced_draft, Repaired, selected_gpus, is_split, ubatch_of,
  parallel_of, draft_context, has_draft, budget_of, Round, changed, stopped, is_quantized,
  halve_parallel, halve_batches, reduce_draft, keep_context, reduce_layers, after_round, rebalance,
  repair_round, fits_in, repair_rounds, repair_until_feasible,
}
use heimdall_gateway.Tuning.Sound.{
  IsSound, HasBatches, Mends, Gives, mechanical_repairs-Gives, repair_until_feasible-Gives,
}

-- no repair of a configuration on a single GPU is left
abbrev pub IsExhausted : TunedConfig → Type 0
IsExhausted c =
    (is_quantized c ≡ true)
    × (parallel_of c ≤ 1)
    × (ubatch_of c ≤ 256)
    × (has_draft c && ltb 1024 (draft_context c) ≡ false)

-- m doubled so many times
abbrev pub doubled : ℕ → ℕ → ℕ
doubled zero m = m
doubled (suc a) m = 2 * doubled a m

doubled-le : (a m : ℕ) → m ≤ doubled a m
doubled-le zero m = omega arith
doubled-le (suc a) m = let shorter = doubled-le a m in omega arith

abbrev cost : Bool → ℕ
cost b = if b then 1 else 0

-- the rounds that a configuration needs at most, when its slots are 2 ^ a and its batches 256 * 2 ^ b
abbrev IsWithin : ℕ → ℕ → ℕ → TunedConfig → Type 0
IsWithin rounds a b c =
    (parallel_of c ≤ doubled a 1)
    × (ubatch_of c ≤ doubled b 256)
    × (cost (not (is_quantized c)) + a + b + cost (ltb 1024 (draft_context c)) ≤ rounds)

abbrev NeedsAtMost : ℕ → TunedConfig → Type 0
NeedsAtMost rounds c = (a : ℕ) × (b : ℕ) × IsWithin rounds a b c

-- a round brings a configuration nearer to the end, or there is no repair left
abbrev Advances : ℕ → TunedConfig → Round → Type 0
Advances rounds c (changed d note) =
    (is_split d ≡ false) × (rest : ℕ) × (rounds ≡ suc rest) × NeedsAtMost rest d
Advances rounds c (stopped notes) = IsExhausted c

halve_parallel-Advances :
    (rounds a b : ℕ) (c : TunedConfig)
    → is_split c ≡ false
    → ltb 1 (parallel_of c) ≡ true
    → IsWithin rounds a b c
    → Advances rounds c (halve_parallel c)
unfolding halve_parallel
halve_parallel-Advances rounds zero b c single e (slots, batches, le) = absurd (ground arith)
halve_parallel-Advances zero (suc a) b c single e (slots, batches, le) = absurd (omega arith)
halve_parallel-Advances (suc rounds) (suc a) b c single e (slots, batches, le) = (
  single,
  rounds,
  refl,
  (a, b, ((let one = doubled-le a 1 in omega arith), batches, omega arith)),
)

halve_batches-Advances :
    (rounds a b : ℕ) (c : TunedConfig)
    → is_split c ≡ false
    → ltb 256 (ubatch_of c) ≡ true
    → IsWithin rounds a b c
    → Advances rounds c (halve_batches c)
unfolding halve_batches
halve_batches-Advances rounds a zero c single e (slots, batches, le) = absurd (ground arith)
halve_batches-Advances zero a (suc b) c single e (slots, batches, le) = absurd (omega arith)
halve_batches-Advances (suc rounds) a (suc b) c single e (slots, batches, le) =
    let least = doubled-le b 256 in
    (single, rounds, refl, (a, b, (slots, ground arith, omega arith)))

quantize-Advances :
    (rounds a b : ℕ) (c : TunedConfig)
    → is_split c ≡ false
    → is_quantized c ≡ false
    → IsWithin rounds a b c
    → Advances rounds c (
        changed
          (record c { cache_type_k = some "q8_0"; cache_type_v = some "q8_0" })
          quantized_cache)
quantize-Advances zero a b c single e (slots, batches, le) = absurd (ground arith)
quantize-Advances (suc rounds) a b c single e (slots, batches, le) =
    (single, rounds, refl, (a, b, (slots, batches, ground arith)))

reduce_draft-Advances :
    (rounds a b : ℕ) (c : TunedConfig)
    → is_split c ≡ false
    → ltb 1024 (draft_context c) ≡ true
    → IsWithin rounds a b c
    → Advances rounds c (changed (record c { ctx_size_draft = some 1024 }) reduced_draft)
reduce_draft-Advances zero a b c single e (slots, batches, le) = absurd (ground arith)
reduce_draft-Advances (suc rounds) a b c single e (slots, batches, le) =
    (single, rounds, refl, (a, b, (slots, batches, ground arith)))

keep_context-Advances :
    (rounds : ℕ) (c : TunedConfig) → IsExhausted c → Advances rounds c (keep_context c)
unfolding keep_context
keep_context-Advances rounds c end =
    if_elim (Advances rounds c) (ltb 2048 (or_else c.ctx_size 8192)) _ _ end end

module _ (total : TunedConfig → ℕ) (spread : String → ℕ → String) where
  rebalance-single :
      (c : TunedConfig) → is_split c ≡ false → rebalance total spread c ≡ keep_context c
  unfolding rebalance reduce_layers
  rebalance-single c single = ground arith

  draft_round-Advances :
      (rounds a b : ℕ) (c : TunedConfig)
      → is_split c ≡ false
      → is_quantized c ≡ true
      → parallel_of c ≤ 1
      → ubatch_of c ≤ 256
      → IsWithin rounds a b c
      → Advances rounds c (if has_draft c then reduce_draft c else rebalance total spread c)
  unfolding reduce_draft
  draft_round-Advances rounds a b c single quantized slots batches left =
      elim (Bool-cases (has_draft c)) [
        | inl draft ↦ elim (Bool-cases (ltb 1024 (draft_context c))) [
          | inl e ↦ rw (draft, e) (reduce_draft-Advances rounds a b c single e left)
          | inr e ↦ rw (draft, e) (quantized, slots, batches, ground arith)
        ]
        | inr none_used ↦
            rw (none_used, rebalance-single c single)
              (keep_context-Advances rounds c (quantized, slots, batches, ground arith))
      ]

  repair_round-Advances :
      (rounds a b : ℕ) (c : TunedConfig)
      → is_split c ≡ false
      → IsWithin rounds a b c
      → Advances rounds c (repair_round total spread c)
  unfolding repair_round
  repair_round-Advances rounds a b c single left = elim (Bool-cases (is_quantized c)) [
    | inr e ↦ rw e (quantize-Advances rounds a b c single e left)
    | inl quantized ↦ elim (Bool-cases (ltb 1 (parallel_of c))) [
      | inl e ↦ rw (quantized, e) (halve_parallel-Advances rounds a b c single e left)
      | inr slots ↦ elim (Bool-cases (ltb 256 (ubatch_of c))) [
        | inl e ↦ rw (quantized, slots, e) (halve_batches-Advances rounds a b c single e left)
        | inr e ↦
            rw (quantized, slots, e)
              (draft_round-Advances rounds a b c single quantized (ground arith) (ground arith)
                left)
      ]
    ]
  ]

  abbrev pub Settles : ℕ → TunedConfig → Type 0
  Settles budget d = (fits_in total spread budget d ≡ true) ⊎ IsExhausted d

  after_round-Settles :
      (rounds budget : ℕ) (c : TunedConfig) (log : List Note) (r : Round)
      (rest : TunedConfig → List Note → Repaired)
      → ((left : ℕ) (d : TunedConfig) (more : List Note)
          → rounds ≡ suc left
          → is_split d ≡ false
          → NeedsAtMost left d
          → Settles budget (rest d more).0)
      → Advances rounds c r
      → Settles budget (after_round rest c log r).0
  after_round-Settles rounds budget c log (changed d note) rest later (single, left, e, more) =
      later left d (log ++ note ∷ []) e single more
  after_round-Settles rounds budget c log (stopped notes) rest later end = inr end

  repair_rounds-Settles :
      (rounds a b budget : ℕ) (c : TunedConfig) (log : List Note)
      → is_split c ≡ false
      → IsWithin rounds a b c
      → Settles budget (repair_rounds total spread rounds budget c log).0
  unfolding repair_rounds
  repair_rounds-Settles zero zero zero budget c log single (slots, batches, le) =
      inr (ground arith, slots, batches, ground arith)
  repair_rounds-Settles zero (suc a) b budget c log single (slots, batches, le) =
      absurd (omega arith)
  repair_rounds-Settles zero zero (suc b) budget c log single (slots, batches, le) =
      absurd (omega arith)
  repair_rounds-Settles (suc rounds) a b budget c log single left =
      elim (Bool-cases (fits_in total spread budget c)) [
        | inl e ↦ rw (repair_rounds, e) (inl e)
        | inr e ↦
            rw (repair_rounds, e)
              (after_round-Settles (suc rounds) budget c log (repair_round total spread c)
                (repair_rounds total spread rounds budget)
                (λ fewer d more same one (a', b', (p, u, le)).
                  repair_rounds-Settles rounds a' b' budget d more one (p, u, omega arith))
                (repair_round-Advances (suc rounds) a b c single left))
      ]

  -- On a single GPU, with a budget, the sizes of both batches set, at most 2 ^ a slots and an
  -- ubatch_size of at most 256 * 2 ^ b, where a + b <= 13, fifteen rounds are enough: the repair gives a
  -- configuration that fits, or one that no repair is left for, with its cache quantized, one slot at
  -- most, an ubatch_size of at most 256, and a draft context of at most 1024 if it has a draft model.
  pub repair_until_feasible-Settles :
      (a b : ℕ) (vram_mib : List ℕ) (c : TunedConfig)
      → leb (budget_of vram_mib (selected_gpus c)) 0 ≡ false
      → HasBatches c
      → is_split c ≡ false
      → parallel_of c ≤ doubled a 1
      → ubatch_of c ≤ doubled b 256
      → a + b ≤ 13
      → Gives
          (Settles (budget_of vram_mib (selected_gpus c)))
          (repair_until_feasible total spread vram_mib c)
  repair_until_feasible-Settles a b vram_mib c budget has single slots batches le =
      repair_until_feasible-Gives total spread (λ d. IsSound d × Mends c d) _ vram_mib c budget
        (mechanical_repairs-Gives c has)
        λ d log (sound, ((gpus, context, draft, others), still, less)).
          let least = doubled-le b 256 in
          repair_rounds-Settles 15 a b _ d log
            (subst (λ g. ltb 1 (length (or_else g (0 ∷ []))) ≡ false) (sym gpus) single)
            (subst (λ p. or_else p 1 ≤ doubled a 1) (sym still) slots, omega arith, ground arith)
