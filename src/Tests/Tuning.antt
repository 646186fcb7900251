-- ===== src/Tests/Tuning.antt =====
-- Repairs at a concrete input: one GPU of 24000 MiB, four slots, batches of 2048 and 4096.
use heimdall_gateway.Prelude.{
  ℕ, ◌+◌, ◌*◌, String, ◌≡◌, refl, false, Option, none, some, [], ◌∷◌, arith, leb, nat_key,
  string_key,
}
use heimdall_gateway.Value.{text}
use heimdall_gateway.Tuning.{
  TunedConfig, Repaired, selected_gpus, ubatch_of, batch_of, parallel_of, memory_at, budget_of,
  raise_ubatch, cap_at, cap_ubatch, split_layers, cap_draft, mechanical_repairs, halve_parallel,
  halve_batches, repair_round, repair_rounds, repair_until_feasible,
}
use heimdall_gateway.Tuning.Kept.{SameDemand}
use heimdall_gateway.Tuning.Sound.{IsSound, Gives, repair_until_feasible-IsSound}
use heimdall_gateway.Tuning.Exhausted.{Settles, repair_until_feasible-Settles}

abbrev asked : TunedConfig
asked = record {
  gpu_set = some (0 ∷ []);
  ubatch_size = some 4096;
  batch_size = some 2048;
  split_mode = none;
  model_draft = some "draft.gguf";
  ctx_size = some 32768;
  ctx_size_draft = some 65536;
  cache_type_k = some "f16";
  cache_type_v = some "f16";
  parallel = some 4;
  tensor_split = none;
  n_gpu_layers = some (text "all");
  others = [];
}

-- an estimate that grows with the slots and the smaller batches
abbrev estimate : TunedConfig → ℕ
estimate c = 20000 + parallel_of c * 1500 + ubatch_of c

abbrev unchanged : String → ℕ → String
unchanged weights gpus = weights

-- the slots and batches of a result
abbrev sizes : Option Repaired → Option (ℕ × ℕ × ℕ)
sizes none = none
sizes (some (d, log)) = some (parallel_of d, ubatch_of d, batch_of d)

repaired_sizes :
    sizes (repair_until_feasible estimate unchanged (24000 ∷ []) asked) ≡ some (1, 1024, 1024)
unfolding repair_until_feasible repair_rounds repair_round mechanical_repairs budget_of memory_at
    raise_ubatch cap_ubatch cap_at split_layers cap_draft halve_parallel halve_batches
repaired_sizes = refl

budget_left : leb (budget_of (24000 ∷ []) (selected_gpus asked)) 0 ≡ false
unfolding budget_of memory_at
budget_left = refl

repair_until_feasible-IsSound_example :
    Gives
      (λ d. IsSound d × SameDemand asked d)
      (repair_until_feasible estimate unchanged (24000 ∷ []) asked)
repair_until_feasible-IsSound_example =
    repair_until_feasible-IsSound estimate unchanged (24000 ∷ []) asked budget_left (refl, refl)

repair_until_feasible-Settles_example :
    Gives
      (Settles estimate unchanged (budget_of (24000 ∷ []) (selected_gpus asked)))
      (repair_until_feasible estimate unchanged (24000 ∷ []) asked)
repair_until_feasible-Settles_example =
    repair_until_feasible-Settles estimate unchanged 2 4 (24000 ∷ []) asked budget_left (refl, refl)
      refl (omega arith) (omega arith) (omega arith)
