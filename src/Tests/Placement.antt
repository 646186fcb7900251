-- ===== src/Tests/Placement.antt =====
-- The placement of replicas at concrete inputs: five GPUs, two for a replica, the base on GPU 0.
use heimdall_gateway.Prelude.{
  ℕ, zero, suc, ◌≤◌, String, ◌≡◌, refl, true, [], ◌∷◌, nat_key, string_key, length, take, drop, All,
}
use heimdall_gateway.Placement.{
  exclusive_gpus, other_placement, ReplicaCounts, range, owned_gpus, available_gpus, slices,
  wrapped, is_distinct, shared_sets, total_gpus, gpus_each, replica_gpu_sets, reserved_base_gpus,
}
use heimdall_gateway.Placement.Sets.{IsGpuSet, is_free_gpu, replica_gpu_sets-exclusive}

abbrev counts : ReplicaCounts
counts = record {
  enabled = true;
  max_replicas = 3;
  gpus_per_replica = 2;
  placement = exclusive_gpus;
}

two_sets : replica_gpu_sets counts 1 5 [] (3 ∷ []) ≡ (1 ∷ 2 ∷ []) ∷ []
unfolding replica_gpu_sets total_gpus owned_gpus available_gpus slices range take drop
two_sets = refl

shared :
    replica_gpu_sets (record counts { placement = other_placement }) 1 5 [] []
    ≡ (0 ∷ 1 ∷ []) ∷ (2 ∷ 3 ∷ []) ∷ (4 ∷ 0 ∷ []) ∷ []
unfolding replica_gpu_sets total_gpus shared_sets wrapped is_distinct range take
shared = refl

others : reserved_base_gpus "m" (("m", 0 ∷ []) ∷ ("n", 1 ∷ []) ∷ []) ≡ 1 ∷ []
unfolding reserved_base_gpus
others = refl

replica_gpu_sets-exclusive_example :
    All
      (IsGpuSet (gpus_each counts 1) (is_free_gpu counts 1 5 [] (3 ∷ [])))
      (replica_gpu_sets counts 1 5 [] (3 ∷ []))
    × (length (replica_gpu_sets counts 1 5 [] (3 ∷ [])) ≤ 3)
replica_gpu_sets-exclusive_example = replica_gpu_sets-exclusive counts 1 5 [] (3 ∷ []) refl

abbrev show_digit : ℕ → String
show_digit zero = "0"
show_digit (suc n) = "1"
