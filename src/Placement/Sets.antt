-- ===== src/Placement/Sets.antt =====
-- cli/replica.py, `_replica_gpu_sets`: which GPUs the replicas get under exclusive placement.
use heimdall_gateway.Prelude.{
  ℕ, zero, suc, ◌+◌, ◌-◌, ◌≤◌, ◌<◌, max, ◌≡◌, refl, inl, inr, Bool, true, not, ◌&&◌, ◌||◌, List, [],
  ◌∷◌, ◌++◌, arith, ltb, leb, nat_eq, if◌then◌else◌, Bool-cases, if_elim, nat_eq_iff, nat_key,
  string_key, length, is_empty, all, filter, take, drop, length-take-le, All, take-All, contains,
}
use heimdall_gateway.Placement.{
  exclusive_gpus, ReplicaCounts, range, owned_gpus, available_gpus, slices, total_gpus, gpus_each,
  replica_gpu_sets,
}

module _ {A : Type 0} where
  all-take : (p : A → Bool) (n : ℕ) (xs : List A) → all p xs ≡ true → all p (take n xs) ≡ true
  unfolding take
  all-take p zero xs holds = refl
  all-take p (suc n) [] holds = refl
  all-take p (suc n) (x ∷ xs) holds = ground (arith, holds, all-take p n xs)

  all-drop : (p : A → Bool) (n : ℕ) (xs : List A) → all p xs ≡ true → all p (drop n xs) ≡ true
  unfolding drop
  all-drop p zero xs holds = holds
  all-drop p (suc n) [] holds = refl
  all-drop p (suc n) (x ∷ xs) holds = all-drop p n xs (ground (arith, holds))

  all-filter :
      (p q : A → Bool) (xs : List A) → all p xs ≡ true → all (λ x. p x && q x) (filter q xs) ≡ true
  all-filter p q [] holds = refl
  all-filter p q (x ∷ xs) holds = ground (arith, holds, all-filter p q xs)

  length-drop-le : (n : ℕ) (xs : List A) → length (drop n xs) ≤ length xs
  unfolding drop
  length-drop-le zero xs = omega arith
  length-drop-le (suc n) [] = omega arith
  length-drop-le (suc n) (x ∷ xs) = omega (arith, length-drop-le n xs)

  length-drop : (n : ℕ) (xs : List A) → 0 < n → length (drop n xs) ≤ length xs - 1
  unfolding drop
  length-drop zero xs positive = ground arith
  length-drop (suc n) [] positive = omega arith
  length-drop (suc n) (x ∷ xs) positive = omega (arith, length-drop-le n xs)

all-range :
    (start count bound : ℕ)
    → start + count ≤ bound
    → all (λ g. ltb g bound) (range start count) ≡ true
unfolding range
all-range start zero bound fits = refl
all-range start (suc count) bound fits = ground (arith, all-range (start + 1) count bound)

-- a set of the size asked for, of GPUs that pass the test
abbrev pub IsGpuSet : ℕ → (ℕ → Bool) → List ℕ → Type 0
IsGpuSet gpr p gpu_set = (length gpu_set ≡ gpr) × (all p gpu_set ≡ true)

slices-All :
    (fuel gpr left : ℕ) (p : ℕ → Bool) (available : List ℕ)
    → all p available ≡ true
    → All (IsGpuSet gpr p) (slices fuel gpr left available)
unfolding slices
slices-All zero gpr left p available passes = tt
slices-All (suc fuel) gpr left p available passes =
    let first = all-take p gpr available passes in
    let rest =
      slices-All fuel gpr (left - 1) p (drop gpr available) (all-drop p gpr available passes) in
    elim (Bool-cases (nat_eq (length (take gpr available)) gpr)) [
      | inl full ↦ if_elim (All (IsGpuSet gpr p)) (is_empty available) _ _ tt (
          rw (full) (
            if_elim (All (IsGpuSet gpr p)) (leb left 1) _ _
              (((nat_eq_iff (length (take gpr available)) gpr).0 full, first), tt)
              (((nat_eq_iff (length (take gpr available)) gpr).0 full, first), rest)))
      | inr short ↦ if_elim (All (IsGpuSet gpr p)) (is_empty available) _ _ tt (rw (short) tt)
    ]

-- a GPU that a replica may get: below the number of those detected, or of those that are taken to be
-- there where none was; not reserved; and not of the base, which has the first ones if none is assigned
abbrev pub is_free_gpu : ReplicaCounts → ℕ → ℕ → List ℕ → List ℕ → ℕ → Bool
is_free_gpu cfg base_gpu_count detected base_gpus reserved g =
    ltb g (if leb detected 0 then max cfg.gpus_per_replica base_gpu_count else detected)
    && not (contains reserved g)
    && (if is_empty base_gpus then leb base_gpu_count g else not (contains base_gpus g))

contains-append :
    (xs ys : List ℕ) (g : ℕ) → contains (xs ++ ys) g ≡ (contains xs g || contains ys g)
contains-append [] ys g = refl
contains-append (x ∷ xs) ys g = ground (arith, contains-append xs ys g)

contains-range :
    (start count g : ℕ) → contains (range start count) g ≡ (leb start g && ltb g (start + count))
unfolding range
contains-range start zero g = ground arith
contains-range start (suc count) g =
    ground (arith, contains-range (start + 1) count g, nat_eq_iff start g)

-- what is below the total and not owned is free
owned-is_free_gpu :
    (cfg : ReplicaCounts) (base_gpu_count detected : ℕ) (base_gpus reserved : List ℕ) (g : ℕ)
    → ltb g (total_gpus cfg base_gpu_count detected)
        && not (contains (owned_gpus base_gpu_count base_gpus reserved) g)
      ≡ true
    → is_free_gpu cfg base_gpu_count detected base_gpus reserved g ≡ true
unfolding total_gpus owned_gpus
owned-is_free_gpu cfg base_gpu_count detected [] reserved g available = ground (
  arith,
  available,
  contains-append (range 0 base_gpu_count) reserved g,
  contains-range 0 base_gpu_count g,
)
owned-is_free_gpu cfg base_gpu_count detected (gpu ∷ gpus) reserved g available =
    ground (arith, available, contains-append (gpu ∷ gpus) reserved g)

all_weaken :
    (p q : ℕ → Bool) (xs : List ℕ)
    → ((g : ℕ) → p g ≡ true → q g ≡ true)
    → all p xs ≡ true
    → all q xs ≡ true
all_weaken p q [] stronger holds = refl
all_weaken p q (x ∷ xs) stronger holds =
    ground (arith, stronger x, holds, all_weaken p q xs stronger)

-- Under exclusive placement every set that a replica gets has as many GPUs as the configuration asks
-- for. Each of them is below the number of GPUs detected (where none is detected, below the larger of
-- the numbers that a replica and the base take), is not reserved, and is none that is assigned to the
-- base, or, where none is assigned, none of the first ones, as many as the base takes. And there are
-- at most as many sets as replicas are allowed.
pub replica_gpu_sets-exclusive :
    (cfg : ReplicaCounts) (base_gpu_count detected : ℕ) (base_gpus reserved : List ℕ)
    → cfg.placement ≡ exclusive_gpus
    → All
        (IsGpuSet
          (gpus_each cfg base_gpu_count)
          (is_free_gpu cfg base_gpu_count detected base_gpus reserved))
        (replica_gpu_sets cfg base_gpu_count detected base_gpus reserved)
      × (length (replica_gpu_sets cfg base_gpu_count detected base_gpus reserved)
          ≤ cfg.max_replicas)
unfolding replica_gpu_sets available_gpus
replica_gpu_sets-exclusive cfg base_gpu_count detected base_gpus reserved exclusive =
    let total = total_gpus cfg base_gpu_count detected in
    let owned = owned_gpus base_gpu_count base_gpus reserved in
    let gpr = gpus_each cfg base_gpu_count in
    let P = IsGpuSet gpr (is_free_gpu cfg base_gpu_count detected base_gpus reserved) in
    let available = available_gpus total owned in
    let cut = slices (length available) gpr cfg.max_replicas available in
    let sets =
      slices-All (length available) gpr cfg.max_replicas
        (is_free_gpu cfg base_gpu_count detected base_gpus reserved) available
        (all_weaken _ _ available (owned-is_free_gpu cfg base_gpu_count detected base_gpus reserved)
          (all-filter (λ g. ltb g total) (λ g. not (contains owned g)) (range 0 total)
            (all-range 0 total total (omega arith)))) in
    rw (exclusive) (
      if_elim (All P) (not cfg.enabled || leb cfg.max_replicas 0) [] (take cfg.max_replicas cut) tt
          (take-All P cfg.max_replicas cut sets),
      if_elim (λ xs. length xs ≤ cfg.max_replicas) (not cfg.enabled || leb cfg.max_replicas 0) []
          (take cfg.max_replicas cut) (omega arith) (length-take-le cfg.max_replicas cut),
    )

-- One slice more than there are GPUs changes nothing: the fuel is enough.
slices-fuel :
    (fuel gpr left : ℕ) (available : List ℕ)
    → 0 < gpr
    → length available ≤ fuel
    → slices (suc fuel) gpr left available ≡ slices fuel gpr left available
unfolding slices
slices-fuel zero gpr left [] positive enough = refl
slices-fuel zero gpr left (x ∷ xs) positive enough = ground arith
slices-fuel (suc fuel) gpr left available positive enough =
    ground (arith, length-drop gpr available, slices-fuel fuel gpr (left - 1) (drop gpr available))
