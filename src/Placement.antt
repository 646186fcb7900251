-- ===== src/Placement.antt =====
-- cli/replica.py: the GPUs of a model and of its replicas, and the CUDA_VISIBLE_DEVICES prefix of a
-- command. The counts of a ReplicaConfig are not negative here; `base_gpu_count` is
-- _infer_base_gpu_count(model), `detected` the number of CUDA devices.
pub mod Sets
pub mod Prefix
use Prim.Native.String.{◌++◌ as ◌+++◌}
use heimdall_gateway.Prelude.{
  ℕ, zero, suc, ◌+◌, ◌-◌, ◌*◌, ◌%◌, max, String, Bool, true, not, ◌&&◌, ◌||◌, List, [], ◌∷◌, ◌++◌,
  map, leb, nat_eq, if◌then◌else◌, ◌==◌, nat_key, string_key, length, is_empty, filter, take, drop,
  contains,
}
use heimdall_gateway.Dict.{Dict}
use heimdall_gateway.Prelude.Text.{codes, has_prefix}

pub data PlacementKind : Type 0 where
  exclusive_gpus other_placement : PlacementKind

-- what is read of a ReplicaConfig
pub record ReplicaCounts : Type 0 where
  pub enabled : Bool
  pub max_replicas : ℕ
  pub gpus_per_replica : ℕ
  pub placement : PlacementKind

-- list(range(start, start + count))
unfoldable pub range : ℕ → ℕ → List ℕ
range start zero = []
range start (suc count) = start ∷ range (start + 1) count

-- owned, for exclusive placement: `base_gpus` is empty where none is assigned
unfoldable pub owned_gpus : ℕ → List ℕ → List ℕ → List ℕ
unfolding range
owned_gpus base_gpu_count base_gpus reserved =
    (if is_empty base_gpus then range 0 base_gpu_count else base_gpus) ++ reserved

unfoldable pub available_gpus : ℕ → List ℕ → List ℕ
unfolding range
available_gpus total owned = filter (λ gpu. not (contains owned gpu)) (range 0 total)

-- the loop over the slices of gpr GPUs, until `left` sets are there
unfoldable pub slices : ℕ → ℕ → ℕ → List ℕ → List (List ℕ)
unfolding take drop
slices zero gpr left available = []
slices (suc fuel) gpr left available =
    let gpu_set = take gpr available in
    let rest = slices fuel gpr (left - 1) (drop gpr available) in
    if is_empty available
    then []
    else if not (nat_eq (length gpu_set) gpr)
    then []
    else if leb left 1
    then gpu_set ∷ []
    else gpu_set ∷ rest

-- the GPUs (start + off) % total, for off below gpr; `total` is not 0
unfoldable pub wrapped : ℕ → ℕ → List ℕ → List ℕ
wrapped start total [] = []
wrapped start total (off ∷ offs) = (start + off) % total ∷ wrapped start total offs

-- len(set(items)) == len(items)
unfoldable pub is_distinct : List ℕ → Bool
is_distinct [] = true
is_distinct (x ∷ xs) = not (contains xs x) && is_distinct xs

unfoldable pub shared_sets : ℕ → ℕ → List ℕ → List (List ℕ)
unfolding wrapped is_distinct range
shared_sets gpr total [] = []
shared_sets gpr total (idx ∷ idxs) =
    let rest = shared_sets gpr total idxs in
    let gpu_set = wrapped ((idx * gpr) % total) total (range 0 gpr) in
    if nat_eq gpr 1
    then (idx % total ∷ []) ∷ rest
    else if is_distinct gpu_set
    then gpu_set ∷ rest
    else rest

-- x or y
abbrev pub or_number : ℕ → ℕ → ℕ
or_number zero y = y
or_number (suc x) y = suc x

unfoldable pub total_gpus : ReplicaCounts → ℕ → ℕ → ℕ
total_gpus cfg base_gpu_count detected =
    if leb detected 0 then max cfg.gpus_per_replica base_gpu_count else detected

abbrev pub gpus_each : ReplicaCounts → ℕ → ℕ
gpus_each cfg base_gpu_count = max 1 (or_number cfg.gpus_per_replica base_gpu_count)

unfoldable pub replica_gpu_sets : ReplicaCounts → ℕ → ℕ → List ℕ → List ℕ → List (List ℕ)
unfolding total_gpus owned_gpus available_gpus slices shared_sets
replica_gpu_sets cfg base_gpu_count detected base_gpus reserved =
    let total = total_gpus cfg base_gpu_count detected in
    let gpr = gpus_each cfg base_gpu_count in
    let available = available_gpus total (owned_gpus base_gpu_count base_gpus reserved) in
    if not cfg.enabled || leb cfg.max_replicas 0
    then []
    else take cfg.max_replicas (elim cfg.placement [
      | exclusive_gpus ↦ slices (length available) gpr cfg.max_replicas available
      | other_placement ↦ shared_sets gpr total (range 0 cfg.max_replicas)
    ])

-- the GPUs of the other models' bases, of what `cached_model_gpu_sets` assigns
unfoldable pub reserved_base_gpus : String → Dict String (List ℕ) → List ℕ
reserved_base_gpus model_id [] = []
reserved_base_gpus model_id ((other_id, gpus) ∷ assignment) =
    let rest = reserved_base_gpus model_id assignment in
    if other_id == model_id then rest else gpus ++ rest

abbrev pub env_path : String
env_path = "/usr/bin/env"

-- out[0] == "/usr/bin/env" and out[1].startswith("CUDA_VISIBLE_DEVICES=")
unfoldable pub is_pinned : String → String → Bool
unfolding has_prefix
is_pinned first second =
    first == env_path && has_prefix (codes "CUDA_VISIBLE_DEVICES=") (codes second)

unfoldable pub strip_cuda_visible_devices : List String → List String
unfolding is_pinned
strip_cuda_visible_devices [] = []
strip_cuda_visible_devices (first ∷ []) = first ∷ []
strip_cuda_visible_devices (first ∷ second ∷ cmd) =
    let rest = strip_cuda_visible_devices cmd in
    if is_pinned first second then rest else first ∷ second ∷ cmd

-- ','.join(items)
unfoldable pub join_commas : List String → String
join_commas [] = ""
join_commas (x ∷ []) = x
join_commas (x ∷ y ∷ xs) = x +++ ("," +++ join_commas (y ∷ xs))

-- `show` is str() of a number
module _ (show : ℕ → String) where
  unfoldable pub command_with_cuda_visible_devices : List String → List ℕ → List String
  unfolding join_commas
  command_with_cuda_visible_devices cmd [] = cmd
  command_with_cuda_visible_devices cmd (gpu ∷ gpus) =
      env_path ∷ ("CUDA_VISIBLE_DEVICES=" +++ join_commas (map show (gpu ∷ gpus))) ∷ cmd

  unfoldable pub set_cuda_visible_devices : List String → List ℕ → List String
  unfolding strip_cuda_visible_devices command_with_cuda_visible_devices
  set_cuda_visible_devices cmd gpus =
      let bare = strip_cuda_visible_devices cmd in
      if is_empty gpus then bare else command_with_cuda_visible_devices bare gpus
