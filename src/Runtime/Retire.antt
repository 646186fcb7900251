-- ===== src/Runtime/Retire.antt =====
-- _cli_impl.py: `retire_idle_occupants`, and the calls that it makes.
use Prim.Native.String.{String}
use heimdall_gateway.Prelude.{
  ℕ, Bool, false, List, [], ◌∷◌, if◌then◌else◌, or_else, nat_key, string_key, any,
}
use heimdall_gateway.Dict.{get}
use heimdall_gateway.Router.State.{ReplicaRouterState}
use heimdall_gateway.Runtime.{Host, Occupant, gpu_occupants}
use heimdall_gateway.Runtime.Plan.{PlacementPlan, is_busy}

-- the instances that `unload_replica_via_llamaswap` is called with, in turn
unfoldable pub instances_to_unload : ReplicaRouterState → List Occupant → List String
unfolding is_busy
instances_to_unload s [] = []
instances_to_unload s (entry ∷ entries) =
    let rest = instances_to_unload s entries in
    if is_busy s entry then rest else entry.instance_id ∷ rest

-- what is unloaded on the first of the pinned GPUs, and whether anything was; `unloads` is the answer
-- of llama-swap to one such call
unfoldable pub retire_on :
    (String → Bool) → Host → List ℕ → String → ReplicaRouterState → List String × Bool
unfolding instances_to_unload gpu_occupants
retire_on unloads host [] model_name s = ([], false)
retire_on unloads host (pin ∷ pinned) model_name s =
    let asked = instances_to_unload s (or_else (get (gpu_occupants host s model_name) pin) []) in
    (asked, any unloads asked)

unfoldable pub retire_idle_occupants :
    (String → Bool) → Host → PlacementPlan → String → ReplicaRouterState → List String × Bool
unfolding retire_on
retire_idle_occupants unloads host plan model_name s =
    retire_on unloads host plan.pinned model_name s
