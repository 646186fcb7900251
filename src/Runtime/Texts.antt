-- ===== src/Runtime/Texts.antt =====
-- _cli_impl.py: the messages of `plan_runtime_placement`, and the amounts they name. `show` writes a number.
use Prim.Native.String.{◌++◌ as ◌+++◌}
use heimdall_gateway.Prelude.{ℕ, ◌-◌, String, Option, none, some, nat_key, string_key}
use heimdall_gateway.Router.State.{ReplicaRouterState}
use heimdall_gateway.Router.Requests.{in_flight_of}
use heimdall_gateway.Runtime.{Occupant}

abbrev pub placement_safety_vram_mib : ℕ
placement_safety_vram_mib = 2048

abbrev pub placement_per_gpu_overhead_mib : ℕ
placement_per_gpu_overhead_mib = 1024

module _ (show : ℕ → String) where
  unfoldable pub held_text : ReplicaRouterState → Occupant → ℕ → String
  unfolding in_flight_of
  held_text s entry occupied =
      show occupied
      +++ (" MiB is held by '"
          +++ (entry.instance_id
              +++ ("' (pid "
                  +++ (show entry.pid
                      +++ (", "
                          +++ (show (in_flight_of s entry.instance_id)
                              +++ " requests in flight)"))))))

  unfoldable pub need_text : ℕ → ℕ → String
  need_text required needed =
      show required
      +++ (" MiB there ("
          +++ (show needed
              +++ (" estimated + "
                  +++ (show placement_per_gpu_overhead_mib
                      +++ (" per-GPU + " +++ (show placement_safety_vram_mib +++ " safety)"))))))

  unfoldable pub wait_text : Occupant → String
  wait_text entry =
      "Wait for '"
      +++ (entry.instance_id
          +++ ("' to finish, or run 'llm-server unload "
              +++ (entry.instance_id +++ "' to free the card.")))

  -- what a refusal adds on the other GPUs
  unfoldable pub detail_text : String → Occupant → Option (ℕ × ℕ) → ℕ → ℕ → String
  unfolding need_text wait_text
  detail_text model_name entry none required needed =
      "Needs " +++ (show required +++ (" MiB and no other GPU is free. " +++ wait_text entry))
  detail_text model_name entry (some (gpu, free)) required needed =
      "GPU "
      +++ (show gpu
          +++ (" has "
              +++ (show free
                  +++ (" MiB free but '"
                      +++ (model_name
                          +++ ("' needs "
                              +++ (need_text required needed
                                  +++ (" - short by "
                                      +++ (show (required - free)
                                          +++ (" MiB. " +++ wait_text entry))))))))))

  unfoldable pub reject_text : String → ℕ → String → String → String
  reject_text model_name pin held detail =
      "Cannot load model '"
      +++ (model_name
          +++ ("': its pinned GPU "
              +++ (show pin +++ (" holds " +++ (held +++ (". " +++ detail))))))

  unfoldable pub pin_text : String → ℕ → String → String → String
  pin_text model_name pin held need =
      "Cannot load model '"
      +++ (model_name
          +++ ("' on its pinned GPU "
              +++ (show pin
                  +++ (": " +++ (held +++ (", and the model needs " +++ (need +++ ". ")))))))

  unfoldable pub repin_text : ℕ → ℕ → String → String
  repin_text gpu free instance =
      "GPU "
      +++ (show gpu
          +++ (" has "
              +++ (show free
                  +++ (" MiB free, which is enough. Moved the model to GPU "
                      +++ (show gpu +++ (" instead of unloading '" +++ (instance +++ "'.")))))))

  unfoldable pub retire_text : String → String
  retire_text instance = "Unloaded idle '" +++ (instance +++ "' to free the card.")
