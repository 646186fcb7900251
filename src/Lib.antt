-- ===== src/Lib.antt =====
-- Verification of Heimdall Gateway: routing, placement and what stands around them.
--
-- The gateway stands before llama-swap and its llama.cpp servers. A model has a base and may have
-- replicas on other GPUs. The parts modelled here decide where a request goes, what is shared, which
-- models make room, and what a request looks like when it arrives:
--
-- * Policy (llamacpp_stack/cli/replica_policy.py). Policy.Faults: whose fault a failed request is
--   (is_target_fatal, fault_from_status, fault_from_exception). Policy.Targets: TargetHealth and
--   its tests. Policy.Config: AffinityConfig and normalize_affinity_config. Policy.Transfer:
--   AffinityPolicy.decide, allow_transfer and record_transfer. Policy.Probe: probe_target_health.
-- * Router (llamacpp_stack/_cli_impl.py, ReplicaRouterState). Router.State: ReplicaRecord and the
--   fields. Router.Binding: bind and owner_of, with Ownership and Budget about who owns a
--   conversation and how often it moves. Router.Prune: prune, bind_response, response_replica.
--   Router.Requests: request_started, request_finished, base_load, instance_in_flight.
--   Router.Claims: claim_loading and release_loading_claim. Router.Overrides: note_gpu_demand,
--   demanded_gpus, claim_gpu_override, live_gpu_override. Router.Writes: _claim_placement_write.
--   Router.Sync: sync_replica_runtime_state, which reads the processes that run; Found and Counts
--   are about it. Router.Limit: _reject_if_concurrent_limit_exceeded. Router.Steps: the sections
--   that run under the lock as a step relation, with Loads and Counts about the requests that a
--   target serves, Ledgers, Budgets and Measured about transfers and measurements, Runs
--   about several steps in a row, and Selected about select_replica_for_request as such a run.
--   Router.Health: health_of, with Evidence about what it measures. Router.Conflicts:
--   replica_base_model_id, _matrix_models_conflict, blocking_conflicting_load. Router.Admission:
--   reject_if_model_loading_request. Router.Selection: _find_affinity_spillover_candidate and
--   select_replica_for_request; Owned and Candidates are about a conversation with an owner,
--   Spread, Claimed and Failed about one without.
-- * Conversation (llamacpp_stack/_cli_impl.py, ConversationSwitchState): which requests are
--   cancelled when a conversation moves to another model. Conversation.Trace is about sequences of
--   calls.
-- * Dedup (llamacpp_stack/dedup.py, DedupState): one execution for equal requests, and the cache of
--   its result. Dedup.Operations runs sequences of calls; Flight, Cache and Bounds are about them.
-- * Tee (llamacpp_stack/dedup.py, TeeBroadcast): the lines of one stream for several readers.
--   Bounds and Buffer are about the buffer, Delivery about what reaches a reader.
-- * Placement (llamacpp_stack/cli/replica.py): the GPUs that replicas get (_replica_gpu_sets,
--   reserved_base_gpus), in Sets, and the CUDA_VISIBLE_DEVICES prefix of a command, in Prefix.
--
-- * Runtime (llamacpp_stack/_cli_impl.py): the placement of a model whose GPU another model holds.
--   Runtime: _gpu_occupants, best_alternative_gpu, effective_model_gpu_set. Runtime.Plan
--   and Runtime.Texts: plan_runtime_placement and its messages. Runtime.Retire: retire_idle_occupants.
--   Runtime.Probe: request_looks_like_model_probe. Runtime.Gate: _reject_if_gpu_busy. Decision, Moves,
--   Overriding, Safety, Turned and Steps are about them. Activity holds mark_model_activity and the
--   two decisions that read it.
-- * Intake (llamacpp_stack/_cli_impl.py, _handle_ollama_chat): the way of a request from the name of
--   its model to the count of its target, through the parts above. Intake.Direct:
--   _prepare_direct_replica_request and _ensure_direct_replica_route_for_request. Slots is about
--   the limit at its end, Counted about the whole way.
-- * Reaper (llamacpp_stack/cli/daemon.py): _replica_retire_reason, _replica_reap_plan and
--   run_replica_reaper_tick. Quiet and Alike are about what measuring changes, Due about
--   what is retired, Steps has a tick as a run of the router's steps.
-- * Messages (llamacpp_stack/_cli_impl.py, llamacpp_stack/command_router.py): the passes over the
--   messages of a chat. System: _normalize_system_messages_for_llamacpp. Trailing:
--   _normalize_trailing_assistant_messages_for_llamacpp. Empties: normalize_messages. Order, Ending
--   and Empties.Laws are about their results. Value holds the JSON values they work on.
-- * Settings (llamacpp_stack/_cli_impl.py): the normalisation of four blocks of `experimental`
--   settings; Stable and Limits are about it.
-- * WebSocket (llamacpp_stack/debug_manager.py): the frames of the debug stream (_ws_frame_text,
--   _read_exact, _ws_read_frame). Bytes has numbers in bytes; Reading is about _read_exact, Frames
--   and Masking about whole frames.
-- * Tuning (llamacpp_stack/auto_performance.py): repair_until_feasible, which shrinks a configuration
--   until its model fits. Kept has what no round changes, Sound what holds of the result, Exhausted
--   why fifteen rounds are enough on a single GPU.
-- * Examples (llamacpp_stack/_cli_impl.py, ChatToolCallExampleStore): the tool calls that the repair of
--   a tool call shows as examples. Kept is about how many are kept, Usable and Latest about
--   which one is given.
-- * RawLog (llamacpp_stack/cli/raw_log.py): the log of the last ten request bodies
--   (_sanitize_one_line, _write_ring, log_raw_request). Lines is about lines that are read back, Ring
--   about one file, Requests about many requests.
--
-- How they interact: select_replica_for_request looks up the owner of the request's conversation
-- (owner_of), measures it (health_of, which probes and writes the record), asks the policy (decide)
-- and writes the outcome (bind, which asks allow_transfer); request_finished gives back what
-- _reject_if_concurrent_limit_exceeded or request_started took, and keeps the records that the next
-- selection reads. Before its model is loaded, a request passes _reject_if_gpu_busy, which asks
-- plan_runtime_placement, and carries its plan out: it has the occupants unloaded or the route rewritten under the overrides of Router.Overrides. The
-- reaper measures the same records with health_of, and frees a replica that a conflicting load or a
-- demand for its GPUs waits for.
-- Conversation, Dedup, Tee and Messages stand beside it, in the handlers that call them; Settings
-- gives DedupState its limit.
--
-- How the code is rendered: the methods run under the lock of their object, so each is one step
-- from state to state, with its result. Times are whole milliseconds of the monotonic clock, passed
-- in; a difference that is compared is written as a sum on the other side, since subtraction of
-- natural numbers stops at 0. A dict is an association list in insertion order (Dict). Numbers that
-- come from a configuration may be negative and are integers (Prelude.Int). A threading.Event is
-- the number of its creation. Numbers in JSON
-- values are integers, amounts of memory are whole MiB, and bytes are numbers below 256. Log events
-- are left out.
--
-- Bounds and fuel: every loop runs over a list but three. The slices of Placement take the number of
-- available GPUs as fuel, and slices-fuel in Placement.Sets says that more changes nothing.
-- read_exact runs its loop for one round more than the bytes it wants, which is enough since each
-- round but the last brings a byte (read_exact_total in WebSocket.Reading). The rounds of
-- repair_until_feasible are the program's own fifteen.
--
-- What stands outside enters as an argument: whether a process is alive and what GET /health
-- answers (Policy.Probe, Router.Health), Python's conversions of configuration values
-- (Policy.Config), whether a base model's process runs (Router.Claims), the processes and the
-- planned replicas (Router.Sync), the sets of the rendered matrix (Router.Conflicts), whether a
-- placement fits and a route could be added (Router.Selection.Fresh), processes and their memory
-- (Host in Runtime), estimates and switches (Outlook and Surroundings in Runtime), the instance
-- for a request with images and the route of a replica that is named (Intake), the catalog
-- and the answer of llama-swap (Daemon in Reaper), Python's str, int and strip, and the
-- replacements by regular expressions (Messages, Settings, Examples), the pieces in which a
-- connection delivers its bytes (WebSocket), which files can be read and written (RawLog), the
-- estimate of memory and the respacing of weights (Tuning).
--
-- Not modelled: the HTTP handlers but for Intake, and the translation of requests, the rendering of
-- configuration files, the writing of a moved route, the estimates of GPU memory, installers, benchmarks and the
-- search for settings, all of them input and output or floating point for the most part; the
-- fingerprints in dedup.py, which hash; the other blocks of settings, and the copies of the
-- normalisations in cli/gateway.py and install.py. A whole selection, gate, tick or intake is a
-- function for one request at a time; other requests may run between its locked sections in the
-- program, which Router.Steps takes in: its runs have the sections in any order, whoever makes them.
pub mod Prelude
pub mod Dict
pub mod Policy
pub mod Router
pub mod Conversation
pub mod Dedup
pub mod Tee
pub mod Placement
pub mod Value
pub mod Messages
pub mod Runtime
pub mod Activity
pub mod Intake
pub mod WebSocket
pub mod Reaper
pub mod Settings
pub mod Tuning
pub mod RawLog
pub mod Examples
mod Tests
