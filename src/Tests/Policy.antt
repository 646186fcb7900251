-- ===== src/Tests/Policy.antt =====
-- cli/replica_policy.py at concrete inputs.
use heimdall_gateway.Prelude.{
  ℕ, ◌*◌, String, ◌≡◌, refl, ◌↔◌, true, false, none, some, [], ◌∷◌, ltb, nat_key, string_key,
}
use heimdall_gateway.Prelude.Int.{pos}
use heimdall_gateway.Dict.{Dict}
use heimdall_gateway.Policy.Faults.{client_abort, Raised, by_evidence, fault_from_exception}
use heimdall_gateway.Policy.Targets.{ready, TargetHealth, wait, evacuate}
use heimdall_gateway.Policy.Config.{affinity_policy_defaults, Conversions}
use heimdall_gateway.Policy.Transfer.{decide, MayLeave, decide-evacuate_iff}

abbrev reset_by_peer : Raised
reset_by_peer = record { name = "OSError"; message = "Connection RESET by peer" }

reset_is_abort : fault_from_exception (some reset_by_peer) ≡ client_abort
unfolding fault_from_exception by_evidence
reset_is_abort = refl

abbrev busy : TargetHealth
busy = record {
  target = "m__replica_0";
  state = ready;
  in_flight = 4;
  capacity = 1;
  confirmed_dead = false;
  blacklist_until = 0;
  detail = "";
}

busy_waits : decide (some "m__replica_0") busy true affinity_policy_defaults 10 ≡ (wait, none)
unfolding decide affinity_policy_defaults
busy_waits = refl

decide-evacuate_iff_example :
    ((decide (some "m") busy true affinity_policy_defaults 10).0 ≡ evacuate)
    ↔ MayLeave busy true affinity_policy_defaults 10
decide-evacuate_iff_example = decide-evacuate_iff "m" busy true affinity_policy_defaults 10 refl

abbrev digits_only : Conversions ℕ
digits_only = record {
  to_float = λ n. some (pos (n * 1000));
  to_int = λ n. some (pos n);
  to_bool = λ n. ltb 0 n;
  to_mode = λ n. "whatever";
}

abbrev reckless : Dict String ℕ
reckless = ("max_hard_transfers", 0) ∷ ("saturated_target", 7) ∷ []
