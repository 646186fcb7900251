-- ===== src/Router/Requests.antt =====
-- _cli_impl.py: `ReplicaRouterState.request_started`, `request_finished`, `base_load`.
use heimdall_gateway.Prelude.{
  ℕ, ◌+◌, ◌-◌, String, ◌≡◌, refl, inl, inr, Bool, false, Option, none, some, arith, eq_iff,
  if◌then◌else◌, Option-cases, or_else, ◌==◌, nat_key, string_key, ==_refl,
}
use heimdall_gateway.Dict.{get, put, pop, get-put}
use heimdall_gateway.Policy.Faults.{Fault, is_target_fatal}
use heimdall_gateway.Router.State.{
  RecordStatus, status_cold, status_loading, status_ready, status_error, ReplicaRecord,
  ReplicaRouterState,
}

-- self.base_in_flight.get(model_id, 0)
unfoldable pub base_load : ReplicaRouterState → String → ℕ
base_load s model_id = or_else (get s.base_in_flight model_id) 0

abbrev pub started_status : RecordStatus → RecordStatus
started_status status_cold = status_loading
started_status other = other

unfoldable pub record_started : ℕ → ReplicaRecord → ReplicaRecord
record_started now rec = record rec {
  in_flight = rec.in_flight + 1;
  last_used = now;
  status = started_status rec.status;
}

unfoldable pub request_started : String → ℕ → ReplicaRouterState → ReplicaRouterState
unfolding record_started base_load
request_started replica_id now s = elim (get s.records replica_id) [
  | some rec ↦ record s { records = put s.records replica_id (record_started now rec) }
  | none ↦ record s {
    base_in_flight = put s.base_in_flight replica_id (base_load s replica_id + 1);
    base_last_used = put s.base_last_used replica_id now;
  }
]

-- the three `pop`s of a loading claim at the head of `request_finished`
unfoldable pub drop_claims : String → ReplicaRouterState → ReplicaRouterState
drop_claims replica_id s =
    let claims = pop s.loading_claims replica_id in
    record s {
      loading_claim_aliases = pop s.loading_claim_aliases replica_id;
      loading_claims = elim (get s.loading_claim_aliases replica_id) [
        | none ↦ claims
        | some claim_key ↦ if claim_key == "" then claims else pop claims claim_key
      ];
    }

unfoldable pub record_finished : Bool → Fault → ℕ → ReplicaRecord → ReplicaRecord
record_finished ok fault now rec =
    let freed = record rec { in_flight = rec.in_flight - 1; last_used = now } in
    if is_target_fatal fault
    then record freed {
      status = status_error;
      blacklist_until = now + 120000;
      fatal_faults = rec.fatal_faults + 1;
    }
    else if ok
    then record freed { status = status_ready; blacklist_until = 0; fatal_faults = 0 }
    else freed

unfoldable pub request_finished :
    String → Bool → Fault → ℕ → ReplicaRouterState → ReplicaRouterState
unfolding drop_claims record_finished base_load
request_finished replica_id ok fault now s =
    let t = drop_claims replica_id s in
    elim (get s.records replica_id) [
      | some rec ↦ record t {
        records = put s.records replica_id (record_finished ok fault now rec);
      }
      | none ↦ record t {
        base_in_flight = put s.base_in_flight replica_id (base_load s replica_id - 1);
        base_last_used = put s.base_last_used replica_id now;
      }
    ]

-- the requests that a target serves, a replica or a base
unfoldable pub in_flight_of : ReplicaRouterState → String → ℕ
unfolding base_load
in_flight_of s target = elim (get s.records target) [
  | some rec ↦ rec.in_flight
  | none ↦ base_load s target
]

-- what the router reads of a record's health
pub record Standing : Type 0 where
  pub status : RecordStatus
  pub blacklist_until : ℕ
  pub fatal_faults : ℕ

abbrev pub standing : Option ReplicaRecord → Option Standing
standing none = none
standing (some rec) = some (record {
  status = rec.status;
  blacklist_until = rec.blacklist_until;
  fatal_faults = rec.fatal_faults;
})

-- A request that failed with a fault that is not fatal to its target leaves the health of every
-- replica as it was: status, quarantine and fault count.
pub request_finished-standing :
    (replica_id j : String) (fault : Fault) (now : ℕ) (s : ReplicaRouterState)
    → is_target_fatal fault ≡ false
    → standing (get (request_finished replica_id false fault now s).records j)
      ≡ standing (get s.records j)
unfolding request_finished
request_finished-standing replica_id j fault now s harmless =
    elim (Option-cases (get s.records replica_id)) [
      | inl e ↦ rw (e, request_finished) refl
      | inr (rec, e) ↦
          rw (e, request_finished)
            (ground (
              arith,
              get-put s.records replica_id j (record_finished false fault now rec),
              eq_iff replica_id j,
            ))
    ]

pub in_flight_of-started :
    (target j : String) (now : ℕ) (s : ReplicaRouterState)
    → in_flight_of (request_started target now s) j
      ≡ (if target == j then in_flight_of s j + 1 else in_flight_of s j)
unfolding request_started in_flight_of
in_flight_of-started target j now s = elim (Option-cases (get s.records target)) [
  | inl e ↦
      rw (e, request_started)
        (ground (
          arith,
          get-put s.base_in_flight target j (base_load s target + 1),
          eq_iff target j,
          Option-cases (get s.records j),
        ))
  | inr (rec, e) ↦
      rw (e, request_started)
        (ground (arith, get-put s.records target j (record_started now rec), eq_iff target j))
]

pub in_flight_of-finished :
    (target j : String) (ok : Bool) (fault : Fault) (now : ℕ) (s : ReplicaRouterState)
    → in_flight_of (request_finished target ok fault now s) j
      ≡ (if target == j then in_flight_of s j - 1 else in_flight_of s j)
unfolding request_finished in_flight_of
in_flight_of-finished target j ok fault now s = elim (Option-cases (get s.records target)) [
  | inl e ↦
      rw (e, request_finished)
        (ground (
          arith,
          get-put s.base_in_flight target j (base_load s target - 1),
          eq_iff target j,
          Option-cases (get s.records j),
        ))
  | inr (rec, e) ↦
      rw (e, request_finished)
        (ground
          (arith, get-put s.records target j (record_finished ok fault now rec), eq_iff target j))
]

-- A request takes one slot of its target while it runs and gives it back at its end, whatever its
-- outcome; no other target's count changes, before or after.
pub request-in_flight :
    (target j : String) (ok : Bool) (fault : Fault) (now later : ℕ) (s : ReplicaRouterState)
    → let running = request_started target now s in
      (in_flight_of running j ≡ (if target == j then in_flight_of s j + 1 else in_flight_of s j))
      × (in_flight_of (request_finished target ok fault later running) j ≡ in_flight_of s j)
request-in_flight target j ok fault now later s = (
  in_flight_of-started target j now s,
  ground (
    arith,
    in_flight_of-started target j now s,
    in_flight_of-finished target j ok fault later (request_started target now s),
  ),
)

-- A fault that is fatal to its target quarantines a known replica for 120 s from now, marks it as
-- failed and counts the fault, also where the request is reported as successful; a success with
-- no such fault makes it ready, unquarantined, with no fault on record.
pub request_finished-verdict :
    (replica_id : String) (ok : Bool) (fault : Fault) (now : ℕ) (s : ReplicaRouterState)
    (rec : ReplicaRecord)
    → get s.records replica_id ≡ some rec
    → standing (get (request_finished replica_id ok fault now s).records replica_id) ≡ (
        if is_target_fatal fault
        then some (record {
          status = status_error;
          blacklist_until = now + 120000;
          fatal_faults = rec.fatal_faults + 1;
        })
        else if ok
        then some (record { status = status_ready; blacklist_until = 0; fatal_faults = 0 })
        else standing (some rec))
unfolding request_finished
request_finished-verdict replica_id ok fault now s rec known =
    rw (known, request_finished)
      (ground (
        arith,
        get-put s.records replica_id replica_id (record_finished ok fault now rec),
        ==_refl replica_id,
      ))
