-- ===== src/Router/Sync/Found.antt =====
-- _cli_impl.py, `sync_replica_runtime_state`: which records are ready afterwards, and what is kept.
use Prim.Native.String.{String}
use heimdall_gateway.Prelude.{
  ℕ, ◌≡◌, refl, ap, ◌∙◌, inl, inr, Bool, true, false, not, Option, none, some, List, [], ◌∷◌, arith,
  eq_iff, Bool-cases, is_some, ◌==◌, nat_key, string_key, ==_refl, All,
}
use heimdall_gateway.Dict.{get, get-put}
use heimdall_gateway.Router.State.{
  RecordStatus, status_cold, status_loading, status_ready, status_error, ReplicaRecord,
  ReplicaRouterState,
}
use heimdall_gateway.Router.Sync.{
  Process, PlannedReplica, Observed, running_status, stopped_status, synced_record, planned_record,
  sync_one, sync_replica_runtime_state,
}

-- the record is there, and it is ready exactly when it names a process
abbrev pub agrees : Option ReplicaRecord → Bool
agrees none = false
agrees (some rec) = elim rec.status [ status_ready ↦ is_some rec.pid | _ ↦ not (is_some rec.pid) ]

-- requests in flight, and until when and why the replica is not used; a record that is new has none
abbrev pub load_of : Option ReplicaRecord → ℕ × ℕ × ℕ
load_of none = (0, 0, 0)
load_of (some rec) = (rec.in_flight, rec.blacklist_until, rec.fatal_faults)

abbrev agrees_status : RecordStatus → Option ℕ → Bool
agrees_status status pid = elim status [ status_ready ↦ is_some pid | _ ↦ not (is_some pid) ]

running_agrees :
    (status : RecordStatus) (pid : ℕ) → agrees_status (running_status status) (some pid) ≡ true
running_agrees status_cold pid = refl
running_agrees status_loading pid = refl
running_agrees status_ready pid = refl
running_agrees status_error pid = refl

stopped_agrees : (status : RecordStatus) → agrees_status (stopped_status status) none ≡ true
stopped_agrees status_cold = refl
stopped_agrees status_loading = refl
stopped_agrees status_ready = refl
stopped_agrees status_error = refl

synced_record-agrees :
    (now : ℕ) (o : Observed) (configured : Option ℕ) (found : Option Process) (rec : ReplicaRecord)
    → agrees (some (synced_record now o configured found rec)) ≡ true
unfolding synced_record
synced_record-agrees now o configured (some p) rec = running_agrees rec.status p.pid
synced_record-agrees now o configured none rec = stopped_agrees rec.status

synced_record-load_of :
    (now : ℕ) (o : Observed) (configured : Option ℕ) (found : Option Process) (rec : ReplicaRecord)
    → load_of (some (synced_record now o configured found rec)) ≡ load_of (some rec)
unfolding synced_record
synced_record-load_of now o configured (some p) rec = refl
synced_record-load_of now o configured none rec = refl

planned_record-load_of :
    (r : PlannedReplica) (known : Option ReplicaRecord)
    → load_of (some (planned_record r known)) ≡ load_of known
planned_record-load_of r none = refl
planned_record-load_of r (some rec) = refl

-- a property of the record of every id holds after one replica is looked at
sync_one-at :
    (P : Option ReplicaRecord → Type 0) (now : ℕ) (o : Observed) (r : PlannedReplica)
    (s : ReplicaRouterState) (id : String)
    → ((configured : Option ℕ) (found : Option Process)
        → (r.replica_model_id == id) ≡ true
        → P (
            some (
              synced_record now o configured found
                (planned_record r (get s.records r.replica_model_id)))))
    → ((r.replica_model_id == id) ≡ false → P (get s.records id))
    → P (get (sync_one now o r s).records id)
unfolding sync_one
sync_one-at P now o r s id synced other = elim (Bool-cases (r.replica_model_id == id)) [
  | inl e ↦ rw (get-put s.records r.replica_model_id id, e) (synced _ _ e)
  | inr e ↦ rw (get-put s.records r.replica_model_id id, e) (other e)
]

-- A replica whose record agrees keeps a record that agrees.
sync-agrees_still :
    (now : ℕ) (o : Observed) (replicas : List PlannedReplica) (s : ReplicaRouterState) (id : String)
    → agrees (get s.records id) ≡ true
    → agrees (get (sync_replica_runtime_state now o replicas s).records id) ≡ true
unfolding sync_replica_runtime_state
sync-agrees_still now o [] s id agreed = agreed
sync-agrees_still now o (r ∷ replicas) s id agreed =
    sync-agrees_still now o replicas (sync_one now o r s) id (
      sync_one-at (λ rec. agrees rec ≡ true) now o r s id
        (λ configured found e. synced_record-agrees now o configured found _) (λ e. agreed))

-- After a synchronisation every replica that the catalog asks for has a record, and it is ready
-- exactly when it names a process.
pub sync_replica_runtime_state-agrees :
    (now : ℕ) (o : Observed) (replicas : List PlannedReplica) (s : ReplicaRouterState)
    → All
        (λ r.
          agrees (get (sync_replica_runtime_state now o replicas s).records r.replica_model_id)
          ≡ true)
        replicas
unfolding sync_replica_runtime_state
sync_replica_runtime_state-agrees now o [] s = tt
sync_replica_runtime_state-agrees now o (r ∷ replicas) s = (
  sync-agrees_still now o replicas (sync_one now o r s) r.replica_model_id (
      sync_one-at (λ rec. agrees rec ≡ true) now o r s r.replica_model_id
        (λ configured found e. synced_record-agrees now o configured found _)
        (λ e. absurd (ground (arith, ==_refl r.replica_model_id)))),
  sync_replica_runtime_state-agrees now o replicas (sync_one now o r s),
)

-- A synchronisation keeps, for every replica, the requests in flight, the end of its time on the
-- blacklist and the count of its faults; a record that it adds has none.
pub sync_replica_runtime_state-load_of :
    (now : ℕ) (o : Observed) (replicas : List PlannedReplica) (s : ReplicaRouterState) (id : String)
    → load_of (get (sync_replica_runtime_state now o replicas s).records id)
      ≡ load_of (get s.records id)
unfolding sync_replica_runtime_state
sync_replica_runtime_state-load_of now o [] s id = refl
sync_replica_runtime_state-load_of now o (r ∷ replicas) s id =
    sync_replica_runtime_state-load_of now o replicas (sync_one now o r s) id
    ∙ sync_one-at (λ rec. load_of rec ≡ load_of (get s.records id)) now o r s id
        (λ configured found e.
          synced_record-load_of now o configured found _
          ∙ planned_record-load_of r (get s.records r.replica_model_id)
          ∙ ap (λ k. load_of (get s.records k)) ((eq_iff r.replica_model_id id).0 e))
        (λ e. refl)
