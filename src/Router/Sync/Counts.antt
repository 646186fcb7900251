-- ===== src/Router/Sync/Counts.antt =====
-- _cli_impl.py, `sync_replica_runtime_state`, and the section of `select_replica_for_request` that adds
-- the records of the replicas: the counts of the requests that targets serve.
use mathlib.Core.Path.{subst}
use Prim.Native.String.{String}
use heimdall_gateway.Prelude.{
  ℕ, ◌≤◌, ◌≡◌, refl, sym, ◌∙◌, ◌⊎◌, inl, inr, true, Option, none, some, List, [], ◌∷◌, arith,
  eq_iff, Bool-cases, Option-cases, or_else, is_some, ◌==◌, nat_key, string_key, all,
}
use heimdall_gateway.Dict.{get, put, get-put}
use heimdall_gateway.Router.State.{ReplicaRecord, new_record, ReplicaRouterState}
use heimdall_gateway.Router.Requests.{base_load, in_flight_of}
use heimdall_gateway.Router.Sync.{
  Process, PlannedReplica, Observed, find_process, synced_record, planned_record, sync_one,
  sync_replica_runtime_state,
}
use heimdall_gateway.Router.Selection.Request.{set_records}

-- a target that is known, or that serves no request
abbrev pub IsSettled : String → ReplicaRouterState → Type 0
IsSettled j s = (is_some (get s.records j) ≡ true) ⊎ (base_load s j ≡ 0)

synced_record-in_flight :
    (now : ℕ) (o : Observed) (configured : Option ℕ) (found : Option Process) (rec : ReplicaRecord)
    → (synced_record now o configured found rec).in_flight ≡ rec.in_flight
unfolding synced_record
synced_record-in_flight now o configured (some p) rec = refl
synced_record-in_flight now o configured none rec = refl

-- the count of a target from its record and from the bases
abbrev counted : Option ReplicaRecord → ℕ → ℕ
counted none load = load
counted (some rec) load = rec.in_flight

in_flight_of-counted :
    (s : ReplicaRouterState) (j : String)
    → in_flight_of s j ≡ counted (get s.records j) (base_load s j)
unfolding in_flight_of
in_flight_of-counted s j = elim (Option-cases (get s.records j)) [
  | inl e ↦ rw (in_flight_of, e) refl
  | inr (rec, e) ↦ rw (in_flight_of, e) refl
]

abbrev Settles : Option ReplicaRecord → ℕ → Type 0
Settles known load = (is_some known ≡ true) ⊎ (load ≡ 0)

-- what a synchronisation does to the record of a target, with the load that the bases count for it
abbrev Syncs : Option ReplicaRecord → Option ReplicaRecord → ℕ → Type 0
Syncs known new load =
    (counted new load ≤ counted known load)
    × (Settles known load → Settles new load × (counted new load ≡ counted known load))

synced-Syncs :
    (now : ℕ) (o : Observed) (configured : Option ℕ) (found : Option Process) (r : PlannedReplica)
    (known : Option ReplicaRecord) (load : ℕ)
    → Syncs known (some (synced_record now o configured found (planned_record r known))) load
synced-Syncs now o configured found r none load =
    let same = synced_record-in_flight now o configured found (planned_record r none) in
    (omega (arith, same), λ settled. (inl refl, ground (arith, same)))
synced-Syncs now o configured found r (some rec) load =
    let same = synced_record-in_flight now o configured found (planned_record r (some rec)) in
    (omega (arith, same), λ settled. (inl refl, same))

-- what a synchronisation does to the count of a target: it may forget requests of a target that had
-- no record, and changes nothing else
abbrev pub SyncsLoad : String → ReplicaRouterState → ReplicaRouterState → Type 0
SyncsLoad j s t =
    (in_flight_of t j ≤ in_flight_of s j)
    × (IsSettled j s → IsSettled j t × (in_flight_of t j ≡ in_flight_of s j))

-- a record is written that counts as many requests as the one before, none at first
put-SyncsLoad :
    (s : ReplicaRouterState) (rid j : String) (new : ReplicaRecord)
    → ((load : ℕ) → Syncs (get s.records rid) (some new) load)
    → SyncsLoad j s (record s { records = put s.records rid new })
unfolding base_load
put-SyncsLoad s rid j new syncs =
    let t = record s { records = put s.records rid new } in
    let load = base_load s j in
    let (few, kept) : Syncs (get s.records j) (get t.records j) load =
      elim (Bool-cases (rid == j)) [
        | inl e ↦
            rw (get-put s.records rid j new, e)
              (subst (λ id. Syncs (get s.records id) (some new) load) ((eq_iff rid j).0 e)
                (syncs load))
        | inr e ↦ rw (get-put s.records rid j new, e) (omega arith, λ settled. (settled, refl))
      ] in
    let before = in_flight_of-counted s j in
    let after = in_flight_of-counted t j in
    (
      rw (before, after) few,
      λ settled. let (still, same) = kept settled in (still, after ∙ same ∙ sym before),
    )

SyncsLoad-trans :
    (j : String) (s t u : ReplicaRouterState) → SyncsLoad j s t → SyncsLoad j t u → SyncsLoad j s u
SyncsLoad-trans j s t u (few, same) (fewer, still) = (
  omega (arith, few, fewer),
  λ settled.
      let (after_one, one) = same settled in
      let (after_all, all) = still after_one in (after_all, all ∙ one),
)

sync_one-SyncsLoad :
    (now : ℕ) (o : Observed) (r : PlannedReplica) (s : ReplicaRouterState) (j : String)
    → SyncsLoad j s (sync_one now o r s)
unfolding sync_one
sync_one-SyncsLoad now o r s j =
    let configured = get o.ports r.replica_model_id in
    put-SyncsLoad s r.replica_model_id j _ (
      synced-Syncs now o configured (find_process o r configured) r
        (get s.records r.replica_model_id))

pub sync-SyncsLoad :
    (now : ℕ) (o : Observed) (replicas : List PlannedReplica) (s : ReplicaRouterState) (j : String)
    → SyncsLoad j s (sync_replica_runtime_state now o replicas s)
unfolding sync_replica_runtime_state
sync-SyncsLoad now o [] s j = (omega arith, λ settled. (settled, refl))
sync-SyncsLoad now o (r ∷ replicas) s j =
    let t = sync_one now o r s in
    SyncsLoad-trans j s t _ (sync_one-SyncsLoad now o r s j) (sync-SyncsLoad now o replicas t j)

registered-Syncs :
    (base rid : String) (gpu_set : List ℕ) (found : Option ReplicaRecord) (load : ℕ)
    → Syncs found
        (some (record (or_else found (new_record base rid gpu_set)) { gpu_set = gpu_set }))
        load
registered-Syncs base rid gpu_set none load = (omega arith, λ settled. (inl refl, ground arith))
registered-Syncs base rid gpu_set (some rec) load = (omega arith, λ settled. (inl refl, refl))

pub set_records-SyncsLoad :
    (base : String) (replicas : List (String × List ℕ)) (s : ReplicaRouterState) (j : String)
    → SyncsLoad j s (record s { records = set_records base replicas s.records })
unfolding set_records
set_records-SyncsLoad base [] s j = (omega arith, λ settled. (settled, refl))
set_records-SyncsLoad base ((rid, gpu_set) ∷ replicas) s j =
    let new = record (or_else (get s.records rid) (new_record base rid gpu_set)) {
      gpu_set = gpu_set;
    } in
    let t = record s { records = put s.records rid new } in
    SyncsLoad-trans j s t _
      (put-SyncsLoad s rid j new (registered-Syncs base rid gpu_set (get s.records rid)))
      (set_records-SyncsLoad base replicas t j)
