-- ===== src/Reaper/Due.antt =====
-- cli/daemon.py, the replica reaper: which replicas a tick retires.
use Prim.Native.String.{String, compare}
use heimdall_gateway.Prelude.{
  ℕ, ◌-◌, ◌*◌, ◌<◌, ◌≡◌, refl, ◌∙◌, inl, inr, Bool, true, ◌&&◌, ◌||◌, Option, none, some, List, [],
  ◌∷◌, map, arith, eq_iff, ltb, leb, nat_eq, ltb→lt, Bool-cases, is_some, pick_order, or_right,
  ◌==◌, nat_key, string_key, ==_refl, any, All, weaken, append-All, kept_All,
}
use heimdall_gateway.Dict.{get}
use heimdall_gateway.Router.State.{ReplicaRecord, ReplicaRouterState}
use heimdall_gateway.Router.Prune.{demands}
use heimdall_gateway.Router.Health.{health_of}
use heimdall_gateway.Router.Conflicts.{blocking_conflicting_load}
use heimdall_gateway.Reaper.{
  Reason, insert_id, sorted_ids, is_ready_state, idle_time, gpus_of, is_idle_record,
  idle_replica_ids, Daemon, Retirement, loaded_reason, replica_retire_reason, planned,
  plan_replicas, limit_of, replica_reap_plan,
}
use heimdall_gateway.Reaper.Quiet.{SameUse, SameUse-refl, SameUse-trans, health_of-SameUse}
use heimdall_gateway.Reaper.Alike.{
  idle_time_alike, gpus_alike, demands_alike, blocking_alike, idle_alike,
}

-- A model gives a reason to retire its replica: it idles for the limit, or a load in flight or a refused
-- model wants its GPUs.
abbrev pub is_due : Daemon → String → ℕ → ℕ → ReplicaRouterState → ReplicaRecord → Bool
is_due d base limit now s rec =
    leb (limit * 1000) (now - rec.last_used)
    || is_some (blocking_conflicting_load d.membership base now s)
    || any (demands s now) rec.gpu_set

-- the grounds of a retirement, in the state that the tick starts from
pub record IsDue (d : Daemon) (base : String) (limit now : ℕ) (s : ReplicaRouterState)
    (plan : Retirement) : Type 0 where
  pub rec : ReplicaRecord
  pub found : get s.records plan.0 ≡ some rec
  pub owned : rec.base_model_id ≡ base
  pub quiet : rec.in_flight ≡ 0
  pub waited : plan.2 ≡ now - rec.last_used
  pub due : is_due d base limit now s rec ≡ true

insert_id-All :
    (P : String → Type 0) (id : String) (ids : List String)
    → P id
    → All P ids
    → All P (insert_id id ids)
unfolding insert_id
insert_id-All P id [] holds rest = (holds, tt)
insert_id-All P id (other ∷ ids) holds (first, rest) =
    pick_order (All P) (compare id other) (other ∷ insert_id id ids) (id ∷ other ∷ ids)
      (first, insert_id-All P id ids holds rest) (holds, (first, rest))

sorted_ids-All : (P : String → Type 0) (ids : List String) → All P ids → All P (sorted_ids ids)
unfolding sorted_ids
sorted_ids-All P [] holds = tt
sorted_ids-All P (id ∷ ids) (holds, rest) =
    insert_id-All P id (sorted_ids ids) holds (sorted_ids-All P ids rest)

idle_replica_ids-All :
    (base : String) (s : ReplicaRouterState)
    → All (λ id. is_idle_record base (get s.records id) ≡ true) (idle_replica_ids base s)
unfolding idle_replica_ids
idle_replica_ids-All base s =
    sorted_ids-All _ _
      (kept_All (λ id. is_idle_record base (get s.records id)) (map (λ entry. entry.0) s.records))

loaded_reason_due :
    (d : Daemon) (base id : String) (limit now : ℕ) (u : ReplicaRouterState) (why : Reason)
    (idle_s : ℕ)
    → loaded_reason d base id limit now u ≡ some (why, idle_s)
    → (idle_s ≡ idle_time now (get u.records id))
      × ((leb (limit * 1000) (idle_time now (get u.records id))
            || is_some (blocking_conflicting_load d.membership base now u)
            || any (demands u now) (gpus_of (get u.records id)))
          ≡ true)
unfolding loaded_reason
loaded_reason_due d base id limit now u why idle_s e = ground (arith, e)

grounds_of :
    (d : Daemon) (base : String) (limit now : ℕ) (s : ReplicaRouterState) (o : Option ReplicaRecord)
    (id : String) (idle_s : ℕ) (why : Reason)
    → get s.records id ≡ o
    → is_idle_record base o ≡ true
    → idle_s ≡ idle_time now o
    → (leb (limit * 1000) (idle_time now o)
        || is_some (blocking_conflicting_load d.membership base now s)
        || any (demands s now) (gpus_of o))
      ≡ true
    → IsDue d base limit now s (id, why, idle_s)
unfolding is_idle_record idle_time gpus_of
grounds_of d base limit now s none id idle_s why found idle waited due = absurd (ground arith)
grounds_of d base limit now s (some rec) id idle_s why found idle waited due = record {
  rec = rec;
  found = found;
  owned = ground (arith, idle, eq_iff rec.base_model_id base);
  quiet = ground (arith, idle);
  waited = waited;
  due = due;
}

-- the grounds in the later state are grounds in the first
IsDue-at_start :
    (d : Daemon) (base id : String) (now : ℕ) (u s : ReplicaRouterState)
    → SameUse u s
    → (limit idle_s : ℕ) → is_idle_record base (get s.records id) ≡ true
    → (idle_s ≡ idle_time now (get u.records id))
      × ((leb (limit * 1000) (idle_time now (get u.records id))
            || is_some (blocking_conflicting_load d.membership base now u)
            || any (demands u now) (gpus_of (get u.records id)))
          ≡ true)
    → (why : Reason) → IsDue d base limit now s (id, why, idle_s)
IsDue-at_start d base id now u s same limit idle_s idle (waited, due) why =
    grounds_of d base limit now s (get s.records id) id idle_s why refl idle
      (waited ∙ idle_time_alike d base id now u s same)
      (rw
        (
          idle_time_alike d base id now u s same,
          gpus_alike d base id now u s same,
          blocking_alike d base id now u s same,
          demands_alike d base id now u s same (gpus_of (get s.records id)),
        )
        at due)

planned-IsDue :
    (d : Daemon) (base : String) (limit now : ℕ) (s : ReplicaRouterState) (id : String)
    (reason : Option (Reason × ℕ))
    → ((why : Reason) (idle_s : ℕ)
        → reason ≡ some (why, idle_s)
        → IsDue d base limit now s (id, why, idle_s))
    → All (IsDue d base limit now s) (planned id reason)
unfolding planned
planned-IsDue d base limit now s id none holds = tt
planned-IsDue d base limit now s id (some (why, idle_s)) holds = (holds why idle_s refl, tt)

reason-IsDue :
    (d : Daemon) (base id : String) (limit now : ℕ) (t s : ReplicaRouterState)
    → SameUse t s
    → is_idle_record base (get s.records id) ≡ true
    → SameUse (replica_retire_reason d base id limit now t).0 s
      × All (IsDue d base limit now s) (planned id (replica_retire_reason d base id limit now t).1)
unfolding replica_retire_reason
reason-IsDue d base id limit now t s same idle =
    let (u, health) = health_of d.pid_alive d.probe d.show d.cfg id d.capacity now t in
    let later = SameUse-trans u t s (health_of-SameUse d id now t) same in
    elim (Bool-cases (is_ready_state health.state)) [
      | inr absent ↦ rw absent (
        later,
        planned-IsDue d base limit now s id none (λ why idle_s e. absurd (ground (arith, e))),
      )
      | inl loaded ↦ rw loaded (
        later,
        planned-IsDue d base limit now s id (loaded_reason d base id limit now u) (λ why idle_s e.
            IsDue-at_start d base id now u s later limit idle_s idle
              (loaded_reason_due d base id limit now u why idle_s e) why),
      )
    ]

plan_replicas-All :
    (d : Daemon) (base : String) (limit now : ℕ) (s : ReplicaRouterState) (ids : List String)
    (t : ReplicaRouterState)
    → SameUse t s
    → All (λ id. is_idle_record base (get s.records id) ≡ true) ids
    → SameUse (plan_replicas d base limit now ids t).0 s
      × All (IsDue d base limit now s) (plan_replicas d base limit now ids t).1
unfolding plan_replicas
plan_replicas-All d base limit now s [] t same idle = (same, tt)
plan_replicas-All d base limit now s (id ∷ ids) t same (idle, rest) =
    let (later, first) = reason-IsDue d base id limit now t s same idle in
    let (last, more) = plan_replicas-All d base limit now s ids _ later rest in
    (last, append-All (IsDue d base limit now s) (planned id _) _ first more)

-- the grounds of a retirement, with the model of the catalog whose limit it was
pub record IsRetired (d : Daemon) (catalog : List (String × Option ℕ)) (now : ℕ)
    (s : ReplicaRouterState) (plan : Retirement) : Type 0 where
  pub base : String
  pub limit : ℕ
  pub listed : any (λ m. m.0 == base && nat_eq (limit_of m) limit) catalog ≡ true
  pub limited : 0 < limit
  pub grounds : IsDue d base limit now s plan

listed_first :
    (d : Daemon) (base : String) (max_idle : Option ℕ) (catalog : List (String × Option ℕ))
    (now : ℕ) (s : ReplicaRouterState) (plan : Retirement)
    → 0 < limit_of (base, max_idle)
    → IsDue d base (limit_of (base, max_idle)) now s plan
    → IsRetired d ((base, max_idle) ∷ catalog) now s plan
listed_first d base max_idle catalog now s plan limited grounds = record {
  base = base;
  limit = limit_of (base, max_idle);
  listed = rw (==_refl base, ==_refl (limit_of (base, max_idle))) refl;
  limited = limited;
  grounds = grounds;
}

listed_later :
    (d : Daemon) (m : String × Option ℕ) (catalog : List (String × Option ℕ)) (now : ℕ)
    (s : ReplicaRouterState) (plan : Retirement)
    → IsRetired d catalog now s plan
    → IsRetired d (m ∷ catalog) now s plan
listed_later d m catalog now s plan why = record {
  base = why.base;
  limit = why.limit;
  listed = or_right _ _ why.listed;
  limited = why.limited;
  grounds = why.grounds;
}

reap_plan-All :
    (d : Daemon) (catalog : List (String × Option ℕ)) (now : ℕ) (t s : ReplicaRouterState)
    → SameUse t s
    → All (IsRetired d catalog now s) (replica_reap_plan d catalog now t).1
unfolding replica_reap_plan
reap_plan-All d [] now t s same = tt
reap_plan-All d ((base, max_idle) ∷ catalog) now t s same =
    elim (Bool-cases (ltb 0 (limit_of (base, max_idle)))) [
      | inr unset ↦ rw unset (
          weaken (listed_later d (base, max_idle) catalog now s) _
            (reap_plan-All d catalog now t s same))
      | inl limited ↦
          let idle =
            weaken (λ id e. idle_alike base id t s same e) _ (idle_replica_ids-All base t) in
          let (later, first) =
            plan_replicas-All d base (limit_of (base, max_idle)) now s (idle_replica_ids base t) t
              same idle in
          rw limited (
            append-All (IsRetired d ((base, max_idle) ∷ catalog) now s) _ _
              (weaken
                (λ plan.
                  listed_first d base max_idle catalog now s plan
                    (ltb→lt 0 (limit_of (base, max_idle)) limited))
                _ first)
              (weaken (listed_later d (base, max_idle) catalog now s) _
                (reap_plan-All d catalog now _ s later)))
    ]

-- Every retirement that a tick plans is of a replica that served no request when the tick began, and
-- whose own base model, by its record, is one that the catalog lists with a limit on idle replicas;
-- and the replica had been unused for that limit, or a load in flight conflicts with its base model,
-- or a refused model wants one of its GPUs.
pub replica_reap_plan-IsRetired :
    (d : Daemon) (catalog : List (String × Option ℕ)) (now : ℕ) (s : ReplicaRouterState)
    → All (IsRetired d catalog now s) (replica_reap_plan d catalog now s).1
replica_reap_plan-IsRetired d catalog now s = reap_plan-All d catalog now s s (SameUse-refl s)
