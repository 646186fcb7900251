-- ===== src/Reaper/Alike.antt =====
-- cli/daemon.py, the replica reaper: what the decision reads is the same in two states that differ as
-- measurements make them differ.
use Prim.Native.String.{String}
use heimdall_gateway.Prelude.{
  ℕ, ◌≡◌, refl, sym, ap, ◌∙◌, true, false, Option, none, some, List, ltb, nat_key, string_key, any,
}
use heimdall_gateway.Dict.{get}
use heimdall_gateway.Router.State.{ReplicaRecord, ReplicaRouterState}
use heimdall_gateway.Router.Prune.{demands}
use heimdall_gateway.Router.Conflicts.{
  replica_base_model_id, blocking, oldest, blocking_conflicting_load,
}
use heimdall_gateway.Reaper.{idle_time, gpus_of, is_idle_record, Daemon}
use heimdall_gateway.Reaper.Quiet.{bare, SameUse}

idle_time-bare : (now : ℕ) (o : Option ReplicaRecord) → idle_time now o ≡ idle_time now (bare o)
unfolding idle_time
idle_time-bare now none = refl
idle_time-bare now (some rec) = refl

gpus_of-bare : (o : Option ReplicaRecord) → gpus_of o ≡ gpus_of (bare o)
unfolding gpus_of
gpus_of-bare none = refl
gpus_of-bare (some rec) = refl

-- what the grounds read is the same in two states of the same use
module _ (d : Daemon) (base id : String) (now : ℕ) (u s : ReplicaRouterState)
    (same : SameUse u s) where
  pub idle_time_alike : idle_time now (get u.records id) ≡ idle_time now (get s.records id)
  idle_time_alike =
      idle_time-bare now (get u.records id)
      ∙ ap (idle_time now) (same.use_of id)
      ∙ sym (idle_time-bare now (get s.records id))

  pub gpus_alike : gpus_of (get u.records id) ≡ gpus_of (get s.records id)
  gpus_alike =
      gpus_of-bare (get u.records id)
      ∙ ap gpus_of (same.use_of id)
      ∙ sym (gpus_of-bare (get s.records id))

  pub demands_alike : (gpus : List ℕ) → any (demands u now) gpus ≡ any (demands s now) gpus
  unfolding demands
  demands_alike gpus =
      ap
        (λ demand.
          any (λ gpu. elim (get demand gpu) [ none ↦ false | some expires ↦ ltb now expires ]) gpus)
        same.demand

  pub blocking_alike :
      blocking_conflicting_load d.membership base now u
      ≡ blocking_conflicting_load d.membership base now s
  unfolding blocking_conflicting_load
  blocking_alike =
      ap
        (λ claims.
          oldest d.membership (blocking d.membership (replica_base_model_id base) now claims))
        same.claims

is_idle_record-bare :
    (base : String) (o : Option ReplicaRecord)
    → is_idle_record base o ≡ is_idle_record base (bare o)
unfolding is_idle_record
is_idle_record-bare base none = refl
is_idle_record-bare base (some rec) = refl

pub idle_alike :
    (base id : String) (t s : ReplicaRouterState)
    → SameUse t s
    → is_idle_record base (get t.records id) ≡ true
    → is_idle_record base (get s.records id) ≡ true
idle_alike base id t s same e =
    is_idle_record-bare base (get s.records id)
    ∙ (ap (is_idle_record base) (sym (same.use_of id))
        ∙ (sym (is_idle_record-bare base (get t.records id)) ∙ e))
