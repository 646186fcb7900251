-- ===== src/Reaper/Quiet.antt =====
-- cli/daemon.py, the replica reaper: what measuring the replicas changes of the router's state.
use Prim.Native.String.{String}
use heimdall_gateway.Router.Health.Evidence.{known, cached, asked}
use heimdall_gateway.Prelude.{
  ℕ, ◌≡◌, refl, sym, ap, ◌∙◌, inl, inr, Option, none, some, eq_iff, Bool-cases, if_elim, ◌==◌,
  nat_key, string_key,
}
use heimdall_gateway.Dict.{get, put, get-put}
use heimdall_gateway.Policy.Targets.{TargetHealth}
use heimdall_gateway.Router.State.{status_cold, ReplicaRecord, ReplicaRouterState}
use heimdall_gateway.Router.Health.{remember, health_of}
use heimdall_gateway.Router.Health.Evidence.{Way, health_of-Way}
use heimdall_gateway.Reaper.{Daemon}

-- a record but for its status
abbrev pub bare : Option ReplicaRecord → Option ReplicaRecord
bare none = none
bare (some rec) = some (record rec { status = status_cold })

-- two states that differ in the status of records and in the health cache at most
pub record SameUse (s t : ReplicaRouterState) : Type 0 where
  pub use_of : (j : String) → bare (get s.records j) ≡ bare (get t.records j)
  pub claims : s.loading_claims ≡ t.loading_claims
  pub demand : s.gpu_demand ≡ t.gpu_demand

pub SameUse-refl : (s : ReplicaRouterState) → SameUse s s
SameUse-refl s = record { use_of = λ j. refl; claims = refl; demand = refl }

pub SameUse-trans : (s t u : ReplicaRouterState) → SameUse s t → SameUse t u → SameUse s u
SameUse-trans s t u a b = record {
  use_of = λ j. a.use_of j ∙ b.use_of j;
  claims = a.claims ∙ b.claims;
  demand = a.demand ∙ b.demand;
}

use_of-put :
    (s : ReplicaRouterState) (target j : String) (rec new : ReplicaRecord)
    → get s.records target ≡ some rec
    → bare (some new) ≡ bare (some rec)
    → bare (get (put s.records target new) j) ≡ bare (get s.records j)
use_of-put s target j rec new found same = elim (Bool-cases (target == j)) [
  | inl e ↦
      rw (get-put s.records target j new, e)
        (same ∙ ap bare (sym found ∙ ap (get s.records) ((eq_iff target j).0 e)))
  | inr e ↦ rw (get-put s.records target j new, e) refl
]

module _ (d : Daemon) (target : String) (now : ℕ) (s : ReplicaRouterState) where
  remember-SameUse :
      (rec : ReplicaRecord) (h : TargetHealth)
      → get s.records target ≡ some rec
      → SameUse (remember d.pid_alive d.probe d.show d.cfg target now rec h s) s
  unfolding remember
  remember-SameUse rec h found =
      if_elim (λ t. SameUse t s) h.confirmed_dead _ _
        (record {
          use_of = λ j. use_of-put s target j rec _ found refl;
          claims = refl;
          demand = refl;
        })
        (record {
          use_of = λ j. use_of-put s target j rec _ found refl;
          claims = refl;
          demand = refl;
        })

  Way-SameUse :
      (m : ReplicaRouterState × TargetHealth)
      → Way d.pid_alive d.probe d.show d.cfg target d.capacity now s m
      → SameUse m.0 s
  Way-SameUse _ (known h alive) = SameUse-refl s
  Way-SameUse _ (cached h expires found) = SameUse-refl s
  Way-SameUse _ (asked rec found) = remember-SameUse rec _ found

  pub health_of-SameUse :
      SameUse (health_of d.pid_alive d.probe d.show d.cfg target d.capacity now s).0 s
  health_of-SameUse =
      Way-SameUse _ (health_of-Way d.pid_alive d.probe d.show d.cfg target d.capacity now s)
