-- ===== src/Router/Writes.antt =====
-- _cli_impl.py, `_claim_placement_write`: how many route rewrites a process makes in an hour.
use native.Mathlib.Nat.{le_trans}
use heimdall_gateway.Prelude.{
  ℕ, suc, ◌+◌, ◌≤◌, String, ◌≡◌, refl, List, [], ◌∷◌, ◌++◌, arith, ltb, if◌then◌else◌, nat_key,
  string_key, length, length-append,
}
use heimdall_gateway.Router.State.{ReplicaRouterState}
use heimdall_gateway.Router.Overrides.{
  placement_max_writes_per_hour, drop_old_writes, claim_placement_write,
}

-- a process over a list of calls: its log, the router, and the times of all writes granted so far
pub record Writer : Type 0 where
  pub log : List ℕ
  pub router : ReplicaRouterState
  pub granted : List ℕ

pub record Call : Type 0 where
  pub model_id : String
  pub gpu_set : List ℕ
  pub now : ℕ

unfoldable pub call : Writer → Call → Writer
call w c =
    let (log, router, granted) = claim_placement_write c.model_id c.gpu_set c.now w.log w.router in
    record {
      log = log;
      router = router;
      granted = if granted then w.granted ++ c.now ∷ [] else w.granted;
    }

unfoldable pub calls : Writer → List Call → Writer
unfolding call
calls w [] = w
calls w (c ∷ cs) = calls (call w c) cs

-- the clock of the calls does not run backwards
abbrev pub InOrder : ℕ → List Call → Type 0
InOrder t [] = Unit
InOrder t (c ∷ cs) = (t ≤ c.now) × InOrder c.now cs

abbrev pub last_time : ℕ → List Call → ℕ
last_time t [] = t
last_time t (c ∷ cs) = last_time c.now cs

-- the writes of the hour before `now`
unfoldable pub writes_within_hour : ℕ → List ℕ → ℕ
writes_within_hour now [] = 0
writes_within_hour now (t ∷ ts) =
    let rest = writes_within_hour now ts in if ltb now (t + 3600000) then suc rest else rest

writes_within_hour-le : (now : ℕ) (ts : List ℕ) → writes_within_hour now ts ≤ length ts
unfolding writes_within_hour
writes_within_hour-le now [] = omega arith
writes_within_hour-le now (t ∷ ts) = ground (arith, writes_within_hour-le now ts)

within_hour-le-drop :
    (now : ℕ) (ts : List ℕ) → writes_within_hour now ts ≤ length (drop_old_writes now ts)
unfolding writes_within_hour drop_old_writes
within_hour-le-drop now [] = omega arith
within_hour-le-drop now (t ∷ ts) =
    ground (arith, within_hour-le-drop now ts, writes_within_hour-le now ts)

drop-drop :
    (now later : ℕ) (ts : List ℕ)
    → now ≤ later
    → drop_old_writes later (drop_old_writes now ts) ≡ drop_old_writes later ts
unfolding drop_old_writes
drop-drop now later [] after = refl
drop-drop now later (t ∷ ts) after = ground (arith, drop-drop now later ts)

drop-append :
    (now : ℕ) (ts : List ℕ)
    → drop_old_writes now (ts ++ now ∷ []) ≡ drop_old_writes now ts ++ now ∷ []
unfolding drop_old_writes
drop-append now [] = ground arith
drop-append now (t ∷ ts) = ground (arith, drop-append now ts)

length-drop-le : (now : ℕ) (ts : List ℕ) → length (drop_old_writes now ts) ≤ length ts
unfolding drop_old_writes
length-drop-le now [] = omega arith
length-drop-le now (t ∷ ts) = ground (arith, length-drop-le now ts)

-- The log holds what is left of the granted writes, and never more than the limit.
record IsLogged (t : ℕ) (w : Writer) : Type 0 where
  logged : w.log ≡ drop_old_writes t w.granted
  limited : length w.log ≤ placement_max_writes_per_hour

call-IsLogged :
    (t : ℕ) (w : Writer) (c : Call) → t ≤ c.now → IsLogged t w → IsLogged c.now (call w c)
unfolding call claim_placement_write
call-IsLogged t w c after kept = ground (
  arith,
  drop-drop t c.now w.granted after,
  drop-append c.now w.granted,
  length-drop-le c.now w.log,
  length-append (drop_old_writes c.now w.log) (c.now ∷ []),
)

calls-IsLogged :
    (t : ℕ) (w : Writer) (cs : List Call)
    → InOrder t cs
    → IsLogged t w
    → IsLogged (last_time t cs) (calls w cs)
unfolding calls
calls-IsLogged t w [] order kept = kept
calls-IsLogged t w (c ∷ cs) order kept =
    calls-IsLogged c.now (call w c) cs order.1 (call-IsLogged t w c order.0 kept)

fresh_log :
    (t : ℕ) (router : ReplicaRouterState)
    → IsLogged t (record { log = []; router = router; granted = [] })
unfolding drop_old_writes
fresh_log t router = record { logged = refl; limited = omega arith }

-- However many placement writes are asked for, for whatever models, in whatever router state: of
-- all the writes that were granted at most four lie in the hour before the last call, provided
-- that the clock does not run backwards.
pub placement_writes_bounded :
    (router : ReplicaRouterState) (cs : List Call) (t : ℕ)
    → InOrder t cs
    → writes_within_hour
        (last_time t cs)
        (calls (record { log = []; router = router; granted = [] }) cs).granted
      ≤ placement_max_writes_per_hour
placement_writes_bounded router cs t order =
    let start : Writer = record { log = []; router = router; granted = [] } in
    let end = calls-IsLogged t start cs order (fresh_log t router) in
    le_trans (within_hour-le-drop (last_time t cs) (calls start cs).granted)
      (rw (← end.logged) end.limited)
