-- ===== src/Dedup.antt =====
-- dedup.py: `Entry` and `DedupState`, for any type R of results and E of exceptions. Each method
-- holds the state's lock while it reads and writes, so each is one step; `now` is the reading of
-- the monotonic clock in milliseconds. A `threading.Event` is a number, that of its creation, and
-- the state keeps which are set. The fields that only the log reads are left out.
pub mod Operations
pub mod Others
pub mod Steady
pub mod Flight
pub mod Bounds
pub mod Cache
use heimdall_gateway.Prelude.{
  ℕ, ◌+◌, ◌-◌, String, Bool, true, false, not, ◌&&◌, Option, none, some, List, [], ◌∷◌, ltb, leb,
  if◌then◌else◌, is_some, nat_key, string_key, length, contains,
}
use heimdall_gateway.Dict.{Dict, get, put, pop, retain}

pub record Entry (R E : Type 0) : Type 0 where
  pub event : ℕ
  pub result : Option R
  pub exception : Option E
  pub expires_at : ℕ
  pub grace_until : ℕ

pub record DedupState (R E : Type 0) : Type 0 where
  pub entries : Dict String (Entry R E)
  pub max_entries : ℕ
  pub next_event : ℕ
  pub set_events : List ℕ

-- (is_leader, event, cached_result_or_none)
pub record Lookup (R : Type 0) : Type 0 where
  pub is_leader : Bool
  pub event : Option ℕ
  pub cached : Option R

module _ {R E : Type 0} where
  unfoldable pub new_dedup : ℕ → DedupState R E
  new_dedup max_entries = record {
    entries = [];
    max_entries = max_entries;
    next_event = 0;
    set_events = [];
  }

  unfoldable pub is_set : DedupState R E → ℕ → Bool
  is_set s event = contains s.set_events event

  unfoldable pub set_event : DedupState R E → ℕ → DedupState R E
  set_event s event = record s { set_events = event ∷ s.set_events }

  -- the result to hand on while an entry is kept, none to delete it and lead anew: the tests in
  -- the order of `get_or_create_inflight`, for an entry with a result, a failed one, a running one
  unfoldable pub kept_answer : Entry R E → Bool → ℕ → Option (Option R)
  kept_answer entry is_event_set now = elim entry.result [
    | some result ↦
        if ltb now entry.expires_at
        then some (some result)
        else if ltb now entry.grace_until
        then some (some result)
        else none
    | none ↦ elim entry.exception [
      | some exc ↦
          if ltb 0 entry.grace_until && leb entry.grace_until now
          then none
          else if is_event_set
          then (if ltb now entry.grace_until then some none else none)
          else some none
      | none ↦
          if ltb now entry.grace_until && not is_event_set
          then some none
          else if ltb 0 entry.grace_until && leb entry.grace_until now
          then none
          else some none
    ]
  ]

  abbrev pub new_entry : ℕ → Entry R E
  new_entry event = record {
    event = event;
    result = none;
    exception = none;
    expires_at = 0;
    grace_until = 0;
  }

  unfoldable pub lead : String → DedupState R E → DedupState R E × Lookup R
  lead key s =
      if leb s.max_entries (length s.entries)
      then (s, record { is_leader = true; event = none; cached = none })
      else (
        record s {
          entries = put s.entries key (new_entry s.next_event);
          next_event = s.next_event + 1;
        },
        record { is_leader = true; event = some s.next_event; cached = none },
      )

  unfoldable pub get_or_create_inflight : ℕ → String → DedupState R E → DedupState R E × Lookup R
  unfolding kept_answer is_set lead
  get_or_create_inflight now key s = elim (get s.entries key) [
    | none ↦ lead key s
    | some entry ↦ elim (kept_answer entry (is_set s entry.event) now) [
      | some cached ↦ (s, record { is_leader = false; event = some entry.event; cached = cached })
      | none ↦ lead key (record s { entries = pop s.entries key })
    ]
  ]

  unfoldable pub complete_ok : String → R → DedupState R E → DedupState R E
  unfolding set_event
  complete_ok key result s = elim (get s.entries key) [
    | none ↦ s
    | some entry ↦
        set_event
          (record s {
            entries = put s.entries key (record entry { result = some result; exception = none });
          })
          entry.event
  ]

  unfoldable pub complete_err : String → E → DedupState R E → DedupState R E
  unfolding set_event
  complete_err key exc s = elim (get s.entries key) [
    | none ↦ s
    | some entry ↦
        set_event
          (record s {
            entries = put s.entries key (record entry { result = none; exception = some exc });
          })
          entry.event
  ]

  unfoldable pub get_cached : ℕ → String → DedupState R E → DedupState R E × Option R
  get_cached now key s = elim (get s.entries key) [
    | none ↦ (s, none)
    | some entry ↦ elim entry.result [
      | none ↦ (s, none)
      | some result ↦
          if leb entry.expires_at now
          then (record s { entries = pop s.entries key }, none)
          else if is_some entry.exception
          then (s, none)
          else (s, some result)
    ]
  ]

  unfoldable pub put_cached : ℕ → String → R → ℕ → DedupState R E → DedupState R E × Bool
  unfolding set_event
  put_cached now key result ttl s = elim (get s.entries key) [
    | some entry ↦ (
      set_event
          (record s {
            entries =
                put s.entries key
                  (record entry { result = some result; exception = none; expires_at = now + ttl });
          })
          entry.event,
      true,
    )
    | none ↦ if leb s.max_entries (length s.entries) then (s, false) else (
      set_event
          (record s {
            entries = put s.entries key (record {
              event = s.next_event;
              result = some result;
              exception = none;
              expires_at = now + ttl;
              grace_until = 0;
            });
            next_event = s.next_event + 1;
          })
          s.next_event,
      true,
    )
  ]

  -- the two kinds of entry that `evict_expired` deletes
  unfoldable pub is_expired : ℕ → Entry R E → Bool
  is_expired now entry =
      is_some entry.result && leb entry.expires_at now && leb entry.grace_until now

  unfoldable pub is_grace_over : DedupState R E → ℕ → Entry R E → Bool
  unfolding is_set
  is_grace_over s now entry =
      ltb 0 entry.grace_until
      && leb entry.grace_until now
      && not (is_some entry.result)
      && not (is_some entry.exception)
      && is_set s entry.event

  unfoldable pub evict_expired : ℕ → DedupState R E → DedupState R E × ℕ
  unfolding is_expired is_grace_over
  evict_expired now s =
      let unexpired = retain (λ key entry. not (is_expired now entry)) s.entries in
      let left = retain (λ key entry. not (is_grace_over s now entry)) unexpired in
      (record s { entries = left }, length s.entries - length left)

  unfoldable pub mark_disconnected : ℕ → String → ℕ → DedupState R E → DedupState R E × Bool
  mark_disconnected now key grace s = elim (get s.entries key) [
    | none ↦ (s, false)
    | some entry ↦ (
      record s { entries = put s.entries key (record entry { grace_until = now + grace }) },
      true,
    )
  ]

  unfoldable pub forget : ℕ → String → ℕ → DedupState R E → DedupState R E
  forget now key grace s = elim (get s.entries key) [
    | none ↦ s
    | some entry ↦
        if ltb 0 grace
        then record s { entries = put s.entries key (record entry { grace_until = now + grace }) }
        else record s { entries = pop s.entries key }
  ]
