-- ===== src/Dedup/Cache.antt =====
-- dedup.py, `DedupState`: what becomes of a result, and of an error.
use heimdall_gateway.Prelude.{
  ℕ, ◌+◌, ◌≤◌, ◌<◌, String, ◌≡◌, refl, sym, ap, ◌∙◌, inl, inr, Bool, true, false, not, none, some,
  List, arith, leb, false_when_not, Option-cases, is_some, nat_key, string_key, ==_refl, length,
  All, weaken,
}
use heimdall_gateway.Dict.{get, pop, get-put}
use heimdall_gateway.Dedup.{
  Entry, DedupState, is_set, set_event, kept_answer, lead, get_or_create_inflight, complete_err,
  get_cached, put_cached, is_grace_over,
}
use heimdall_gateway.Dedup.Operations.{Operation, apply_all, leaves_running}
use heimdall_gateway.Dedup.Steady.{IsSteady, time, get-apply_all}

-- the entry of a result that is cached up to a time
pub record IsStored {R E : Type 0} (entry : Entry R E) (result : R) (until : ℕ) : Type 0 where
  pub is_result : entry.result ≡ some result
  pub no_exception : entry.exception ≡ none
  pub is_until : entry.expires_at ≡ until

module _ {R E : Type 0} where
  kept_answer-stored :
      (entry : Entry R E) (result : R) (until : ℕ) (set : Bool) (now : ℕ)
      → IsStored entry result until
      → now < until
      → kept_answer entry set now ≡ some (some result)
  unfolding kept_answer
  kept_answer-stored entry result until set now p early =
      rw (p.is_result, kept_answer, p.is_until) (ground arith)

  stored-IsSteady :
      (entry : Entry R E) (result : R) (until now : ℕ)
      → IsStored entry result until
      → now < until
      → IsSteady entry now
  unfolding is_grace_over
  stored-IsSteady entry result until now p early = record {
    is_kept = λ set. ap is_some (kept_answer-stored entry result until set now p early);
    is_fresh = rw (p.is_result, p.is_until) (ground arith);
    is_in_grace = λ s. rw (p.is_result, is_grace_over) (ground arith);
  }

  put_cached-room :
      (now : ℕ) (key : String) (result : R) (ttl : ℕ) (s : DedupState R E)
      → get s.entries key ≡ none
      → (put_cached now key result ttl s).1 ≡ not (leb s.max_entries (length s.entries))
  unfolding put_cached
  put_cached-room now key result ttl s unknown = rw (unknown, put_cached) (ground arith)

  get-put_cached_new :
      (now : ℕ) (key : String) (result : R) (ttl : ℕ) (s : DedupState R E)
      → get s.entries key ≡ none
      → leb s.max_entries (length s.entries) ≡ false
      → get (put_cached now key result ttl s).0.entries key
        ≡ some (record {
          event = s.next_event;
          result = some result;
          exception = none;
          expires_at = now + ttl;
          grace_until = 0;
        })
  unfolding put_cached set_event
  get-put_cached_new now key result ttl s unknown room =
      rw (unknown, put_cached, room)
        (ground (
          arith,
          ==_refl key,
          get-put s.entries key key (record {
            event = s.next_event;
            result = some result;
            exception = none;
            expires_at = now + ttl;
            grace_until = 0;
          }),
        ))

  get-put_cached_known :
      (now : ℕ) (key : String) (result : R) (ttl : ℕ) (entry : Entry R E) (s : DedupState R E)
      → get s.entries key ≡ some entry
      → get (put_cached now key result ttl s).0.entries key
        ≡ some (record entry { result = some result; exception = none; expires_at = now + ttl })
  unfolding put_cached set_event
  get-put_cached_known now key result ttl entry s found =
      rw (found, put_cached)
        (ground (
          arith,
          ==_refl key,
          get-put s.entries key key
              (record entry { result = some result; exception = none; expires_at = now + ttl }),
        ))

  put_cached-IsStored :
      (now : ℕ) (key : String) (result : R) (ttl : ℕ) (s : DedupState R E)
      → (put_cached now key result ttl s).1 ≡ true
      → (entry : Entry R E) × (get (put_cached now key result ttl s).0.entries key ≡ some entry)
        × IsStored entry result (now + ttl)
  put_cached-IsStored now key result ttl s stored = elim (Option-cases (get s.entries key)) [
    | inl unknown ↦ (
      record {
        event = s.next_event;
        result = some result;
        exception = none;
        expires_at = now + ttl;
        grace_until = 0;
      },
      get-put_cached_new now key result ttl s unknown
          (false_when_not (sym (put_cached-room now key result ttl s unknown) ∙ stored)),
      record { is_result = refl; no_exception = refl; is_until = refl },
    )
    | inr (entry, found) ↦ (
      record entry { result = some result; exception = none; expires_at = now + ttl },
      get-put_cached_known now key result ttl entry s found,
      record { is_result = refl; no_exception = refl; is_until = refl },
    )
  ]

  hit :
      (later : ℕ) (key : String) (entry : Entry R E) (result : R) (until : ℕ) (s : DedupState R E)
      → get s.entries key ≡ some entry
      → IsStored entry result until
      → later < until
      → (get_cached later key s ≡ (s, some result))
        × ((get_or_create_inflight later key s).1.is_leader ≡ false)
        × ((get_or_create_inflight later key s).1.cached ≡ some result)
  unfolding get_cached get_or_create_inflight
  hit later key entry result until s found p early = (
    rw (found, get_cached, p.is_result, p.is_until, p.no_exception) (ground arith),
    rw
        (
          found,
          get_or_create_inflight,
          kept_answer-stored entry result until (is_set s entry.event) later p early,
        )
        refl,
    rw
        (
          found,
          get_or_create_inflight,
          kept_answer-stored entry result until (is_set s entry.event) later p early,
        )
        refl,
  )

  -- A result that was stored for a time is handed out until that time is over: a look finds it, and
  -- a request with that key gets it and does not lead, whatever calls that read the clock before
  -- then, and neither complete, store, forget nor disconnect that key, come in between.
  pub put_cached-served :
      (now later : ℕ) (key : String) (result : R) (ttl : ℕ) (s : DedupState R E)
      (operations : List (Operation R E))
      → (put_cached now key result ttl s).1 ≡ true
      → All (λ operation. leaves_running key operation ≡ true) operations
      → All (λ operation. time operation < now + ttl) operations
      → later < now + ttl
      → ((get_cached later key (apply_all operations (put_cached now key result ttl s).0)).1
          ≡ some result)
        × ((get_or_create_inflight later key
              (apply_all operations (put_cached now key result ttl s).0)).1.is_leader
            ≡ false)
        × ((get_or_create_inflight later key
              (apply_all operations (put_cached now key result ttl s).0)).1.cached
            ≡ some result)
  put_cached-served now later key result ttl s operations stored leaves before early =
      let (entry, found, p) = put_cached-IsStored now key result ttl s stored in
      let (looked, follows, handed) =
        hit later key entry result (now + ttl)
          (apply_all operations (put_cached now key result ttl s).0)
          (get-apply_all operations key entry (put_cached now key result ttl s).0 leaves
            (weaken
              (λ operation early. stored-IsSteady entry result (now + ttl) (time operation) p early)
              operations before)
            found)
          p early in
      (ap (λ x. x.1) looked, follows, handed)

  lead-is_leader : (key : String) (s : DedupState R E) → (lead key s).1.is_leader ≡ true
  unfolding lead
  lead-is_leader key s = ground arith

  leads-gone :
      (now : ℕ) (key : String) (entry : Entry R E) (s : DedupState R E)
      → get s.entries key ≡ some entry
      → kept_answer entry (is_set s entry.event) now ≡ none
      → (get_or_create_inflight now key s).1.is_leader ≡ true
  unfolding get_or_create_inflight
  leads-gone now key entry s found gone =
      rw (found, get_or_create_inflight, gone)
        (lead-is_leader key (record s { entries = pop s.entries key }))

  -- Once the time of a result and the grace of its entry are over, a look finds nothing, and the
  -- next request leads.
  pub get_or_create_inflight-expired :
      (now : ℕ) (key : String) (entry : Entry R E) (result : R) (s : DedupState R E)
      → get s.entries key ≡ some entry
      → entry.result ≡ some result
      → entry.expires_at ≤ now
      → entry.grace_until ≤ now
      → ((get_cached now key s).1 ≡ none) × ((get_or_create_inflight now key s).1.is_leader ≡ true)
  unfolding get_cached kept_answer
  get_or_create_inflight-expired now key entry result s found done expired ungraced = (
    rw (found, get_cached, done) (ground arith),
    leads-gone now key entry s found (rw (done, kept_answer) (ground arith)),
  )

  is_set-complete_err :
      (key : String) (entry : Entry R E) (exc : E) (s : DedupState R E)
      → get s.entries key ≡ some entry
      → is_set (complete_err key exc s) entry.event ≡ true
  unfolding complete_err is_set set_event
  is_set-complete_err key entry exc s found =
      rw (found, complete_err) (ground (arith, ==_refl entry.event))

  get-complete_err :
      (key : String) (entry : Entry R E) (exc : E) (s : DedupState R E)
      → get s.entries key ≡ some entry
      → get (complete_err key exc s).entries key
        ≡ some (record entry { result = none; exception = some exc })
  unfolding complete_err set_event
  get-complete_err key entry exc s found =
      rw (found, complete_err)
        (ground (
          arith,
          ==_refl key,
          get-put s.entries key key (record entry { result = none; exception = some exc }),
        ))

  kept_answer-failed :
      (entry : Entry R E) (exc : E) (now : ℕ)
      → entry.grace_until ≤ now
      → kept_answer (record entry { result = none; exception = some exc }) true now ≡ none
  unfolding kept_answer
  kept_answer-failed entry exc now ungraced = ground arith

  -- An error is handed to no later request: completing a request that failed sets its event, which
  -- wakes who waits on it, and once the grace of its entry is over the next request leads.
  pub complete_err-retried :
      (now : ℕ) (key : String) (entry : Entry R E) (exc : E) (s : DedupState R E)
      → get s.entries key ≡ some entry
      → entry.grace_until ≤ now
      → (is_set (complete_err key exc s) entry.event ≡ true)
        × ((get_or_create_inflight now key (complete_err key exc s)).1.is_leader ≡ true)
  complete_err-retried now key entry exc s found ungraced = (
    is_set-complete_err key entry exc s found,
    leads-gone now key (record entry { result = none; exception = some exc })
        (complete_err key exc s) (get-complete_err key entry exc s found)
        (rw (is_set-complete_err key entry exc s found)
          (kept_answer-failed entry exc now ungraced)),
  )
