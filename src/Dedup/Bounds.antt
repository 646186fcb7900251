-- ===== src/Dedup/Bounds.antt =====
-- dedup.py, `DedupState`: the number of entries.
use heimdall_gateway.Prelude.{
  ℕ, ◌+◌, ◌≤◌, String, ◌≡◌, ap, inl, inr, not, none, some, List, [], ◌∷◌, arith, Option-cases,
  is_some, nat_key, string_key, length,
}
use heimdall_gateway.Dict.{
  get, put, pop, retain, length-put-le, length-put_known, length-pop-le, length-retain-le,
}
use heimdall_gateway.Dedup.{
  Entry, DedupState, is_set, set_event, kept_answer, new_entry, lead, get_or_create_inflight,
  complete_ok, complete_err, get_cached, put_cached, is_expired, is_grace_over, evict_expired,
  mark_disconnected, forget,
}
use heimdall_gateway.Dedup.Operations.{
  Operation, request, ok, err, look, store, evict, disconnect, discard, apply, apply_all,
}

-- the limit of the state, and its entries within it
abbrev pub IsWithin : {R E : Type 0} → ℕ → DedupState R E → Type 0
IsWithin limit s = (s.max_entries ≡ limit) × (length s.entries ≤ limit)

module _ {R E : Type 0} where
  IsWithin-lead :
      {limit : ℕ} (key : String) (s : DedupState R E)
      → IsWithin limit s
      → IsWithin limit (lead key s).0
  unfolding lead
  IsWithin-lead key s within = ground (arith, length-put-le s.entries key (new_entry s.next_event))

  IsWithin-pop :
      {limit : ℕ} (key : String) (s : DedupState R E)
      → IsWithin limit s
      → IsWithin limit (record s { entries = pop s.entries key })
  IsWithin-pop key s within = ground (arith, length-pop-le s.entries key)

  IsWithin-put :
      {limit : ℕ} (key : String) (entry e : Entry R E) (s : DedupState R E)
      → get s.entries key ≡ some entry
      → IsWithin limit s
      → IsWithin limit (record s { entries = put s.entries key e })
  IsWithin-put key entry e s found within =
      ground (arith, length-put_known s.entries key e (ap is_some found))

  IsWithin-request :
      {limit : ℕ} (now : ℕ) (key : String) (s : DedupState R E)
      → IsWithin limit s
      → IsWithin limit (get_or_create_inflight now key s).0
  unfolding get_or_create_inflight
  IsWithin-request now key s within = elim (Option-cases (get s.entries key)) [
    | inl unknown ↦ rw (unknown, get_or_create_inflight) (IsWithin-lead key s within)
    | inr (entry, found) ↦ elim (Option-cases (kept_answer entry (is_set s entry.event) now)) [
      | inl gone ↦
          rw (found, get_or_create_inflight, gone)
            (IsWithin-lead key (record s { entries = pop s.entries key })
              (IsWithin-pop key s within))
      | inr (cached, kept) ↦ rw (found, get_or_create_inflight, kept) within
    ]
  ]

  IsWithin-ok :
      {limit : ℕ} (key : String) (result : R) (s : DedupState R E)
      → IsWithin limit s
      → IsWithin limit (complete_ok key result s)
  unfolding complete_ok set_event
  IsWithin-ok key result s within = elim (Option-cases (get s.entries key)) [
    | inl unknown ↦ rw (unknown, complete_ok) within
    | inr (entry, found) ↦
        rw (found, complete_ok)
          (IsWithin-put key entry (record entry { result = some result; exception = none }) s found
            within)
  ]

  IsWithin-err :
      {limit : ℕ} (key : String) (exc : E) (s : DedupState R E)
      → IsWithin limit s
      → IsWithin limit (complete_err key exc s)
  unfolding complete_err set_event
  IsWithin-err key exc s within = elim (Option-cases (get s.entries key)) [
    | inl unknown ↦ rw (unknown, complete_err) within
    | inr (entry, found) ↦
        rw (found, complete_err)
          (IsWithin-put key entry (record entry { result = none; exception = some exc }) s found
            within)
  ]

  IsWithin-look :
      {limit : ℕ} (now : ℕ) (key : String) (s : DedupState R E)
      → IsWithin limit s
      → IsWithin limit (get_cached now key s).0
  unfolding get_cached
  IsWithin-look now key s within = elim (Option-cases (get s.entries key)) [
    | inl unknown ↦ rw (unknown, get_cached) within
    | inr (entry, found) ↦ elim (Option-cases entry.result) [
      | inl running ↦ rw (found, get_cached, running) within
      | inr (result, done) ↦
          rw (found, get_cached, done) (ground (arith, IsWithin-pop key s within))
    ]
  ]

  IsWithin-store :
      {limit : ℕ} (now : ℕ) (key : String) (result : R) (ttl : ℕ) (s : DedupState R E)
      → IsWithin limit s
      → IsWithin limit (put_cached now key result ttl s).0
  unfolding put_cached set_event
  IsWithin-store now key result ttl s within = elim (Option-cases (get s.entries key)) [
    | inl unknown ↦
        rw (unknown, put_cached)
          (ground (
            arith,
            length-put-le s.entries key (record {
              event = s.next_event;
              result = some result;
              exception = none;
              expires_at = now + ttl;
              grace_until = 0;
            }),
          ))
    | inr (entry, found) ↦
        rw (found, put_cached)
          (IsWithin-put key entry
            (record entry { result = some result; exception = none; expires_at = now + ttl }) s
            found within)
  ]

  IsWithin-evict :
      {limit : ℕ} (now : ℕ) (s : DedupState R E)
      → IsWithin limit s
      → IsWithin limit (evict_expired now s).0
  unfolding evict_expired
  IsWithin-evict now s within = ground (
    arith,
    length-retain-le (λ key e. not (is_expired now e)) s.entries,
    length-retain-le (λ key e. not (is_grace_over s now e))
        (retain (λ key e. not (is_expired now e)) s.entries),
  )

  IsWithin-disconnect :
      {limit : ℕ} (now : ℕ) (key : String) (grace : ℕ) (s : DedupState R E)
      → IsWithin limit s
      → IsWithin limit (mark_disconnected now key grace s).0
  unfolding mark_disconnected
  IsWithin-disconnect now key grace s within = elim (Option-cases (get s.entries key)) [
    | inl unknown ↦ rw (unknown, mark_disconnected) within
    | inr (entry, found) ↦
        rw (found, mark_disconnected)
          (IsWithin-put key entry (record entry { grace_until = now + grace }) s found within)
  ]

  IsWithin-forget :
      {limit : ℕ} (now : ℕ) (key : String) (grace : ℕ) (s : DedupState R E)
      → IsWithin limit s
      → IsWithin limit (forget now key grace s)
  unfolding forget
  IsWithin-forget now key grace s within = elim (Option-cases (get s.entries key)) [
    | inl unknown ↦ rw (unknown, forget) within
    | inr (entry, found) ↦
        rw (found, forget)
          (ground (
            arith,
            IsWithin-pop key s within,
            IsWithin-put key entry (record entry { grace_until = now + grace }) s found within,
          ))
  ]

  apply-IsWithin :
      {limit : ℕ} (operation : Operation R E) (s : DedupState R E)
      → IsWithin limit s
      → IsWithin limit (apply operation s)
  unfolding apply
  apply-IsWithin (request now key) s = IsWithin-request now key s
  apply-IsWithin (ok key result) s = IsWithin-ok key result s
  apply-IsWithin (err key exc) s = IsWithin-err key exc s
  apply-IsWithin (look now key) s = IsWithin-look now key s
  apply-IsWithin (store now key result ttl) s = IsWithin-store now key result ttl s
  apply-IsWithin (evict now) s = IsWithin-evict now s
  apply-IsWithin (disconnect now key grace) s = IsWithin-disconnect now key grace s
  apply-IsWithin (discard now key grace) s = IsWithin-forget now key grace s

  -- No sequence of calls brings the number of entries above `max_entries`, and none changes that limit.
  pub apply_all-IsWithin :
      {limit : ℕ} (operations : List (Operation R E)) (s : DedupState R E)
      → IsWithin limit s
      → IsWithin limit (apply_all operations s)
  unfolding apply_all
  apply_all-IsWithin [] s within = within
  apply_all-IsWithin (operation ∷ operations) s within =
      apply_all-IsWithin operations (apply operation s) (apply-IsWithin operation s within)
