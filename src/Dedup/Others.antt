-- ===== src/Dedup/Others.antt =====
-- dedup.py, `DedupState`: a call about one request leaves the entries of the others.
use heimdall_gateway.Prelude.{
  ℕ, ◌+◌, String, ◌≡◌, refl, ◌∙◌, inl, inr, false, none, some, arith, Option-cases, ◌==◌, nat_key,
  string_key,
}
use heimdall_gateway.Dict.{get, pop, get-put, get-pop}
use heimdall_gateway.Dedup.{
  DedupState, is_set, set_event, kept_answer, new_entry, lead, get_or_create_inflight, complete_ok,
  complete_err, get_cached, put_cached, mark_disconnected, forget,
}

module _ {R E : Type 0} where
  lead-other :
      (j key : String) (s : DedupState R E)
      → (j == key) ≡ false
      → get (lead j s).0.entries key ≡ get s.entries key
  unfolding lead
  lead-other j key s other = ground (arith, get-put s.entries j key (new_entry s.next_event))

  pub request-other :
      (now : ℕ) (j key : String) (s : DedupState R E)
      → (j == key) ≡ false
      → get (get_or_create_inflight now j s).0.entries key ≡ get s.entries key
  unfolding get_or_create_inflight
  request-other now j key s other = elim (Option-cases (get s.entries j)) [
    | inl unknown ↦ rw (unknown, get_or_create_inflight) (lead-other j key s other)
    | inr (entry, found) ↦ elim (Option-cases (kept_answer entry (is_set s entry.event) now)) [
      | inl gone ↦
          rw (found, gone, get_or_create_inflight)
            (lead-other j key (record s { entries = pop s.entries j }) other
              ∙ ground (arith, get-pop s.entries j key))
      | inr (cached, kept) ↦ rw (found, kept, get_or_create_inflight) refl
    ]
  ]

  pub ok-other :
      (j key : String) (result : R) (s : DedupState R E)
      → (j == key) ≡ false
      → get (complete_ok j result s).entries key ≡ get s.entries key
  unfolding complete_ok set_event
  ok-other j key result s other = elim (Option-cases (get s.entries j)) [
    | inl unknown ↦ rw (unknown, complete_ok) refl
    | inr (entry, found) ↦
        rw (found, complete_ok)
          (ground (
            arith,
            get-put s.entries j key (record entry { result = some result; exception = none }),
          ))
  ]

  pub err-other :
      (j key : String) (exc : E) (s : DedupState R E)
      → (j == key) ≡ false
      → get (complete_err j exc s).entries key ≡ get s.entries key
  unfolding complete_err set_event
  err-other j key exc s other = elim (Option-cases (get s.entries j)) [
    | inl unknown ↦ rw (unknown, complete_err) refl
    | inr (entry, found) ↦
        rw (found, complete_err)
          (ground
            (arith, get-put s.entries j key (record entry { result = none; exception = some exc })))
  ]

  pub look-other :
      (now : ℕ) (j key : String) (s : DedupState R E)
      → (j == key) ≡ false
      → get (get_cached now j s).0.entries key ≡ get s.entries key
  unfolding get_cached
  look-other now j key s other = elim (Option-cases (get s.entries j)) [
    | inl unknown ↦ rw (unknown, get_cached) refl
    | inr (entry, found) ↦ elim (Option-cases entry.result) [
      | inl running ↦ rw (found, running, get_cached) refl
      | inr (result, done) ↦ rw (found, done, get_cached) (ground (arith, get-pop s.entries j key))
    ]
  ]

  pub store-other :
      (now : ℕ) (j key : String) (result : R) (ttl : ℕ) (s : DedupState R E)
      → (j == key) ≡ false
      → get (put_cached now j result ttl s).0.entries key ≡ get s.entries key
  unfolding put_cached set_event
  store-other now j key result ttl s other = elim (Option-cases (get s.entries j)) [
    | inl unknown ↦
        rw (unknown, put_cached)
          (ground (
            arith,
            get-put s.entries j key (record {
              event = s.next_event;
              result = some result;
              exception = none;
              expires_at = now + ttl;
              grace_until = 0;
            }),
          ))
    | inr (entry, found) ↦
        rw (found, put_cached)
          (ground (
            arith,
            get-put s.entries j key
                (record entry { result = some result; exception = none; expires_at = now + ttl }),
          ))
  ]

  pub disconnect-other :
      (now : ℕ) (j key : String) (grace : ℕ) (s : DedupState R E)
      → (j == key) ≡ false
      → get (mark_disconnected now j grace s).0.entries key ≡ get s.entries key
  unfolding mark_disconnected
  disconnect-other now j key grace s other = elim (Option-cases (get s.entries j)) [
    | inl unknown ↦ rw (unknown, mark_disconnected) refl
    | inr (entry, found) ↦
        rw (found, mark_disconnected)
          (ground (arith, get-put s.entries j key (record entry { grace_until = now + grace })))
  ]

  pub forget-other :
      (now : ℕ) (j key : String) (grace : ℕ) (s : DedupState R E)
      → (j == key) ≡ false
      → get (forget now j grace s).entries key ≡ get s.entries key
  unfolding forget
  forget-other now j key grace s other = elim (Option-cases (get s.entries j)) [
    | inl unknown ↦ rw (unknown, forget) refl
    | inr (entry, found) ↦
        rw (found, forget)
          (ground (
            arith,
            get-pop s.entries j key,
            get-put s.entries j key (record entry { grace_until = now + grace }),
          ))
  ]
