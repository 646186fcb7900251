-- ===== src/Dedup/Flight.antt =====
-- dedup.py, `DedupState`: one leader for each request in flight.
use heimdall_gateway.Prelude.{
  ℕ, String, ◌≡◌, refl, sym, ap, ◌∙◌, ◌⊎◌, inl, inr, Bool, true, false, none, some, List, arith,
  Option-cases, is_some, nat_key, string_key, ==_refl, All, every,
}
use heimdall_gateway.Dict.{get, pop, get-put}
use heimdall_gateway.Dedup.{
  Entry, DedupState, is_set, kept_answer, new_entry, lead, get_or_create_inflight, is_grace_over,
}
use heimdall_gateway.Dedup.Operations.{Operation, apply_all, leaves_running}
use heimdall_gateway.Dedup.Steady.{IsSteady, time, get-apply_all}

-- the entry of a request that runs, with its leader connected
pub record IsPending {R E : Type 0} (entry : Entry R E) (event : ℕ) : Type 0 where
  pub is_for : entry.event ≡ event
  pub no_result : entry.result ≡ none
  pub no_exception : entry.exception ≡ none
  pub no_grace : entry.grace_until ≡ 0

abbrev Pending : {R E : Type 0} → DedupState R E → String → ℕ → Type 0
Pending {R} {E} s key event =
    (entry : Entry R E) × (get s.entries key ≡ some entry) × IsPending entry event

module _ {R E : Type 0} where
  kept_answer-pending :
      (entry : Entry R E) (event : ℕ) (set : Bool) (now : ℕ)
      → IsPending entry event
      → kept_answer entry set now ≡ some none
  unfolding kept_answer
  kept_answer-pending entry event set now p =
      rw (p.no_result, p.no_exception, p.no_grace, kept_answer) (ground arith)

  follow-Pending :
      (now : ℕ) (key : String) (event : ℕ) (s : DedupState R E)
      → Pending s key event
      → get_or_create_inflight now key s
        ≡ (s, record { is_leader = false; event = some event; cached = none })
  unfolding get_or_create_inflight
  follow-Pending now key event s (entry, found, p) =
      rw
        (
          found,
          get_or_create_inflight,
          kept_answer-pending entry event (is_set s entry.event) now p,
          p.is_for,
        )
        refl

  pending-IsSteady :
      (entry : Entry R E) (event now : ℕ) → IsPending entry event → IsSteady entry now
  unfolding is_grace_over
  pending-IsSteady entry event now p = record {
    is_kept = λ set. ap is_some (kept_answer-pending entry event set now p);
    is_fresh = rw (p.no_result) refl;
    is_in_grace = λ s. rw (p.no_grace, is_grace_over) refl;
  }

  Pending-lead :
      (key : String) (event : ℕ) (s : DedupState R E)
      → (lead key s).1.event ≡ some event
      → Pending (lead key s).0 key event
  unfolding lead
  Pending-lead key event s leads = (
    new_entry event,
    ground (arith, leads, get-put s.entries key key (new_entry s.next_event), ==_refl key),
    record { is_for = refl; no_result = refl; no_exception = refl; no_grace = refl },
  )

  -- either the caller leads, from some state, or it follows
  get_or_create_inflight-cases :
      (now : ℕ) (key : String) (s : DedupState R E)
      → ((t : DedupState R E) × (get_or_create_inflight now key s ≡ lead key t))
        ⊎ ((get_or_create_inflight now key s).1.is_leader ≡ false)
  unfolding get_or_create_inflight
  get_or_create_inflight-cases now key s = elim (Option-cases (get s.entries key)) [
    | inl unknown ↦ inl (s, rw (unknown, get_or_create_inflight) refl)
    | inr (entry, found) ↦ elim (Option-cases (kept_answer entry (is_set s entry.event) now)) [
      | inl gone ↦
          inl (
            record s { entries = pop s.entries key },
            rw (found, get_or_create_inflight, gone) refl,
          )
      | inr (cached, kept) ↦ inr (rw (found, get_or_create_inflight, kept) refl)
    ]
  ]

  Pending-leader :
      (now : ℕ) (key : String) (event : ℕ) (s : DedupState R E)
      → (get_or_create_inflight now key s).1.is_leader ≡ true
      → (get_or_create_inflight now key s).1.event ≡ some event
      → Pending (get_or_create_inflight now key s).0 key event
  Pending-leader now key event s is_leader leads = elim (get_or_create_inflight-cases now key s) [
    | inl (t, led) ↦ rw (led) (Pending-lead key event t (ap (λ x. x.1.event) (sym led) ∙ leads))
    | inr follows ↦ cc
  ]

  -- Once a request leads a shared execution with an event, every request with the same key that
  -- comes before a call completes, stores, forgets or disconnects that key waits on the leader's
  -- event: it does not lead, gets no result yet, and changes nothing, whatever other calls come
  -- in between and whatever the clock reads.
  pub single_flight :
      (now later : ℕ) (key : String) (event : ℕ) (s : DedupState R E)
      (operations : List (Operation R E))
      → (get_or_create_inflight now key s).1.is_leader ≡ true
      → (get_or_create_inflight now key s).1.event ≡ some event
      → All (λ operation. leaves_running key operation ≡ true) operations
      → get_or_create_inflight later key (apply_all operations (get_or_create_inflight now key s).0)
        ≡ (
          apply_all operations (get_or_create_inflight now key s).0,
          record { is_leader = false; event = some event; cached = none },
        )
  single_flight now later key event s operations is_leader leads leaves =
      let (entry, found, p) = Pending-leader now key event s is_leader leads in
      follow-Pending later key event (apply_all operations (get_or_create_inflight now key s).0) (
        entry,
        get-apply_all operations key entry (get_or_create_inflight now key s).0 leaves
            (every (λ operation. pending-IsSteady entry event (time operation) p) operations) found,
        p,
      )
