-- ===== src/Dedup/Steady.antt =====
-- dedup.py, `DedupState`: the calls that leave the entry of a request as it is.
use heimdall_gateway.Prelude.{
  ℕ, String, ◌≡◌, refl, ap, ◌∙◌, inl, inr, Bool, true, false, not, ◌&&◌, some, List, [], ◌∷◌, arith,
  eq_iff, leb, false_when_not, Bool-cases, Option-cases, is_some, ◌==◌, nat_key, string_key, All,
}
use heimdall_gateway.Dict.{get, retain, get-retain}
use heimdall_gateway.Dedup.{
  Entry, DedupState, is_set, kept_answer, get_or_create_inflight, get_cached, is_expired,
  is_grace_over, evict_expired,
}
use heimdall_gateway.Dedup.Operations.{
  Operation, request, ok, err, look, store, evict, disconnect, discard, apply, apply_all,
  leaves_running,
}
use heimdall_gateway.Dedup.Others.{
  request-other, ok-other, err-other, look-other, store-other, disconnect-other, forget-other,
}

-- neither a request, a look nor an eviction at the time changes the entry
pub record IsSteady {R E : Type 0} (entry : Entry R E) (now : ℕ) : Type 0 where
  pub is_kept : (set : Bool) → is_some (kept_answer entry set now) ≡ true
  pub is_fresh : (is_some entry.result && leb entry.expires_at now) ≡ false
  pub is_in_grace : (s : DedupState R E) → is_grace_over s now entry ≡ false

module _ {R E : Type 0} where
  -- the reading of the clock in a call that reads it
  unfoldable pub time : Operation R E → ℕ
  time (request now key) = now
  time (ok key result) = 0
  time (err key exc) = 0
  time (look now key) = now
  time (store now key result ttl) = now
  time (evict now) = now
  time (disconnect now key grace) = now
  time (discard now key grace) = now

  request-steady :
      (now : ℕ) (key : String) (entry : Entry R E) (s : DedupState R E)
      → IsSteady entry now
      → get s.entries key ≡ some entry
      → (get_or_create_inflight now key s).0 ≡ s
  unfolding get_or_create_inflight
  request-steady now key entry s steady found =
      elim (Option-cases (kept_answer entry (is_set s entry.event) now)) [
        | inl gone ↦ ground (arith, steady.is_kept (is_set s entry.event))
        | inr (cached, kept) ↦ rw (found, get_or_create_inflight, kept) refl
      ]

  look-steady :
      (now : ℕ) (key : String) (entry : Entry R E) (s : DedupState R E)
      → IsSteady entry now
      → get s.entries key ≡ some entry
      → (get_cached now key s).0 ≡ s
  unfolding get_cached
  look-steady now key entry s steady found = elim (Option-cases entry.result) [
    | inl running ↦ rw (found, get_cached, running) refl
    | inr (result, done) ↦ rw (found, get_cached, done) (ground (arith, steady.is_fresh))
  ]

  evict-steady :
      (now : ℕ) (key : String) (entry : Entry R E) (s : DedupState R E)
      → IsSteady entry now
      → get s.entries key ≡ some entry
      → get (evict_expired now s).0.entries key ≡ some entry
  unfolding evict_expired is_expired
  evict-steady now key entry s steady found = ground (
    arith,
    found,
    steady.is_fresh,
    steady.is_in_grace s,
    get-retain (λ j e. not (is_expired now e)) s.entries key,
    get-retain (λ j e. not (is_grace_over s now e))
        (retain (λ j e. not (is_expired now e)) s.entries) key,
  )

  get-same :
      (key j : String) {entry : Entry R E} (s t : DedupState R E)
      → (j == key) ≡ true
      → (get s.entries j ≡ some entry → t ≡ s)
      → get s.entries key ≡ some entry
      → get t.entries key ≡ some entry
  get-same key j s t same kept found =
      ap (λ x. get x.entries key) (kept (ap (get s.entries) ((eq_iff j key).0 same) ∙ found))
      ∙ found

  get-apply :
      (operation : Operation R E) (key : String) (entry : Entry R E) (s : DedupState R E)
      → leaves_running key operation ≡ true
      → IsSteady entry (time operation)
      → get s.entries key ≡ some entry
      → get (apply operation s).entries key ≡ some entry
  unfolding apply leaves_running time
  get-apply (request now j) key entry s leaves steady found = elim (Bool-cases (j == key)) [
    | inl same ↦
        get-same key j s (get_or_create_inflight now j s).0 same
          (request-steady now j entry s steady) found
    | inr other ↦ request-other now j key s other ∙ found
  ]
  get-apply (ok j result) key entry s leaves steady found =
      ok-other j key result s (false_when_not leaves) ∙ found
  get-apply (err j exc) key entry s leaves steady found =
      err-other j key exc s (false_when_not leaves) ∙ found
  get-apply (look now j) key entry s leaves steady found = elim (Bool-cases (j == key)) [
    | inl same ↦
        get-same key j s (get_cached now j s).0 same (look-steady now j entry s steady) found
    | inr other ↦ look-other now j key s other ∙ found
  ]
  get-apply (store now j result ttl) key entry s leaves steady found =
      store-other now j key result ttl s (false_when_not leaves) ∙ found
  get-apply (evict now) key entry s leaves steady found = evict-steady now key entry s steady found
  get-apply (disconnect now j grace) key entry s leaves steady found =
      disconnect-other now j key grace s (false_when_not leaves) ∙ found
  get-apply (discard now j grace) key entry s leaves steady found =
      forget-other now j key grace s (false_when_not leaves) ∙ found

  pub get-apply_all :
      (operations : List (Operation R E)) (key : String) (entry : Entry R E) (s : DedupState R E)
      → All (λ operation. leaves_running key operation ≡ true) operations
      → All (λ operation. IsSteady entry (time operation)) operations
      → get s.entries key ≡ some entry
      → get (apply_all operations s).entries key ≡ some entry
  unfolding apply_all
  get-apply_all [] key entry s leaves steady found = found
  get-apply_all (operation ∷ operations) key entry s (leaves, rest) (steady, later) found =
      get-apply_all operations key entry (apply operation s) rest later
        (get-apply operation key entry s leaves steady found)
