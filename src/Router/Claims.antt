-- ===== src/Router/Claims.antt =====
-- _cli_impl.py: `ReplicaRouterState.claim_loading`, `release_loading_claim`, and the end of a claim
-- in `request_finished`. Whether a llama-server process of a base model runs
-- (`get_catalog_model_process`) is an argument.
use heimdall_gateway.Prelude.{
  ℕ, ◌+◌, ◌≤◌, String, ◌≡◌, ap, Bool, true, false, not, ◌||◌, Option, none, some, arith, ltb,
  if◌then◌else◌, Option-cases, ◌==◌, nat_key, string_key, ==_refl,
}
use heimdall_gateway.Dict.{get, put, pop, retain, get-put, get-pop, get-retain}
use heimdall_gateway.Policy.Faults.{Fault}
use heimdall_gateway.Router.State.{RecordStatus, status_ready, ReplicaRecord, ReplicaRouterState}
use heimdall_gateway.Router.Requests.{drop_claims, request_finished}

abbrev pub loading_claim_ttl : ℕ
loading_claim_ttl = 900000

abbrev is_ready : RecordStatus → Bool
is_ready status_ready = true
is_ready _ = false

abbrev ready_record : Option ReplicaRecord → Bool
ready_record none = false
ready_record (some rec) = is_ready rec.status

-- `running` is what get_catalog_model_process finds of a base model
unfoldable pub process_loaded : String → Bool → Bool → ReplicaRouterState → Bool
process_loaded model_id is_replica running s =
    if is_replica then ready_record (get s.records model_id) else running

unfoldable pub drop_expired_claims : ℕ → ReplicaRouterState → ReplicaRouterState
drop_expired_claims now s = record s {
  loading_claims = retain (λ k deadline. ltb now deadline) s.loading_claims;
}

abbrev is_claimed : ℕ → Option ℕ → Bool
is_claimed now none = false
is_claimed now (some deadline) = ltb now deadline

-- `claim_key or model_id`
abbrev pub key_or_model : Option String → String → String
key_or_model none model_id = model_id
key_or_model (some k) model_id = if k == "" then model_id else k

unfoldable pub claim_loading :
    String → Bool → Bool → Option String → ℕ → ReplicaRouterState → ReplicaRouterState × Bool
unfolding process_loaded drop_expired_claims
claim_loading model_id is_replica running claim_key now s =
    let key = key_or_model claim_key model_id in
    let t = drop_expired_claims now s in
    if process_loaded model_id is_replica running s
    then (record t { loading_claims = pop t.loading_claims key }, true)
    else if is_claimed now (get t.loading_claims key)
    then (t, false)
    else (
      record t {
        loading_claims = put t.loading_claims key (now + loading_claim_ttl);
        loading_claim_aliases = put t.loading_claim_aliases model_id key;
      },
      true,
    )

unfoldable pub release_loading_claim : String → ReplicaRouterState → ReplicaRouterState
release_loading_claim model_id s =
    let claim_key = key_or_model (get s.loading_claim_aliases model_id) model_id in
    record s {
      loading_claim_aliases = pop s.loading_claim_aliases model_id;
      loading_claims = pop (pop s.loading_claims model_id) claim_key;
    }

-- Someone holds the claim of `key` at `now`.
unfoldable pub held : ReplicaRouterState → String → ℕ → Bool
held s key now = is_claimed now (get s.loading_claims key)

pub held_alike :
    (s t : ReplicaRouterState) (key : String) (now : ℕ)
    → s.loading_claims ≡ t.loading_claims
    → held s key now ≡ held t key now
unfolding held
held_alike s t key now same = ap (λ claims. is_claimed now (get claims key)) same

loading_claims-finished :
    (id : String) (ok : Bool) (fault : Fault) (now : ℕ) (s : ReplicaRouterState)
    → (request_finished id ok fault now s).loading_claims ≡ (drop_claims id s).loading_claims
unfolding request_finished
loading_claims-finished id ok fault now s = ground (arith, Option-cases (get s.records id))

held-drop_claims :
    (id key : String) (later : ℕ) (s : ReplicaRouterState)
    → (key == "") ≡ false
    → get s.loading_claim_aliases id ≡ some key
    → held (drop_claims id s) key later ≡ false
unfolding drop_claims held
held-drop_claims id key later s named alias =
    ground (arith, ==_refl key, get-pop (pop s.loading_claims id) key key)

held-finished :
    (id key : String) (ok : Bool) (fault : Fault) (now later : ℕ) (s : ReplicaRouterState)
    → (key == "") ≡ false
    → get s.loading_claim_aliases id ≡ some key
    → held (request_finished id ok fault now s) key later ≡ false
unfolding held
held-finished id key ok fault now later s named alias =
    rw (loading_claims-finished id ok fault now s) (held-drop_claims id key later s named alias)

pub held-release :
    (id key : String) (later : ℕ) (s : ReplicaRouterState)
    → (key == "") ≡ false
    → get s.loading_claim_aliases id ≡ some key
    → held (release_loading_claim id s) key later ≡ false
unfolding release_loading_claim held
held-release id key later s named alias =
    ground (arith, ==_refl key, get-pop (pop s.loading_claims id) key key)

module _ (model_id : String) (is_replica running : Bool) (claim_key : Option String) (now : ℕ)
    (s : ReplicaRouterState) where
  -- A request may drive a load exactly when its target is loaded already or nobody holds the
  -- claim. At its time and at every later one: if it is let through to an unloaded target it holds
  -- the claim for 900 s; if it is refused the holder keeps it; if the target is loaded there is no
  -- claim.
  pub claim_loading_lem :
      (later : ℕ)
      → now ≤ later
      → let key = key_or_model claim_key model_id in
        let loaded = process_loaded model_id is_replica running s in
        let (t, granted) = claim_loading model_id is_replica running claim_key now s in
        (granted ≡ loaded || not (held s key now))
        × (held t key later ≡ (
            if loaded
            then false
            else if held s key now
            then held s key later
            else ltb later (now + loading_claim_ttl)))
  unfolding claim_loading held
  claim_loading_lem later after =
      let key = key_or_model claim_key model_id in
      let kept = retain (λ k deadline. ltb now deadline) s.loading_claims in
      (
        ground (arith, get-retain (λ k deadline. ltb now deadline) s.loading_claims key),
        ground (
          arith,
          ==_refl key,
          get-retain (λ k deadline. ltb now deadline) s.loading_claims key,
          get-pop kept key key,
          get-put kept key key (now + loading_claim_ttl),
        ),
      )

  -- A claim on one key takes no other key's claim and gives none: who else may load is as before,
  -- now and later.
  pub claim_loading-other :
      (j : String) (later : ℕ)
      → now ≤ later
      → (key_or_model claim_key model_id == j) ≡ false
      → held (claim_loading model_id is_replica running claim_key now s).0 j later ≡ held s j later
  unfolding claim_loading held
  claim_loading-other j later after other =
      let key = key_or_model claim_key model_id in
      let kept = retain (λ k deadline. ltb now deadline) s.loading_claims in
      ground (
        arith,
        get-retain (λ k deadline. ltb now deadline) s.loading_claims j,
        get-pop kept key j,
        get-put kept key j (now + loading_claim_ttl),
      )

  pub granted_alias :
      process_loaded model_id is_replica running s ≡ false
      → (claim_loading model_id is_replica running claim_key now s).1 ≡ true
      → get
          (claim_loading model_id is_replica running claim_key now s).0.loading_claim_aliases
          model_id
        ≡ some (key_or_model claim_key model_id)
  unfolding claim_loading
  granted_alias unloaded granted = ground (
    arith,
    ==_refl model_id,
    get-put s.loading_claim_aliases model_id model_id (key_or_model claim_key model_id),
  )

  -- The claim that a request was granted for an unloaded target ends with the request: after
  -- `request_finished`, whatever the outcome, and after `release_loading_claim`, nobody holds it.
  pub claim_loading-ends :
      (ok : Bool) (fault : Fault) (end later : ℕ)
      → (key_or_model claim_key model_id == "") ≡ false
      → process_loaded model_id is_replica running s ≡ false
      → (claim_loading model_id is_replica running claim_key now s).1 ≡ true
      → let t = (claim_loading model_id is_replica running claim_key now s).0 in
        (held (request_finished model_id ok fault end t) (key_or_model claim_key model_id) later
          ≡ false)
        × (held (release_loading_claim model_id t) (key_or_model claim_key model_id) later ≡ false)
  claim_loading-ends ok fault end later named unloaded granted =
      let t = (claim_loading model_id is_replica running claim_key now s).0 in
      let key = key_or_model claim_key model_id in
      let alias = granted_alias unloaded granted in
      (
        held-finished model_id key ok fault end later t named alias,
        held-release model_id key later t named alias,
      )
