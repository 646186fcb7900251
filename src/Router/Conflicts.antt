-- ===== src/Router/Conflicts.antt =====
-- _cli_impl.py: `replica_base_model_id`, `_matrix_models_conflict` and `blocking_conflicting_load`.
-- `membership` is what `_matrix_group_membership` reads from the rendered config.yaml: the names of
-- the sets that each model belongs to. Names are taken to have no line break, and digits are ASCII.
use Prim.Native.String.{String}
use heimdall_gateway.Prelude.{
  ℕ, ◌+◌, ◌-◌, ◌≤◌, ◌≡◌, refl, inl, inr, Bool, true, false, not, ◌&&◌, ◌||◌, Option, none, some,
  List, [], ◌∷◌, arith, eq_iff, ltb, leb, nat_eq, if◌then◌else◌, Option-cases, is_some, ◌==◌,
  nat_key, string_key, is_empty, any, all, drop, contains,
}
use heimdall_gateway.Dict.{Dict, get}
use heimdall_gateway.Prelude.Text.{codes, has_prefix}
use heimdall_gateway.Router.State.{ReplicaRouterState}
use heimdall_gateway.Router.Claims.{loading_claim_ttl}

abbrev pub is_digit : ℕ → Bool
is_digit c = leb b'0' c && leb c b'9'

-- \d*$
abbrev pub all_digits : List ℕ → Bool
all_digits text = all is_digit text

-- \d+$ after the ten characters of the tag
unfoldable pub is_number : List ℕ → Bool
is_number [] = false
is_number (c ∷ text) = is_digit c && all_digits text

-- __replica_\d+$ at the head of the text
unfoldable pub is_replica_tag : List ℕ → Bool
unfolding is_number drop has_prefix
is_replica_tag text = has_prefix (codes "__replica_") text && is_number (drop 10 text)

unfoldable pub replica_base_model_id : String → String
unfolding is_replica_tag
replica_base_model_id String.[] = ""
replica_base_model_id (String.◌∷◌ c text) =
    let rest = replica_base_model_id text in
    if is_replica_tag (codes (String.◌∷◌ c text)) then "" else String.◌∷◌ c rest

-- not sets
abbrev pub no_sets : Option (List String) → Bool
no_sets none = true
no_sets (some sets) = is_empty sets

abbrev pub sets_of : Option (List String) → List String
sets_of none = []
sets_of (some sets) = sets

module _ (membership : Dict String (List String)) where
  unfoldable pub matrix_models_conflict : String → String → Bool
  matrix_models_conflict base_a base_b =
      let sets_a = get membership base_a in
      let sets_b = get membership base_b in
      if no_sets sets_a || no_sets sets_b
      then true
      else any (contains (sets_of sets_b)) (sets_of sets_a)

  -- now - stamp, where stamp = deadline - LOADING_CLAIM_TTL_S; a claim's stamp is not in the future
  abbrev pub age_of : ℕ → ℕ → ℕ
  age_of now deadline = now + loading_claim_ttl - deadline

  -- a live claim of another model that may not be resident beside this one
  unfoldable pub blocks : String → ℕ → String → ℕ → Bool
  blocks self_base now key deadline =
      ltb now deadline
      && not (replica_base_model_id key == self_base)
      && matrix_models_conflict (replica_base_model_id key) self_base

  unfoldable pub blocking : String → ℕ → Dict String ℕ → List (String × ℕ)
  unfolding blocks
  blocking self_base now [] = []
  blocking self_base now ((key, deadline) ∷ claims) =
      let rest = blocking self_base now claims in
      if blocks self_base now key deadline
      then (replica_base_model_id key, age_of now deadline) ∷ rest
      else rest

  -- max(items, key=lambda item: item[1]): the first of the greatest
  unfoldable pub oldest : List (String × ℕ) → Option (String × ℕ)
  oldest [] = none
  oldest ((base, age) ∷ items) = elim (oldest items) [
    | none ↦ some (base, age)
    | some (other, greatest) ↦ if ltb age greatest then some (other, greatest) else some (base, age)
  ]

  unfoldable pub blocking_conflicting_load : String → ℕ → ReplicaRouterState → Option (String × ℕ)
  unfolding blocking oldest
  blocking_conflicting_load model_id now s =
      oldest (blocking (replica_base_model_id model_id) now s.loading_claims)

  oldest-none : (items : List (String × ℕ)) → is_some (oldest items) ≡ not (is_empty items)
  unfolding oldest
  oldest-none [] = refl
  oldest-none ((base, age) ∷ items) = ground arith

  blocking-is_empty :
      (self_base : String) (now : ℕ) (claims : Dict String ℕ)
      → is_empty (blocking self_base now claims)
        ≡ not (any (λ claim. blocks self_base now claim.0 claim.1) claims)
  unfolding blocking
  blocking-is_empty self_base now [] = refl
  blocking-is_empty self_base now ((key, deadline) ∷ claims) =
      ground (arith, blocking-is_empty self_base now claims)

  -- A load is let through exactly when no live loading claim is of a different model whose sets may
  -- conflict with this one's: a claim of the model itself or of one of its replicas never blocks.
  pub blocking_conflicting_load-admits :
      (model_id : String) (now : ℕ) (s : ReplicaRouterState)
      → is_some (blocking_conflicting_load model_id now s)
        ≡ any
            (λ claim. blocks (replica_base_model_id model_id) now claim.0 claim.1)
            s.loading_claims
  unfolding blocking_conflicting_load
  blocking_conflicting_load-admits model_id now s = ground (
    arith,
    oldest-none (blocking (replica_base_model_id model_id) now s.loading_claims),
    blocking-is_empty (replica_base_model_id model_id) now s.loading_claims,
  )

  -- the item is in the list, and none is older
  abbrev pub is_oldest : List (String × ℕ) → String → ℕ → Bool
  is_oldest items base age =
      any (λ item. item.0 == base && nat_eq item.1 age) items && all (λ item. leb item.1 age) items

  all-le :
      (items : List (String × ℕ)) (a b : ℕ)
      → a ≤ b
      → all (λ item. leb item.1 a) items ≡ true
      → all (λ item. leb item.1 b) items ≡ true
  all-le [] a b le fits = refl
  all-le ((base, age) ∷ items) a b le fits = ground (arith, all-le items a b le)

  oldest-empty : (items : List (String × ℕ)) → oldest items ≡ none → items ≡ []
  oldest-empty [] gone = refl
  oldest-empty (item ∷ items) gone = cc (oldest-none (item ∷ items))

  all-empty :
      (items : List (String × ℕ)) (a : ℕ) → items ≡ [] → all (λ item. leb item.1 a) items ≡ true
  all-empty items a empty = rw (empty) refl

  oldest-is_oldest :
      (items : List (String × ℕ)) (base : String) (age : ℕ)
      → oldest items ≡ some (base, age)
      → is_oldest items base age ≡ true
  unfolding oldest
  oldest-is_oldest [] base age found = cc
  oldest-is_oldest ((b, a) ∷ items) base age found = elim (Option-cases (oldest items)) [
    | inl none_left ↦ ground (
      arith,
      oldest-empty items none_left,
      eq_iff b base,
      all-empty items a (oldest-empty items none_left),
    )
    | inr ((other, greatest), kept) ↦ ground (
      arith,
      oldest-is_oldest items other greatest kept,
      eq_iff b base,
      eq_iff other base,
      all-le items greatest a,
    )
  ]

  -- The model named as the blocker is one that blocks, and its claim is the oldest of those.
  pub blocking_conflicting_load-oldest :
      (model_id base : String) (age now : ℕ) (s : ReplicaRouterState)
      → blocking_conflicting_load model_id now s ≡ some (base, age)
      → is_oldest (blocking (replica_base_model_id model_id) now s.loading_claims) base age ≡ true
  unfolding blocking_conflicting_load
  blocking_conflicting_load-oldest model_id base age now s found =
      oldest-is_oldest (blocking (replica_base_model_id model_id) now s.loading_claims) base age
        found
