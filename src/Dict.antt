-- ===== src/Dict.antt =====
-- Python's `dict`: an association list in insertion order, which a write to a known key keeps.
-- A dict holds one entry for each key, so what deletes a key deletes each entry of that key.
use heimdall_gateway.Prelude.{
  ◌+◌, ◌≤◌, ◌≡◌, refl, Bool, true, Option, none, some, List, [], ◌∷◌, arith, if◌then◌else◌, is_some,
  Key, ◌==◌, nat_key, string_key, length,
}

abbrev pub Dict : Type 0 → Type 0 → Type 0
Dict K V = List (K × V)

-- what a filter leaves of a lookup
abbrev pub keep : {V : Type 0} → (V → Bool) → Option V → Option V
keep p none = none
keep p (some v) = if p v then some v else none

module _ {K V : Type 0} ⦃key : Key K⦄ where
  -- d.get(k)
  unfoldable pub get : Dict K V → K → Option V
  get [] k = none
  get ((j, v) ∷ d) k = if j == k then some v else get d k

  -- d[k] = v
  unfoldable pub put : Dict K V → K → V → Dict K V
  put [] k v = (k, v) ∷ []
  put ((j, w) ∷ d) k v = if j == k then (k, v) ∷ d else (j, w) ∷ put d k v

  -- d.pop(k, None)
  unfoldable pub pop : Dict K V → K → Dict K V
  pop [] k = []
  pop ((j, w) ∷ d) k = let rest = pop d k in if j == k then rest else (j, w) ∷ rest

  -- {k: v for k, v in d.items() if p(k, v)}
  unfoldable pub retain : (K → V → Bool) → Dict K V → Dict K V
  unfolding pop
  retain p [] = []
  retain p ((j, w) ∷ d) = let rest = retain p d in if p j w then (j, w) ∷ rest else pop rest j

  pub get-put :
      (d : Dict K V) (k j : K) (v : V) → get (put d k v) j ≡ (if k == j then some v else get d j)
  unfolding get put
  get-put [] k j v = refl
  get-put ((i, w) ∷ d) k j v =
      ground (arith, key.same_iff k j, key.same_iff i k, key.same_iff i j, get-put d k j v)

  pub get-pop : (d : Dict K V) (k j : K) → get (pop d k) j ≡ (if k == j then none else get d j)
  unfolding get pop
  get-pop [] k j = ground arith
  get-pop ((i, w) ∷ d) k j =
      ground (arith, key.same_iff k j, key.same_iff i k, key.same_iff i j, get-pop d k j)

  pub get-retain :
      (p : K → V → Bool) (d : Dict K V) (j : K) → get (retain p d) j ≡ keep (p j) (get d j)
  unfolding get retain
  get-retain p [] j = refl
  get-retain p ((i, w) ∷ d) j =
      ground (arith, key.same_iff i j, get-pop (retain p d) i j, get-retain p d j)

  pub length-put-le : (d : Dict K V) (k : K) (v : V) → length (put d k v) ≤ length d + 1
  unfolding put
  length-put-le [] k v = omega arith
  length-put-le ((i, w) ∷ d) k v = ground (arith, length-put-le d k v)

  -- a write to a known key adds no entry
  pub length-put_known :
      (d : Dict K V) (k : K) (v : V) → is_some (get d k) ≡ true → length (put d k v) ≡ length d
  unfolding put get
  length-put_known [] k v found = cc
  length-put_known ((i, w) ∷ d) k v found = ground (arith, length-put_known d k v)

  pub length-pop-le : (d : Dict K V) (k : K) → length (pop d k) ≤ length d
  unfolding pop
  length-pop-le [] k = omega arith
  length-pop-le ((i, w) ∷ d) k = ground (arith, length-pop-le d k)

  pub length-retain-le : (p : K → V → Bool) (d : Dict K V) → length (retain p d) ≤ length d
  unfolding retain
  length-retain-le p [] = omega arith
  length-retain-le p ((i, w) ∷ d) =
      ground (arith, length-retain-le p d, length-pop-le (retain p d) i)
