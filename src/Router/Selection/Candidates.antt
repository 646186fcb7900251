-- ===== src/Router/Selection/Candidates.antt =====
-- _cli_impl.py, `_find_affinity_spillover_candidate`: which targets it may answer.
use heimdall_gateway.Prelude.{
  ℕ, String, ◌≡◌, inl, inr, Bool, false, some, List, [], ◌∷◌, ◌++◌, arith, ltb, leb, Bool-cases,
  Option-cases, if_elim, ◌==◌, nat_key, string_key, is_empty, filter, All, filter-All, append-All,
}
use heimdall_gateway.Dict.{get}
use heimdall_gateway.Router.State.{ReplicaRouterState}
use heimdall_gateway.Router.Selection.{
  insert_by, sort_by, Candidate, replica_candidates, usable, idle_before, busy_before, first_target,
  base_candidates, find_affinity_spillover_candidate,
}

Elsewhere : String → Candidate → Type 0
Elsewhere bound_target c = (c.target == bound_target) ≡ false

module _ (bound_target : String) where
  replica_candidates-Elsewhere :
      (now : ℕ) (s : ReplicaRouterState) (rids : List String)
      → All (Elsewhere bound_target) (replica_candidates bound_target now s rids)
  unfolding replica_candidates Elsewhere
  replica_candidates-Elsewhere now s [] = tt
  replica_candidates-Elsewhere now s (rid ∷ rids) =
      let rest = replica_candidates-Elsewhere now s rids in
      elim (Bool-cases (rid == bound_target)) [
        | inl same ↦ rw (replica_candidates, same) rest
        | inr other ↦ elim (Option-cases (get s.records rid)) [
          | inl unknown ↦ rw (replica_candidates, other, unknown) rest
          | inr (rec, found) ↦
              rw (replica_candidates, other, found)
                (if_elim (All (Elsewhere bound_target)) (ltb now rec.blacklist_until) _ _ rest
                  (other, rest))
        ]
      ]

  base_candidates-Elsewhere :
      (base : String) (s : ReplicaRouterState)
      → All (Elsewhere bound_target) (base_candidates base bound_target s)
  unfolding base_candidates Elsewhere
  base_candidates-Elsewhere base s = elim (Bool-cases (base == bound_target)) [
    | inl same ↦ rw (base_candidates, same) tt
    | inr other ↦ rw (base_candidates, other) (other, tt)
  ]

  insert_by-Elsewhere :
      (before : Candidate → Candidate → Bool) (c : Candidate) (cs : List Candidate)
      → Elsewhere bound_target c
      → All (Elsewhere bound_target) cs
      → All (Elsewhere bound_target) (insert_by before c cs)
  unfolding insert_by
  insert_by-Elsewhere before c [] away others = (away, tt)
  insert_by-Elsewhere before c (d ∷ ds) away (other, others) =
      if_elim (All (Elsewhere bound_target)) (before d c) _ _
        (other, insert_by-Elsewhere before c ds away others) (away, (other, others))

  sort_by-Elsewhere :
      (before : Candidate → Candidate → Bool) (cs : List Candidate)
      → All (Elsewhere bound_target) cs
      → All (Elsewhere bound_target) (sort_by before cs)
  unfolding sort_by
  sort_by-Elsewhere before [] others = tt
  sort_by-Elsewhere before (c ∷ cs) (away, others) =
      insert_by-Elsewhere before c (sort_by before cs) away (sort_by-Elsewhere before cs others)

  first_target-Elsewhere :
      (cs : List Candidate) (target : String)
      → All (Elsewhere bound_target) cs
      → first_target cs ≡ some target
      → (target == bound_target) ≡ false
  unfolding Elsewhere
  first_target-Elsewhere [] target others found = cc
  first_target-Elsewhere (c ∷ cs) target (away, others) found = ground (arith, found, away)

  -- The replacement that is found for an owner is another target than that owner.
  pub find_affinity_spillover_candidate-elsewhere :
      (base target : String) (rids : List String) (now : ℕ) (s : ReplicaRouterState)
      → find_affinity_spillover_candidate base rids bound_target now s ≡ some target
      → (target == bound_target) ≡ false
  unfolding find_affinity_spillover_candidate
  find_affinity_spillover_candidate-elsewhere base target rids now s found =
      let candidates =
        replica_candidates bound_target now s rids ++ base_candidates base bound_target s in
      let away =
        append-All (Elsewhere bound_target) (replica_candidates bound_target now s rids)
          (base_candidates base bound_target s) (replica_candidates-Elsewhere now s rids)
          (base_candidates-Elsewhere base s) in
      let able = filter-All (Elsewhere bound_target) (usable base s) candidates away in
      let free =
        filter-All (Elsewhere bound_target) (λ c. leb c.in_flight 0)
          (filter (usable base s) candidates) able in
      if_elim (λ t. t ≡ some target → (target == bound_target) ≡ false)
        (is_empty (filter (λ c. leb c.in_flight 0) (filter (usable base s) candidates))) _ _
        (first_target-Elsewhere _ target (sort_by-Elsewhere (busy_before base) _ able))
        (first_target-Elsewhere _ target (sort_by-Elsewhere (idle_before base) _ free)) found
