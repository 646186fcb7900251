-- ===== src/Router/Selection/Owned.antt =====
-- _cli_impl.py, `select_replica_for_request`: a conversation that has an owner.
use heimdall_gateway.Prelude.{
  ℕ, ◌+◌, ◌<◌, String, ◌≡◌, refl, ap, ◌∙◌, ◌⊎◌, inl, inr, Bool, true, false, not, ◌&&◌, Option,
  none, some, List, arith, Bool-cases, ◌==◌, nat_key, string_key, ==_refl, is_empty, contains,
}
use heimdall_gateway.Dict.{Dict, get, get-put}
use heimdall_gateway.Policy.Targets.{TransferReason, sticky_refresh, TargetHealth, evacuate}
use heimdall_gateway.Policy.Config.{AffinityConfig}
use heimdall_gateway.Policy.Transfer.{decide, MayLeave, decide-evacuate_iff}
use heimdall_gateway.Router.State.{ReplicaRouterState}
use heimdall_gateway.Router.Binding.{live_binding, bind_free, bind, unexpired, owner_of}
use heimdall_gateway.Router.Prune.{found_response, response_replica, prune, prune-readers}
use heimdall_gateway.Router.Health.{health_of}
use heimdall_gateway.Router.Health.Evidence.{health_of-affinity}
use heimdall_gateway.Router.Selection.{
  RouteContext, replica_ids, published_replica_ids, is_kept, has_alternatives, route_owned,
}
use heimdall_gateway.Router.Selection.Request.{
  set_records, mapped_replica, known_replica, route, select_replica_for_request,
}

owner_of-refreshed :
    (cfg : AffinityConfig) (key owner : String) (reason : TransferReason) (ttl now : ℕ)
    (s : ReplicaRouterState)
    → 0 < ttl
    → owner_of s key now ≡ some owner
    → owner_of (bind cfg key owner reason ttl now s).0 key now ≡ some owner
unfolding bind bind_free owner_of live_binding
owner_of-refreshed cfg key owner reason ttl now s lasting live =
    ground (arith, ==_refl key, ==_refl owner, get-put s.affinity key key (owner, now + ttl))

route_owned-kept :
    (ctx : RouteContext) (cfg : AffinityConfig) (owner : String) (health : TargetHealth) (now : ℕ)
    (s : ReplicaRouterState)
    → is_kept (decide (some owner) health (has_alternatives ctx owner) cfg now).0 ≡ true
    → route_owned ctx cfg owner health now s ≡ (
      (bind cfg ctx.affinity_key owner sticky_refresh ctx.sticky_ttl now s).0,
      (owner, contains (replica_ids ctx) owner),
    )
unfolding route_owned
route_owned-kept ctx cfg owner health now s kept = rw (route_owned, kept) refl

decide-moved :
    (owner : String) (health : TargetHealth) (alternatives : Bool) (cfg : AffinityConfig) (now : ℕ)
    → (owner == "") ≡ false
    → is_kept (decide (some owner) health alternatives cfg now).0 ≡ false
    → (decide (some owner) health alternatives cfg now).0 ≡ evacuate
unfolding decide
decide-moved owner health alternatives cfg now named moved = ground arith

pub route_owned-keeps :
    (ctx : RouteContext) (cfg : AffinityConfig) (owner : String) (health : TargetHealth) (now : ℕ)
    (s : ReplicaRouterState)
    → (owner == "") ≡ false
    → 0 < ctx.sticky_ttl
    → owner_of s ctx.affinity_key now ≡ some owner
    → (((route_owned ctx cfg owner health now s).1 ≡ (owner, contains (replica_ids ctx) owner))
        × (owner_of (route_owned ctx cfg owner health now s).0 ctx.affinity_key now ≡ some owner))
      ⊎ MayLeave health (has_alternatives ctx owner) cfg now
route_owned-keeps ctx cfg owner health now s named lasting live =
    elim (Bool-cases
      (is_kept (decide (some owner) health (has_alternatives ctx owner) cfg now).0)) [
        | inl kept ↦ inl (
            rw (route_owned-kept ctx cfg owner health now s kept) (
              refl,
              owner_of-refreshed cfg ctx.affinity_key owner sticky_refresh ctx.sticky_ttl now s
                  lasting live,
            ))
        | inr moved ↦ inr (
            (decide-evacuate_iff owner health (has_alternatives ctx owner) cfg now named).0
              (decide-moved owner health (has_alternatives ctx owner) cfg now named moved))
      ]

-- the state in which the owner is looked up
abbrev pub prepared : RouteContext → String → ℕ → ReplicaRouterState → ReplicaRouterState
prepared ctx response_id now s =
    let p = (mapped_replica response_id now (prune now s)).0 in
    record p { records = set_records ctx.base ctx.replicas p.records }

owner_of-mapped :
    (response_id key : String) (now : ℕ) (s : ReplicaRouterState)
    → owner_of (mapped_replica response_id now s).0 key now ≡ owner_of s key now
unfolding mapped_replica owner_of response_replica found_response
owner_of-mapped response_id key now s = ground arith

owner_of-prepared :
    (ctx : RouteContext) (response_id key : String) (now : ℕ) (s : ReplicaRouterState)
    → owner_of (prepared ctx response_id now s) key now ≡ owner_of s key now
unfolding owner_of
owner_of-prepared ctx response_id key now s =
    owner_of-mapped response_id key now (prune now s)
    ∙ (prune-readers now now s (omega arith) key 0).0

module _ (pid_alive : ℕ → Bool) (probe : ℕ → ℕ → Option ℕ) (show : ℕ → String)
    (fits : List ℕ → Dict ℕ ℕ → Bool × Option ℕ) (add_route : String → Bool) (cfg : AffinityConfig)
    (ctx : RouteContext) where
  owner_of-measured :
      (target key : String) (capacity now : ℕ) (s : ReplicaRouterState)
      → owner_of (health_of pid_alive probe show cfg target capacity now s).0 key now
        ≡ owner_of s key now
  unfolding owner_of
  owner_of-measured target key capacity now s =
      ap (λ affinity. unexpired now (get affinity key))
        (health_of-affinity pid_alive probe show cfg target capacity now s)

  select_replica_for_request-routes :
      (response_id owner : String) (capacity now later : ℕ) (s : ReplicaRouterState)
      → is_empty ctx.replicas ≡ false
      → (is_empty (published_replica_ids ctx) && not ctx.dynamic_routes) ≡ false
      → owner_of s ctx.affinity_key now ≡ some owner
      → known_replica ctx (mapped_replica response_id now (prune now s)).1 ≡ none
      → let m =
          health_of pid_alive probe show cfg owner capacity now (prepared ctx response_id now s) in
        select_replica_for_request pid_alive probe show fits add_route cfg ctx true response_id
          capacity now later s
        ≡ route_owned ctx cfg owner m.1 now m.0
  unfolding select_replica_for_request route
  select_replica_for_request-routes response_id owner capacity now later s some_sets routed live
        unmapped =
      rw
        (
          select_replica_for_request,
          some_sets,
          routed,
          unmapped,
          owner_of-prepared ctx response_id ctx.affinity_key now s,
          live,
        )
        refl

  -- For a model that has replicas and routes to them, and bindings with a lifetime that is not 0,
  -- selecting a replica for a request that continues no response of a known replica sends it to the
  -- owner of its conversation, a named target, and leaves that owner, unless the health just measured
  -- is evidence on which the conversation may leave: the owner is dead, or suspected while that may
  -- count and there is another target.
  pub select_replica_for_request-keeps :
      (response_id owner : String) (capacity now later : ℕ) (s : ReplicaRouterState)
      → is_empty ctx.replicas ≡ false
      → (is_empty (published_replica_ids ctx) && not ctx.dynamic_routes) ≡ false
      → (owner == "") ≡ false
      → 0 < ctx.sticky_ttl
      → owner_of s ctx.affinity_key now ≡ some owner
      → known_replica ctx (mapped_replica response_id now (prune now s)).1 ≡ none
      → let after =
          select_replica_for_request pid_alive probe show fits add_route cfg ctx true response_id
            capacity now later s in
        let health =
          (health_of pid_alive probe show cfg owner capacity now
            (prepared ctx response_id now s)).1 in
        ((after.1 ≡ (owner, contains (replica_ids ctx) owner))
          × (owner_of after.0 ctx.affinity_key now ≡ some owner))
        ⊎ MayLeave health (has_alternatives ctx owner) cfg now
  select_replica_for_request-keeps response_id owner capacity now later s some_sets routed named
        lasting live unmapped =
      let m =
        health_of pid_alive probe show cfg owner capacity now (prepared ctx response_id now s) in
      rw
        (select_replica_for_request-routes response_id owner capacity now later s some_sets routed
          live unmapped)
        (route_owned-keeps ctx cfg owner m.1 now m.0 named lasting (
          owner_of-measured owner ctx.affinity_key capacity now (prepared ctx response_id now s)
          ∙ owner_of-prepared ctx response_id ctx.affinity_key now s
          ∙ live))
