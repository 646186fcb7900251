-- ===== src/Router/Binding/Ownership.antt =====
-- _cli_impl.py, `ReplicaRouterState.bind`: who owns a conversation after a write.
use heimdall_gateway.Prelude.{
  ℕ, ◌+◌, ◌<◌, String, ◌≡◌, refl, ◌⊎◌, inl, inr, true, false, Option, some, arith, eq_iff,
  Option-cases, ◌==◌, nat_key, string_key, ==_refl,
}
use heimdall_gateway.Dict.{get, put, get-put, get-pop}
use heimdall_gateway.Policy.Targets.{TransferReason, in_transfer_reasons}
use heimdall_gateway.Policy.Config.{AffinityConfig}
use heimdall_gateway.Policy.Transfer.{allow_transfer, record_transfer}
use heimdall_gateway.Router.State.{ReplicaRouterState}
use heimdall_gateway.Router.Binding.{
  live_binding, budget_of, bind_free, bind_owned, bind, unexpired, owner_of,
}

module _ (cfg : AffinityConfig) (key target : String) (reason : TransferReason) (ttl now : ℕ)
    (s : ReplicaRouterState) where
  bind_free-other :
      (j : String)
      → (key == j) ≡ false
      → (get (bind_free key target reason ttl now s).0.affinity j ≡ get s.affinity j)
        × (get (bind_free key target reason ttl now s).0.affinity_budget j
            ≡ get s.affinity_budget j)
  unfolding bind_free
  bind_free-other j other = (rw (get-put, other), rw (get-put, other))

  bind_owned-other :
      (owner j : String)
      → (key == j) ≡ false
      → (get (bind_owned cfg key owner target reason ttl now s).0.affinity j ≡ get s.affinity j)
        × (get (bind_owned cfg key owner target reason ttl now s).0.affinity_budget j
            ≡ get s.affinity_budget j)
  unfolding bind_owned
  bind_owned-other owner j other = (
    ground (
      arith,
      get-put s.affinity key j (owner, now + ttl),
      get-put s.affinity key j (target, now + ttl),
      get-pop s.affinity key j,
    ),
    ground (
      arith,
      get-put s.affinity_budget key j (budget_of s key),
      get-put s.affinity_budget key j (record_transfer (budget_of s key) reason owner now),
      get-pop (put s.affinity_budget key (budget_of s key)) key j,
    ),
  )

  live_binding_inv :
      (o : Option (String × ℕ)) (owner : String)
      → live_binding o target now ≡ some owner
      → unexpired now o ≡ some owner
  unfolding live_binding
  live_binding_inv o owner live = ground arith

  pub bind-cases :
      (bind cfg key target reason ttl now s ≡ bind_free key target reason ttl now s)
      ⊎ ((owner : String) × (owner_of s key now ≡ some owner)
          × (bind cfg key target reason ttl now s
              ≡ bind_owned cfg key owner target reason ttl now s))
  unfolding bind owner_of
  bind-cases = elim (Option-cases (live_binding (get s.affinity key) target now)) [
    | inl e ↦ inl (rw (e, bind) refl)
    | inr (owner, e) ↦ inr (owner, live_binding_inv _ owner e, rw (e, bind) refl)
  ]

  -- A write for one conversation leaves the owner, the deadline and the budget of every other
  -- conversation as they were.
  pub bind-other :
      (j : String)
      → (key == j) ≡ false
      → (get (bind cfg key target reason ttl now s).0.affinity j ≡ get s.affinity j)
        × (get (bind cfg key target reason ttl now s).0.affinity_budget j ≡ get s.affinity_budget j)
  bind-other j other = elim bind-cases [
    | inl e ↦ rw e (bind_free-other j other)
    | inr (owner, live, e) ↦ rw e (bind_owned-other owner j other)
  ]

  -- A conversation with a live owner is handed to another target only if that target is the one
  -- asked for, the reason is a declared transfer reason, and the brakes allow it.
  pub bind-moves :
      (owner next : String)
      → owner_of s key now ≡ some owner
      → owner_of (bind cfg key target reason ttl now s).0 key now ≡ some next
      → (next == owner) ≡ false
      → (next ≡ target)
        × (in_transfer_reasons reason ≡ true)
        × ((allow_transfer (budget_of s key) reason target cfg now).0 ≡ true)
  unfolding bind owner_of
  bind-moves owner next before after moved = ground (
    arith,
    ==_refl key,
    get-put s.affinity key key (owner, now + ttl),
    get-put s.affinity key key (target, now + ttl),
    get-pop s.affinity key key,
    eq_iff owner target,
    eq_iff next owner,
  )

  bind_owned-target :
      (owner : String)
      → 0 < ttl
      → owner_of s key now ≡ some owner
      → owner_of (bind_owned cfg key owner target reason ttl now s).0 key now
        ≡ (bind_owned cfg key owner target reason ttl now s).1.target
  unfolding bind_owned owner_of
  bind_owned-target owner lasting live = ground (
    arith,
    ==_refl key,
    get-put s.affinity key key (owner, now + ttl),
    get-put s.affinity key key (target, now + ttl),
    get-pop s.affinity key key,
  )

  bind_free-target :
      0 < ttl
      → owner_of (bind_free key target reason ttl now s).0 key now
        ≡ (bind_free key target reason ttl now s).1.target
  unfolding bind_free owner_of
  bind_free-target lasting =
      ground (arith, ==_refl key, get-put s.affinity key key (target, now + ttl))

  -- The answer of a write is the truth: with a lifetime that is not 0, the target that it returns
  -- is the owner that a reader then sees, and it returns none exactly where none is bound.
  pub bind-target :
      0 < ttl
      → owner_of (bind cfg key target reason ttl now s).0 key now
        ≡ (bind cfg key target reason ttl now s).1.target
  bind-target lasting = elim bind-cases [
    | inl e ↦ rw e (bind_free-target lasting)
    | inr (owner, live, e) ↦ rw e (bind_owned-target owner lasting live)
  ]

  -- A live owner, and the deadline of its binding, are left exactly as they were by a write for
  -- another target whose reason is no declared transfer reason; the answer names that owner.
  pub bind-undeclared :
      (owner : String)
      → owner_of s key now ≡ some owner
      → (owner == target) ≡ false
      → in_transfer_reasons reason ≡ false
      → ((bind cfg key target reason ttl now s).0.affinity ≡ s.affinity)
        × ((bind cfg key target reason ttl now s).1.target ≡ some owner)
        × ((bind cfg key target reason ttl now s).1.refused_by ≡ "undeclared_reason")
  unfolding bind owner_of
  bind-undeclared owner before other undeclared = ground arith

  -- a write touches neither the replicas nor the load of the bases
  pub bind-records :
      ((bind cfg key target reason ttl now s).0.records ≡ s.records)
      × ((bind cfg key target reason ttl now s).0.base_in_flight ≡ s.base_in_flight)
  unfolding bind_free bind_owned
  bind-records = elim bind-cases [
    | inl e ↦ rw e (refl, refl)
    | inr (owner, live, e) ↦ rw e (ground arith, ground arith)
  ]
