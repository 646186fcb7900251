-- ===== src/Messages/Order.antt =====
-- _cli_impl.py, `_normalize_system_messages_for_llamacpp`: where the system message of the result
-- stands, and what else the result holds.
use heimdall_gateway.Prelude.{
  String, ◌≡◌, refl, ap, ◌∙◌, ◌⊎◌, inl, inr, true, false, not, ◌||◌, List, [], ◌∷◌, arith,
  Bool-cases, ◌==◌, nat_key, string_key, filter, drop_first, All, filter-not-All, All-filter_none,
  filter-none, filter-filter, kept_All,
}
use heimdall_gateway.Messages.System.{
  is_privileged, joined_system_content, absorb, stands_alone, collapse_system,
  normalize_system_messages_for_llamacpp,
}
use heimdall_gateway.Messages.{Message, messages_of, role}
use heimdall_gateway.Value.{Value, lookup}
use heimdall_gateway.Dict.{put, get-put}

module _ (show : Value → String) where
  role-put :
      (m : Message) (k : String) (v : Value)
      → (k == "role") ≡ false
      → role show (put m k v) ≡ role show m
  unfolding role
  role-put m k v other = rw (get-put m k "role" v, other) refl

  privileged-absorb :
      (ms : List Message) (first : Message)
      → is_privileged show (absorb show first ms) ≡ is_privileged show first
  unfolding is_privileged absorb
  privileged-absorb [] first = refl
  privileged-absorb (m ∷ ms) first =
      let content = joined_system_content show (lookup first "content") (lookup m "content") in
      privileged-absorb ms (put first "content" content)
      ∙ ap (λ r. r == "system" || r == "developer") (role-put first "content" content refl)

  -- a result of this shape holds one system message, in front
  abbrev Leads : List Message → List Message → Type 0
  Leads ms out =
      (All (λ m. is_privileged show m ≡ false) (drop_first ms) × (out ≡ ms))
      ⊎ ((first : Message) × (out ≡ first ∷ filter (λ m. not (is_privileged show m)) ms)
          × (is_privileged show first ≡ true))

  lone_lead :
      (ms : List Message) (first : Message)
      → filter (is_privileged show) ms ≡ first ∷ []
      → stands_alone show [] ms ≡ true
      → All (λ m. is_privileged show m ≡ false) (drop_first ms)
  unfolding stands_alone
  lone_lead [] first e alone = tt
  lone_lead (m ∷ ms) first e alone = All-filter_none (is_privileged show) ms (ground (arith, e))

  none_follow :
      (ms : List Message)
      → filter (is_privileged show) ms ≡ []
      → All (λ m. is_privileged show m ≡ false) (drop_first ms)
  none_follow [] e = tt
  none_follow (m ∷ ms) e = All-filter_none (is_privileged show) ms (ground (arith, e))

  absorbed_privileged :
      (ms : List Message) (first : Message) (others : List Message)
      → filter (is_privileged show) ms ≡ first ∷ others
      → is_privileged show (absorb show first others) ≡ true
  absorbed_privileged ms first others e =
      privileged-absorb others first ∙ (rw e at (kept_All (is_privileged show) ms)).0

  collapse_system-Leads_from :
      (ms kept : List Message)
      → filter (is_privileged show) ms ≡ kept
      → Leads ms (collapse_system show ms)
  unfolding collapse_system
  collapse_system-Leads_from ms [] e = inl (none_follow ms e, rw (collapse_system, e) refl)
  collapse_system-Leads_from ms (first ∷ []) e = elim (Bool-cases (stands_alone show [] ms)) [
    | inl alone ↦ inl (lone_lead ms first e alone, rw (collapse_system, e, alone) refl)
    | inr later ↦
        rw (collapse_system, e, later)
          (inr (first, refl, (rw e at (kept_All (is_privileged show) ms)).0))
  ]
  collapse_system-Leads_from ms (first ∷ second ∷ others) e =
      rw (collapse_system, e)
        (inr (
          absorb show first (second ∷ others),
          refl,
          absorbed_privileged ms first (second ∷ others) e,
        ))

  pub collapse_system-Leads : (ms : List Message) → Leads ms (collapse_system show ms)
  collapse_system-Leads ms = collapse_system-Leads_from ms _ refl

  collapse_system_settled :
      (ms : List Message)
      → All (λ m. is_privileged show m ≡ false) (drop_first ms)
      → collapse_system show ms ≡ ms
  unfolding collapse_system stands_alone
  collapse_system_settled [] settled = refl
  collapse_system_settled (m ∷ ms) settled = elim (Bool-cases (is_privileged show m)) [
    | inl e ↦ rw (collapse_system, e, filter-none (is_privileged show) ms settled, e) refl
    | inr e ↦ rw (collapse_system, e, filter-none (is_privileged show) ms settled) refl
  ]

  others_kept :
      (ms : List Message)
      → filter (λ m. not (is_privileged show m)) (collapse_system show ms)
        ≡ filter (λ m. not (is_privileged show m)) ms
  others_kept ms = elim (collapse_system-Leads ms) [
    | inl (_, same) ↦ rw same refl
    | inr (first, e, leads) ↦ rw (e, leads) (filter-filter (λ m. not (is_privileged show m)) ms)
  ]

-- No system or developer message stands behind the first message of the result, and the other
-- messages are those of the request, in their order.
pub normalize_system_messages_for_llamacpp_order :
    (show : Value → String) (messages : Value)
    → All
        (λ m. is_privileged show m ≡ false)
        (drop_first (normalize_system_messages_for_llamacpp show messages))
      × (filter
            (λ m. not (is_privileged show m))
            (normalize_system_messages_for_llamacpp show messages)
          ≡ filter (λ m. not (is_privileged show m)) (messages_of messages))
unfolding normalize_system_messages_for_llamacpp
normalize_system_messages_for_llamacpp_order show messages = (
  elim (collapse_system-Leads show (messages_of messages)) [
    | inl (alone, same) ↦ rw same alone
    | inr (first, e, _) ↦ rw e (filter-not-All (is_privileged show) (messages_of messages))
  ],
  others_kept show (messages_of messages),
)

-- A second pass over the messages that the first pass made changes nothing.
pub collapse_system-normalize_system_messages_for_llamacpp :
    (show : Value → String) (messages : Value)
    → collapse_system show (normalize_system_messages_for_llamacpp show messages)
      ≡ normalize_system_messages_for_llamacpp show messages
collapse_system-normalize_system_messages_for_llamacpp show messages =
    collapse_system_settled show (normalize_system_messages_for_llamacpp show messages)
      (normalize_system_messages_for_llamacpp_order show messages).0
