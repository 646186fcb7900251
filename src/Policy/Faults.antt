-- ===== src/Policy/Faults.antt =====
-- cli/replica_policy.py: `FaultKind`, `is_target_fatal`, `fault_from_status`, `fault_from_exception`.
use mathlib.Core.Path.{subst}
use heimdall_gateway.Prelude.{
  ℕ, ◌≤◌, ◌<◌, String, ◌≡◌, refl, sym, ap, ◌≢◌, ◌↔◌, ◌⊎◌, inl, inr, Bool, true, false, ◌||◌, Option,
  none, some, List, [], ◌∷◌, arith, eq_iff, ltb, leb, if◌then◌else◌, ◌==◌, nat_key, string_key,
  contains,
}
use heimdall_gateway.Prelude.Int.{ℤ, pos, negsuc}
use heimdall_gateway.Prelude.Text.{codes, lower, is_part}

pub data FaultKind : Type 0 where
  fault_none client_abort client_request content upstream_transient target_fatal : FaultKind

-- the value of a member of `FaultKind(str, enum.Enum)`
unfoldable pub value : FaultKind → String
value fault_none = "none"
value client_abort = "client_abort"
value client_request = "client_request"
value content = "content"
value upstream_transient = "upstream_transient"
value target_fatal = "target_fatal"

-- FaultKind(text); `none` is the ValueError
unfoldable pub of_value : String → Option FaultKind
of_value t =
    if t == "none"
    then some fault_none
    else if t == "client_abort"
    then some client_abort
    else if t == "client_request"
    then some client_request
    else if t == "content"
    then some content
    else if t == "upstream_transient"
    then some upstream_transient
    else if t == "target_fatal"
    then some target_fatal
    else none

-- what a caller may pass as `fault`: None, a member, or a label
pub data Fault : Type 0 where
  no_fault : Fault
  kind : FaultKind → Fault
  label : String → Fault

-- fault in TARGET_FATAL_KINDS
abbrev pub in_fatal_kinds : FaultKind → Bool
in_fatal_kinds target_fatal = true
in_fatal_kinds _ = false

-- the `try` of `is_target_fatal`: an unknown label is not fatal
abbrev pub known_fatal : Option FaultKind → Bool
known_fatal none = false
known_fatal (some k) = in_fatal_kinds k

unfoldable pub is_target_fatal : Fault → Bool
unfolding of_value
is_target_fatal no_fault = false
is_target_fatal (kind k) = in_fatal_kinds k
is_target_fatal (label t) = known_fatal (of_value t)

-- `int(status_code or 0)`: None counts as 0, and what is not positive is no status
abbrev pub status_or_zero : Option ℤ → ℕ
status_or_zero none = 0
status_or_zero (some (pos n)) = n
status_or_zero (some (negsuc n)) = 0

unfoldable pub fault_from_status : Option ℤ → FaultKind
fault_from_status status =
    let code = status_or_zero status in
    if leb code 0
    then upstream_transient
    else if ltb code 400
    then fault_none
    else if code == 408 || code == 425 || code == 429
    then upstream_transient
    else if ltb code 500
    then client_request
    else upstream_transient

-- an exception: `type(exc).__name__` and `str(exc)`
pub record Raised : Type 0 where
  pub name : String
  pub message : String

abbrev pub client_gone_exc_names : List String
client_gone_exc_names = "BrokenPipeError" ∷ "ConnectionResetError" ∷ "ConnectionAbortedError" ∷ []

abbrev pub client_gone_message_hints : List String
client_gone_message_hints =
    "broken pipe" ∷ "connection reset by peer" ∷ "connection aborted"
    ∷ "remote end closed connection without response" ∷ "remotedisconnected" ∷ "client disconnected"
    ∷ "connection closed by peer" ∷ []

abbrev pub timeout_names : List String
timeout_names = "Timeout" ∷ "ReadTimeout" ∷ "ConnectTimeout" ∷ "TimeoutException" ∷ []

abbrev pub content_names : List String
content_names = "JSONDecodeError" ∷ "ValueError" ∷ []

-- any(hint in text for hint in _CLIENT_GONE_MESSAGE_HINTS)
unfoldable pub has_hint : List String → List ℕ → Bool
unfolding is_part
has_hint [] text = false
has_hint (hint ∷ hints) text = is_part (codes hint) text || has_hint hints text

-- the returns of `fault_from_exception` in order, by the tests that they stand under
unfoldable pub by_evidence : (gone hinted timed_out unusable : Bool) → FaultKind
by_evidence gone hinted timed_out unusable =
    if gone
    then client_abort
    else if hinted
    then client_abort
    else if timed_out
    then upstream_transient
    else if unusable
    then content
    else upstream_transient

-- `str.lower` is modelled on ASCII letters, of which the hints consist
unfoldable pub fault_from_exception : Option Raised → FaultKind
unfolding has_hint lower
fault_from_exception none = fault_none
fault_from_exception (some exc) =
    by_evidence (contains client_gone_exc_names exc.name)
      (has_hint client_gone_message_hints (lower (codes exc.message)))
      (contains timeout_names exc.name) (contains content_names exc.name)

pub of_value-value : (k : FaultKind) → of_value (value k) ≡ some k
unfolding of_value value
of_value-value fault_none = refl
of_value-value client_abort = refl
of_value-value client_request = refl
of_value-value content = refl
of_value-value upstream_transient = refl
of_value-value target_fatal = refl

known_fatal_inv : (t : String) → known_fatal (of_value t) ≡ true → t ≡ "target_fatal"
unfolding of_value
known_fatal_inv t h = ground (arith, eq_iff t "target_fatal")

fatal_member : is_target_fatal (kind target_fatal) ≡ true
unfolding is_target_fatal
fatal_member = refl

fatal_label : is_target_fatal (label "target_fatal") ≡ true
unfolding is_target_fatal
fatal_label = refl

fatal_inv :
    (f : Fault) → is_target_fatal f ≡ true → (f ≡ kind target_fatal) ⊎ (f ≡ label "target_fatal")
unfolding is_target_fatal
fatal_inv no_fault h = cc
fatal_inv (kind k) h = inl (ground arith)
fatal_inv (label t) h = inr (ap label (known_fatal_inv t h))

-- A fault is fatal to its target exactly when it is the member TARGET_FATAL or the label
-- "target_fatal": None, every other member and every other label, known or not, are not.
pub is_target_fatal_iff :
    (f : Fault)
    → (is_target_fatal f ≡ true) ↔ ((f ≡ kind target_fatal) ⊎ (f ≡ label "target_fatal"))
is_target_fatal_iff f = (
  fatal_inv f,
  λ h. elim h [
    | inl e ↦ subst (λ x. is_target_fatal x ≡ true) (sym e) fatal_member
    | inr e ↦ subst (λ x. is_target_fatal x ≡ true) (sym e) fatal_label
  ],
)

by_evidence-ne :
    (gone hinted timed_out unusable : Bool)
    → in_fatal_kinds (by_evidence gone hinted timed_out unusable) ≡ false
unfolding by_evidence
by_evidence-ne gone hinted timed_out unusable = ground arith

fault_from_exception-ne : (exc : Option Raised) → in_fatal_kinds (fault_from_exception exc) ≡ false
unfolding fault_from_exception
fault_from_exception-ne none = refl
fault_from_exception-ne (some exc) = by_evidence-ne _ _ _ _

-- No HTTP status and no exception is ever attributed to the target: whatever the status (absent
-- or negative too) and whatever the exception, the attributed fault is not fatal.
pub is_target_fatal-symptom :
    (status : Option ℤ) (exc : Option Raised)
    → (is_target_fatal (kind (fault_from_status status)) ≡ false)
      × (is_target_fatal (kind (fault_from_exception exc)) ≡ false)
unfolding is_target_fatal fault_from_status
is_target_fatal-symptom status exc = (ground arith, fault_from_exception-ne exc)

-- A status is blamed on the request exactly when it lies in 400..499 and is none of the
-- retriable 408, 425 and 429; it counts as no fault exactly when it lies in 1..399.
pub fault_from_status_iff :
    (n : ℕ)
    → ((fault_from_status (some (pos n)) ≡ client_request)
        ↔ ((400 ≤ n) × (n < 500) × (n ≢ 408) × (n ≢ 425) × (n ≢ 429)))
      × ((fault_from_status (some (pos n)) ≡ fault_none) ↔ ((0 < n) × (n < 400)))
unfolding fault_from_status
fault_from_status_iff n =
    ((λ h. ground arith, λ h. ground arith), (λ h. ground arith, λ h. ground arith))
