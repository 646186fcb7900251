-- ===== src/Router/Admission.antt =====
-- _cli_impl.py: `reject_if_model_loading_request`. The JSON body that is sent is its kind and text,
-- nested under "error" for the OpenAI style.
use Prim.Native.String.{◌++◌}
use heimdall_gateway.Prelude.{
  ℕ, String, ◌≡◌, refl, Bool, false, not, ◌||◌, Option, none, some, arith, if◌then◌else◌, ◌==◌,
  nat_key, string_key,
}
use heimdall_gateway.Router.State.{ReplicaRouterState}
use heimdall_gateway.Router.Claims.{process_loaded, claim_loading, held, claim_loading_lem}

pub data ApiStyle : Type 0 where
  openai other_style : ApiStyle

pub data Body : Type 0 where
  nested flat : String → String → Body

-- what send_json is called with
pub record Answer : Type 0 where
  pub status : ℕ
  pub body : Body

-- the text of the refusal
unfoldable pub loading_message : String → String
loading_message model =
    "Model '"
    ++ (model
        ++ "' is loading; the first request owns the load. Retry this request when that load completes.")

unfoldable pub refusal : String → ApiStyle → Answer
unfolding loading_message
refusal model openai = record {
  status = 503;
  body = nested "model_loading" (loading_message model);
}
refusal model other_style = record {
  status = 503;
  body = flat "model_loading" (loading_message model);
}

-- the answer that is sent, if the request is rejected
unfoldable pub reject_if_model_loading_request :
    String → Bool → Bool → ApiStyle → ℕ → ReplicaRouterState → ReplicaRouterState × Option Answer
reject_if_model_loading_request model is_replica running style now s =
    if model == ""
    then (s, none)
    else (let (t, granted) = claim_loading model is_replica running none now s in
        if granted then (t, none) else (t, some (refusal model style)))

abbrev pub status_sent : Option Answer → Option ℕ
status_sent none = none
status_sent (some answer) = some answer.status

status-refusal : (model : String) (style : ApiStyle) → (refusal model style).status ≡ 503
unfolding refusal
status-refusal model openai = refl
status-refusal model other_style = refl

-- A request for a named model is answered 503 exactly when the model is not loaded and another
-- request holds its loading claim; else it goes on.
pub reject_if_model_loading_request_iff :
    (model : String) (is_replica running : Bool) (style : ApiStyle) (now : ℕ)
    (s : ReplicaRouterState)
    → (model == "") ≡ false
    → status_sent (reject_if_model_loading_request model is_replica running style now s).1 ≡ (
        if process_loaded model is_replica running s || not (held s model now)
        then none
        else some 503)
unfolding reject_if_model_loading_request
reject_if_model_loading_request_iff model is_replica running style now s named = ground (
  arith,
  named,
  (claim_loading_lem model is_replica running none now s now (omega arith)).0,
  status-refusal model style,
)
