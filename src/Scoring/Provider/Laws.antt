-- ===== src/Scoring/Provider/Laws.antt =====
-- How provider errors are classified, and what a successful OpenAI score holds.
use convoscore.Prelude.{
  ℕ, true, false, none, some, ◌≡◌, ◌≢◌, leb, ◌==◌, if◌then◌else◌, arith, Option-cases, inl, inr,
}
use convoscore.Text.{Text}
use convoscore.Models.{server_error, rate_limited}
use convoscore.Schemas.{ConversationInput, normalized}
use convoscore.Scoring.Contract.{validate_result}
use convoscore.Scoring.Contract.Laws.{ResultFits, validate_result-fits}
use convoscore.Scoring.Pricing.{estimate_cost}
use convoscore.Scoring.Prompt.{build_user_input}
use convoscore.Scoring.Prompt.Laws.{render_transcript-normalized}
use convoscore.Scoring.Provider.{
  LlmError, transient_error, permanent_error, ScoringOutcome, scored, crashed, api_timeout_error,
  rate_limit_error, internal_server_error, api_connection_error, authentication_error,
  permission_denied_error, bad_request_error, not_found_error, api_status_error, SdkError,
  classify_sdk_error, classify_provider_error, Response, OpenAi, read_response, openai_score, sdk,
}

-- The SDK makes an exception for an HTTP status of a class that the status determines.
pub record HasStatus (e : SdkError) (code : ℕ) : Type 0 where
  pub carries : e.status_code ≡ some code
  pub status_class : e.is_instance api_status_error ≡ true
  pub no_timeout : e.is_instance api_timeout_error ≡ false
  pub no_connection : e.is_instance api_connection_error ≡ false
  pub is_429 : e.is_instance rate_limit_error ≡ (code == 429)
  pub is_5xx : e.is_instance internal_server_error ≡ leb 500 code
  pub is_401 : e.is_instance authentication_error ≡ (code == 401)
  pub is_403 : e.is_instance permission_denied_error ≡ (code == 403)
  pub is_400 : e.is_instance bad_request_error ≡ (code == 400)
  pub is_404 : e.is_instance not_found_error ≡ (code == 404)

-- The taxonomy as the documentation gives it, by status alone.
abbrev pub by_status : ℕ → Text → LlmError
by_status code said =
    if code == 429
    then transient_error said rate_limited
    else if leb 500 code
    then transient_error said server_error
    else permanent_error said

-- An HTTP error is transient exactly for 429 and for 500 and above, and permanent for every other
-- status, whatever classes of the SDK it goes through.
pub classify-status :
    (e : SdkError) (code : ℕ)
    → HasStatus e code
    → classify_provider_error true (sdk e) ≡ by_status code e.as_str
unfolding classify_provider_error classify_sdk_error
classify-status e code h = ground arith

-- A response is turned into a score only with a result that meets the contract, and the cost that
-- is recorded is the estimate for the recorded model and token counts.
pub read_response-scored :
    (p : OpenAi) (r : Response) {o : ScoringOutcome}
    → read_response p r ≡ scored o
    → ResultFits o.result
      × (o.estimated_cost_usd ≡ estimate_cost o.model o.prompt_tokens o.completion_tokens)
unfolding read_response
read_response-scored p r {o} h = elim (Option-cases r.output_parsed) [
  | inl absent ↦ ground arith
  | inr (parsed, e) ↦ elim (Option-cases (validate_result p.py parsed)) [
    | inl refused ↦ ground arith
    | inr (result, accepted) ↦
        (let fits = validate_result-fits p.py parsed accepted in ground arith, ground arith)
  ]
]

pub build_user_input-normalized :
    (upper : Text → Text) (c : ConversationInput) → build_user_input upper (normalized c) ≢ none
unfolding build_user_input
build_user_input-normalized upper c = rw (render_transcript-normalized upper c) (λ h. cc)

-- On a stored conversation every failure of the provider is one of the three `LLMError`s: no other
-- exception escapes from `score`.
pub openai_score-ne-crashed :
    (p : OpenAi) (c : ConversationInput) → openai_score p (normalized c) ≢ crashed
unfolding openai_score read_response
openai_score-ne-crashed p c = ground (arith, build_user_input-normalized p.upper c)
