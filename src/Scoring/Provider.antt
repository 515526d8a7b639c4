-- ===== src/Scoring/Provider.antt =====
-- app/scoring/provider.py: the error taxonomy, its classification, and the OpenAI provider. The SDK
-- is a parameter: an exception is known by the answers of `isinstance`, a call by its response.
pub mod Laws
use convoscore.Prelude.{
  ℕ, ◌+◌, Bool, true, false, ◌||◌, Option, none, some, [], ◌∷◌, ◌++◌, leb, ◌==◌, if◌then◌else◌,
  get_or_else,
}
use convoscore.Text.{Text, text}
use convoscore.Json.{Json}
use convoscore.Models.{
  ErrorType, timeout, rate_limited, server_error, connection_error, invalid_llm_response,
  client_error, internal_error,
}
use convoscore.Schemas.{Coercion}
use convoscore.Scoring.Contract.{ScoringResult, validate_result, prompt_version, schema_version}
use convoscore.Scoring.Pricing.{estimate_cost, pricing_version}
use convoscore.Scoring.Prompt.{build_user_input}

pub data LlmError : Type 0 where
  transient_error : Text → ErrorType → LlmError
  permanent_error : Text → LlmError
  invalid_response : Text → LlmError

-- The attribute `error_type`.
abbrev pub error_type : LlmError → ErrorType
error_type (transient_error _ t) = t
error_type (permanent_error _) = client_error
error_type (invalid_response _) = invalid_llm_response

-- `str(error)`.
abbrev pub message : LlmError → Text
message (transient_error m _) = m
message (permanent_error m) = m
message (invalid_response m) = m

pub record ScoringOutcome : Type 0 where
  pub result : ScoringResult
  pub model : Text
  pub prompt_tokens : Option ℕ
  pub completion_tokens : Option ℕ
  pub total_tokens : Option ℕ
  pub latency_ms : ℕ
  pub estimated_cost_usd : Option ℕ
  pub prompt_version : Text
  pub schema_version : Text
  pub pricing_version : Text

-- How a call of `score` ends; `crashed` is an exception that is no `LLMError`.
pub data Attempt : Type 0 where
  scored : ScoringOutcome → Attempt
  llm_error : LlmError → Attempt
  crashed : Attempt

-- The classes of the SDK that `classify_provider_error` names.
pub data SdkClass : Type 0 where
  api_timeout_error rate_limit_error internal_server_error api_connection_error authentication_error
        permission_denied_error bad_request_error not_found_error api_status_error :
      SdkClass

pub record SdkError : Type 0 where
  pub is_instance : SdkClass → Bool
  pub status_code : Option ℕ
  pub as_str : Text
  pub type_name : Text

pub data Exc : Type 0 where
  llm : LlmError → Exc
  sdk : SdkError → Exc

-- `getattr(exc, "status_code", 0) or 0`.
abbrev pub status_of : SdkError → ℕ
status_of e = get_or_else e.status_code 0

unfoldable pub classify_sdk_error : SdkError → LlmError
classify_sdk_error e =
    if e.is_instance api_timeout_error
    then transient_error e.as_str timeout
    else if e.is_instance rate_limit_error
    then transient_error e.as_str rate_limited
    else if e.is_instance internal_server_error
    then transient_error e.as_str server_error
    else if e.is_instance api_connection_error
    then transient_error e.as_str connection_error
    else if e.is_instance authentication_error
        || e.is_instance permission_denied_error
        || e.is_instance bad_request_error
        || e.is_instance not_found_error
    then permanent_error e.as_str
    else if e.is_instance api_status_error
    then (if leb 500 (status_of e)
        then transient_error e.as_str server_error
        else if status_of e == 429
        then transient_error e.as_str rate_limited
        else permanent_error e.as_str)
    else transient_error (e.type_name ++ text ": " ++ e.as_str) internal_error

-- The first argument tells whether `import openai` succeeds.
unfoldable pub classify_provider_error : Bool → Exc → LlmError
classify_provider_error importable (llm e) = e
classify_provider_error importable (sdk e) =
    if importable then classify_sdk_error e else transient_error e.as_str internal_error

pub record Usage : Type 0 where
  pub input_tokens : Option ℕ
  pub output_tokens : Option ℕ
  pub total_tokens : Option ℕ

pub record Response : Type 0 where
  pub output_parsed : Option Json
  pub status : Text
  pub model : Option Text
  pub usage : Option Usage

-- The third component of `_usage`.
abbrev pub total_or_sum : Option ℕ → Option ℕ → Option ℕ → Option ℕ
total_or_sum (some t) _ _ = some t
total_or_sum none (some i) (some o) = some (i + o)
total_or_sum none _ _ = none

-- `_usage`.
unfoldable pub usage_of : Response → Option ℕ × Option ℕ × Option ℕ
usage_of r = elim r.usage [
  | none ↦ (none, none, none)
  | some u ↦
      (u.input_tokens, u.output_tokens, total_or_sum u.total_tokens u.input_tokens u.output_tokens)
]

-- `getattr(response, "model", None) or self.model`: the empty text counts as absent.
unfoldable pub served_model : Response → Text → Text
served_model r configured = elim r.model [
  | none ↦ configured
  | some [] ↦ configured
  | some (c ∷ s) ↦ c ∷ s
]

pub data Reply : Type 0 where
  response : Response → Reply
  raised : Exc → Reply

-- What the OpenAI provider is given from outside: pydantic, `str.upper`, the SDK's reply to an
-- input text, and whether the SDK can be imported. `explain` is the text of a validation error.
pub record OpenAi : Type 0 where
  pub py : Coercion
  pub upper : Text → Text
  pub parse : Text → Reply
  pub importable : Bool
  pub explain : Json → Text
  pub configured_model : Text
  pub latency_ms : ℕ

-- `OpenAIProvider.score` once the SDK has returned.
unfoldable pub read_response : OpenAi → Response → Attempt
read_response p r = elim r.output_parsed [
  | none ↦
      llm_error (
        invalid_response
          (text "model returned no parsable result (status=" ++ r.status ++ text ")"))
  | some parsed ↦ elim (validate_result p.py parsed) [
    | none ↦
        llm_error
          (invalid_response (text "response failed contract validation: " ++ p.explain parsed))
    | some result ↦
        let (prompt, completion, total) = usage_of r in
        let model = served_model r p.configured_model in
        scored (record {
          result = result;
          model = model;
          prompt_tokens = prompt;
          completion_tokens = completion;
          total_tokens = total;
          latency_ms = p.latency_ms;
          estimated_cost_usd = estimate_cost model prompt completion;
          prompt_version = prompt_version;
          schema_version = schema_version;
          pricing_version = pricing_version;
        })
  ]
]

unfoldable pub openai_score : OpenAi → Json → Attempt
openai_score p conversation = elim (build_user_input p.upper conversation) [
  | none ↦ crashed
  | some input ↦ elim (p.parse input) [
    | raised exc ↦ llm_error (classify_provider_error p.importable exc)
    | response r ↦ read_response p r
  ]
]
