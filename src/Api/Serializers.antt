-- ===== src/Api/Serializers.antt =====
-- app/api/serializers.py and the response models of app/schemas.py that it fills.
pub mod Laws
use convoscore.Prelude.{ℕ, Option, none, some, option_map}
use convoscore.Prelude.Int.{ℤ}
use convoscore.Text.{Text, text}
use convoscore.Json.{Json}
use convoscore.Models.{
  Uuid, Time, Conversation, status_value, source_value, Sentiment, sentiment_value, ErrorType,
  timeout, rate_limited, server_error, connection_error, invalid_llm_response, client_error,
  enqueue_failed, max_attempts_exhausted, internal_error,
}
use convoscore.Scoring.Contract.{
  RiskBand, band, no_band, value_error, assertion_error, BandResult, band_value, band_label,
  risk_band,
}
use convoscore.Runtime.{Result, ok, raise, unexpected}

-- The values of the enumeration `ErrorType`.
abbrev pub error_type_value : ErrorType → Text
error_type_value timeout = text "timeout"
error_type_value rate_limited = text "rate_limited"
error_type_value server_error = text "server_error"
error_type_value connection_error = text "connection_error"
error_type_value invalid_llm_response = text "invalid_llm_response"
error_type_value client_error = text "client_error"
error_type_value enqueue_failed = text "enqueue_failed"
error_type_value max_attempts_exhausted = text "max_attempts_exhausted"
error_type_value internal_error = text "internal_error"

pub record ScoreResult : Type 0 where
  pub sentiment : Text
  pub risk_score : ℤ
  pub risk_band : Text
  pub risk_band_label : Text
  pub rationale : Text

pub record JobError : Type 0 where
  pub type : Text
  pub message : Option Text

pub record JobStatusResponse : Type 0 where
  pub job_id : Uuid
  pub status : Text
  pub source : Text
  pub attempt_count : ℕ
  pub max_attempts : ℕ
  pub created_at : Time
  pub completed_at : Option Time
  pub result : Option ScoreResult
  pub error : Option JobError

pub record ConversationSummary : Type 0 where
  pub id : Uuid
  pub source : Text
  pub source_ref : Option Text
  pub status : Text
  pub sentiment : Option Text
  pub risk_score : Option ℤ
  pub risk_band : Option Text
  pub message_count : ℕ
  pub attempt_count : ℕ
  pub created_at : Time
  pub completed_at : Option Time

pub record LlmExecution : Type 0 where
  pub model : Option Text
  pub prompt_version : Option Text
  pub schema_version : Option Text
  pub prompt_tokens : Option ℕ
  pub completion_tokens : Option ℕ
  pub total_tokens : Option ℕ
  pub llm_latency_ms : Option ℕ
  pub estimated_cost_usd : Option ℕ
  pub pricing_version : Option Text

pub record ConversationDetail : Type 0 where
  pub id : Uuid
  pub source : Text
  pub source_ref : Option Text
  pub status : Text
  pub conversation : Json
  pub message_count : ℕ
  pub result : Option ScoreResult
  pub llm : LlmExecution
  pub attempt_count : ℕ
  pub max_attempts : ℕ
  pub error : Option JobError
  pub created_at : Time
  pub enqueued_at : Option Time
  pub started_at : Option Time
  pub completed_at : Option Time

-- The steps below return or raise.
infixl 5 ◌>>=◌
abbrev pub ◌>>=◌ : {A B : Type 0} → Result A → (A → Result B) → Result B
ok a >>= f = f a
raise e >>= f = raise e

-- `_band`: a `ValueError` or an `AssertionError` of `risk_band` escapes.
abbrev pub band_returned : BandResult → Result (Option RiskBand)
band_returned (band b) = ok (some b)
band_returned no_band = ok none
band_returned _ = raise unexpected

unfoldable pub job_band : Conversation → Result (Option RiskBand)
job_band job = band_returned (risk_band job.risk_score)

-- `assert band is not None` and the response that follows it.
unfoldable pub score_result : Sentiment → ℤ → Text → Option RiskBand → Result (Option ScoreResult)
score_result mood risk why none = raise unexpected
score_result mood risk why (some b) = ok (
    some (record {
      sentiment = sentiment_value mood;
      risk_score = risk;
      risk_band = band_value b;
      risk_band_label = band_label b;
      rationale = why;
    }))

unfoldable pub scored_result :
    Option Sentiment → Option ℤ → Option Text → Conversation → Result (Option ScoreResult)
scored_result (some mood) (some risk) (some why) job = job_band job >>= score_result mood risk why
scored_result _ _ _ job = ok none

unfoldable pub to_result : Conversation → Result (Option ScoreResult)
to_result job = scored_result job.sentiment job.risk_score job.rationale job

unfoldable pub to_error : Conversation → Option JobError
to_error job = elim job.last_error_type [
  | none ↦ none
  | some t ↦ some (record { type = error_type_value t; message = job.last_error })
]

abbrev pub job_status_of : Conversation → Option ScoreResult → JobStatusResponse
job_status_of job result = record {
  job_id = job.id;
  status = status_value job.status;
  source = source_value job.source;
  attempt_count = job.attempt_count;
  max_attempts = job.max_attempts;
  created_at = job.created_at;
  completed_at = job.completed_at;
  result = result;
  error = to_error job;
}

unfoldable pub to_job_status : Conversation → Result JobStatusResponse
to_job_status job = do result ← to_result job; ok (job_status_of job result)

unfoldable pub to_summary : Conversation → Result ConversationSummary
to_summary job = do
  b ← job_band job
  ok (record {
    id = job.id;
    source = source_value job.source;
    source_ref = job.source_ref;
    status = status_value job.status;
    sentiment = option_map sentiment_value job.sentiment;
    risk_score = job.risk_score;
    risk_band = option_map band_value b;
    message_count = job.message_count;
    attempt_count = job.attempt_count;
    created_at = job.created_at;
    completed_at = job.completed_at;
  })

unfoldable pub to_detail : Conversation → Result ConversationDetail
to_detail job = do
  result ← to_result job
  ok (record {
    id = job.id;
    source = source_value job.source;
    source_ref = job.source_ref;
    status = status_value job.status;
    conversation = job.conversation;
    message_count = job.message_count;
    result = result;
    llm = record {
      model = job.model;
      prompt_version = job.prompt_version;
      schema_version = job.schema_version;
      prompt_tokens = job.prompt_tokens;
      completion_tokens = job.completion_tokens;
      total_tokens = job.total_tokens;
      llm_latency_ms = job.llm_latency_ms;
      estimated_cost_usd = job.estimated_cost_usd;
      pricing_version = job.pricing_version;
    };
    attempt_count = job.attempt_count;
    max_attempts = job.max_attempts;
    error = to_error job;
    created_at = job.created_at;
    enqueued_at = job.enqueued_at;
    started_at = job.started_at;
    completed_at = job.completed_at;
  })
