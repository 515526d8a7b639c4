-- ===== src/Models.antt =====
-- app/models.py: the enumerations and the rows of the three tables.
-- Times are microseconds, costs are units of 1e-8 USD (the column is NUMERIC(12, 8)), a UUID is
-- its 128-bit number.
use convoscore.Prelude.{ℕ, ◌*◌, Bool, true, false, ◌&&◌, Option, none, some, List, []}
use convoscore.Prelude.Int.{ℤ, pos, leb_ℤ}
use convoscore.Text.{Text, text}
use convoscore.Json.{Json}

abbrev pub Uuid : Type 0
Uuid = ℕ

abbrev pub Time : Type 0
Time = ℕ

abbrev pub seconds : ℕ → Time
seconds n = n * 1000000

pub data JobStatus : Type 0 where
  pending processing completed failed : JobStatus

abbrev pub is_terminal : JobStatus → Bool
is_terminal completed = true
is_terminal failed = true
is_terminal _ = false

abbrev pub is_processing : JobStatus → Bool
is_processing processing = true
is_processing _ = false

-- `status.in_([PENDING, PROCESSING])`.
abbrev pub is_open : JobStatus → Bool
is_open pending = true
is_open processing = true
is_open _ = false

abbrev pub status_value : JobStatus → Text
status_value pending = text "pending"
status_value processing = text "processing"
status_value completed = text "completed"
status_value failed = text "failed"

pub data JobSource : Type 0 where
  api s3 : JobSource

abbrev pub source_value : JobSource → Text
source_value api = text "api"
source_value s3 = text "s3"

pub data ErrorType : Type 0 where
  timeout rate_limited server_error connection_error invalid_llm_response client_error
        enqueue_failed max_attempts_exhausted internal_error :
      ErrorType

-- app/scoring/contract.py: Sentiment
pub data Sentiment : Type 0 where
  positive neutral negative : Sentiment

abbrev pub sentiment_value : Sentiment → Text
sentiment_value positive = text "positive"
sentiment_value neutral = text "neutral"
sentiment_value negative = text "negative"

abbrev pub last_error_max_chars : ℕ
last_error_max_chars = 1000

pub record Conversation : Type 0 where
  pub id : Uuid
  pub source : JobSource
  pub source_ref : Option Text
  pub conversation : Json
  pub conversation_hash : Text
  pub message_count : ℕ
  pub status : JobStatus
  pub attempt_count : ℕ
  pub max_attempts : ℕ
  pub locked_until : Option Time
  pub last_error_type : Option ErrorType
  pub last_error : Option Text
  pub sentiment : Option Sentiment
  pub risk_score : Option ℤ
  pub rationale : Option Text
  pub model : Option Text
  pub prompt_version : Option Text
  pub schema_version : Option Text
  pub prompt_tokens : Option ℕ
  pub completion_tokens : Option ℕ
  pub total_tokens : Option ℕ
  pub llm_latency_ms : Option ℕ
  pub estimated_cost_usd : Option ℕ
  pub pricing_version : Option Text
  pub created_at : Time
  pub enqueued_at : Option Time
  pub started_at : Option Time
  pub completed_at : Option Time
  pub updated_at : Time

-- The CHECK constraint `ck_conversations_risk_score`; the others hold by the types.
abbrev pub risk_in_range : Option ℤ → Bool
risk_in_range none = true
risk_in_range (some r) = leb_ℤ (pos 0) r && leb_ℤ r (pos 100)

pub data IngestStatus : Type 0 where
  ingested invalid ingest_failed : IngestStatus

pub record IngestedObject : Type 0 where
  pub bucket : Text
  pub key : Text
  pub etag : Text
  pub size_bytes : Option ℕ
  pub conversation_id : Option Uuid
  pub ingest_status : IngestStatus
  pub error : Option Text
  pub discovered_at : Time

pub data FailureMode : Type 0 where
  timeout http_500 malformed : FailureMode

abbrev pub mode_value : FailureMode → Text
mode_value FailureMode.timeout = text "timeout"
mode_value http_500 = text "http_500"
mode_value malformed = text "malformed"

-- The primary key of `demo_failure_tokens` as a number, in the order of the enumeration.
abbrev pub mode_key : FailureMode → ℕ
mode_key FailureMode.timeout = 0
mode_key http_500 = 1
mode_key malformed = 2

pub record DemoFailureToken : Type 0 where
  pub mode : FailureMode
  pub remaining : ℕ
  pub armed_at : Option Time

pub record Db : Type 0 where
  pub conversations : List Conversation
  pub ingested_objects : List IngestedObject
  pub demo_failure_tokens : List DemoFailureToken

abbrev pub empty_db : Db
empty_db = record { conversations = []; ingested_objects = []; demo_failure_tokens = [] }
