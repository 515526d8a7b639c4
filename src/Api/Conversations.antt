-- ===== src/Api/Conversations.antt =====
-- app/api/conversations.py: submission, polling, browsing and inspection. FastAPI's parsing of the
-- request is left out, except for the bounds that the handlers declare; metrics and logs are too.
pub mod Submit
pub mod Race
pub mod Query
pub mod Browse
use convoscore.Prelude.{
  ℕ, Bool, true, false, ◌&&◌, ◌||◌, Option, none, some, List, [], ◌∷◌, if◌then◌else◌, leb,
  option_map,
}
use convoscore.Text.{Text, text, ◌is◌}
use convoscore.Models.{
  Uuid, Time, Conversation, Db, api, pending, processing, completed, failed, s3, positive, neutral,
  negative, status_value, source_value, sentiment_value,
}
use convoscore.Schemas.{ConversationInput, Digest}
use convoscore.Repository.Jobs.{get_job, create_job, mark_enqueued, mark_enqueue_failed}
use convoscore.Repository.Reads.{Filters, list_conversations}
use convoscore.Runtime.{World, Env, Result, ok, raise, publish_error, M, ◌>>=◌, ◌>>◌, pure, raising}
use convoscore.Queue.{publish}
use convoscore.Api.Serializers.{
  JobStatusResponse, ConversationSummary, ConversationDetail, to_job_status, to_summary, to_detail,
}
use convoscore.Api.Session.{Writes, flush, commit_session, read_only, respond}

pub record JobCreatedResponse : Type 0 where
  pub status_code : ℕ
  pub job_id : Uuid
  pub status : Text

abbrev pub job_accepted : Uuid → JobCreatedResponse
job_accepted id = record { status_code = 202; job_id = id; status = status_value pending }

abbrev pub job_refused : Uuid → JobCreatedResponse
job_refused id = record { status_code = 503; job_id = id; status = status_value failed }

pub record Server : Type 0 where
  pub env : Env
  pub max_attempts : ℕ
  pub digest : Digest
  -- `uuid.uuid4()`, by the number of the transaction
  pub uuid4 : ℕ → Uuid
  pub publish_error_text : Text

module _ (s : Server) where
  open s use {env, max_attempts, digest, uuid4, publish_error_text}

  -- What the session writes: `create_job`, and one of the two functions that follow it.
  abbrev pub created : Time → Uuid → ConversationInput → Writes
  created now id c = create_job digest now id c api max_attempts none

  abbrev pub created_and_enqueued : Time → Uuid → ConversationInput → Writes
  created_and_enqueued now id c db = option_map (mark_enqueued now id) (created now id c db)

  abbrev pub created_and_failed : Time → Uuid → ConversationInput → Writes
  created_and_failed now id c db =
      option_map (mark_enqueue_failed now id publish_error_text) (created now id c db)

  -- `mark_enqueued` and the end of the handler: `get_db` commits after the 202 has been sent.
  unfoldable pub accept : Time → Uuid → ConversationInput → M JobCreatedResponse
  accept now id c = respond (job_accepted id) (commit_session env (created_and_enqueued now id c))

  -- `except QueuePublishError`: the handler itself commits the job as a failed one.
  unfoldable pub refuse : Time → Uuid → ConversationInput → M JobCreatedResponse
  refuse now id c = do commit_session env (created_and_failed now id c); pure (job_refused id)

  -- `try: publisher.publish(job_id)` and what follows each outcome.
  unfoldable pub after_publish :
      Time
      → Uuid
      → ConversationInput
      → Result (Unit {0}) × World
      → Result JobCreatedResponse × World
  after_publish now id c (ok _, w) = accept now id c w
  after_publish now id c (raise publish_error, w) = refuse now id c w
  after_publish now id c (raise e, w) = (raise e, w)

  -- All statements of the session see the clock of its first one.
  unfoldable pub submit_conversation : ConversationInput → M JobCreatedResponse
  submit_conversation c w =
      let now = env.now w.transactions in
      let id = uuid4 w.transactions in
      (flush env (created now id c) >> λ w'. after_publish now id c (publish env id w')) w

-- An answer of a handler that only reads, or an `HTTPException` with its status code.
pub data Answer (A : Type 0) : Type 0 where
  answered : A → Answer A
  http_exception : ℕ → Answer A

abbrev pub answer_of : {A : Type 0} → Result A → Result (Answer A)
answer_of (ok a) = ok (answered a)
answer_of (raise e) = raise e

abbrev pub or_not_found :
    {A : Type 0} → (Conversation → Result A) → Option Conversation → Result (Answer A)
or_not_found show none = ok (http_exception 404)
or_not_found show (some job) = answer_of (show job)

unfoldable pub get_job_status : Env → Uuid → M (Answer JobStatusResponse)
get_job_status env id = read_only env (λ db. or_not_found to_job_status (get_job id db))

unfoldable pub get_conversation : Env → Uuid → M (Answer ConversationDetail)
get_conversation env id = read_only env (λ db. or_not_found to_detail (get_job id db))

-- `value in allowed`.
unfoldable pub is_member : Text → List Text → Bool
is_member v [] = false
is_member v (t ∷ ts) = (v is t) || is_member v ts

-- `_validate_enum`: whether it returns rather than raising the status 422.
abbrev pub validate_enum : Option Text → List Text → Bool
validate_enum none allowed = true
validate_enum (some v) allowed = is_member v allowed

abbrev pub statuses : List Text
statuses =
    status_value pending
    ∷ status_value processing
    ∷ status_value completed
    ∷ status_value failed
    ∷ []

abbrev pub sources : List Text
sources = source_value api ∷ source_value s3 ∷ []

abbrev pub sentiments : List Text
sentiments = text "positive" ∷ text "neutral" ∷ text "negative" ∷ []

-- The bounds of `Query`; those below 0 hold of every natural number.
abbrev pub in_bounds : Option ℕ → ℕ → Bool
in_bounds none limit = leb 1 limit && leb limit 200
in_bounds (some risk) limit = leb risk 100 && (leb 1 limit && leb limit 200)

abbrev pub accepts_query : Filters → ℕ → Bool
accepts_query f limit =
    in_bounds f.min_risk limit
    && (validate_enum f.status statuses
        && (validate_enum f.source sources && validate_enum f.sentiment sentiments))

-- `[to_summary(row) for row in rows]`.
unfoldable pub summaries : List Conversation → Result (List ConversationSummary)
summaries [] = ok []
summaries (r ∷ rs) = elim (to_summary r) [
  | raise e ↦ raise e
  | ok s ↦ elim (summaries rs) [ raise e ↦ raise e | ok rest ↦ ok (s ∷ rest) ]
]

pub record ConversationListResponse : Type 0 where
  pub items : List ConversationSummary
  pub total : ℕ
  pub limit : ℕ
  pub offset : ℕ

abbrev pub listed :
    ℕ → ℕ → ℕ → Result (List ConversationSummary) → Result (Answer ConversationListResponse)
listed total limit offset (raise e) = raise e
listed total limit offset (ok items) =
    ok (answered (record { items = items; total = total; limit = limit; offset = offset }))

abbrev pub browse : Filters → ℕ → ℕ → Db → Result (Answer ConversationListResponse)
browse f limit offset db =
    let (rows, total) = list_conversations f limit offset db in
    listed total limit offset (summaries rows)

-- The checks come before the session's first statement.
unfoldable pub browse_conversations : Env → Filters → ℕ → ℕ → M (Answer ConversationListResponse)
browse_conversations env f limit offset =
    if accepts_query f limit
    then read_only env (browse f limit offset)
    else pure (http_exception 422)
