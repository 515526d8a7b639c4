-- ===== src/Migrations/Rows.antt =====
-- The rows of app/models.py as the values that PostgreSQL stores, column by column.
use convoscore.Prelude.{ℕ, Option, none, some, List, [], ◌∷◌, Bool, true, if◌then◌else◌}
use convoscore.Prelude.Int.{pos}
use convoscore.Text.{Text, ◌is◌}
use convoscore.Models.{Conversation, sentiment_value, status_value, source_value}
use convoscore.Api.Serializers.{error_type_value}
use convoscore.Migrations.{
  Column, Value, sql_null, uuid_value, text_value, json_value, int_value, numeric_value, time_value,
  column_accepts,
}

-- A value that may be absent.
abbrev pub or_sql_null {ℓ} : {A : Type ℓ} → (A → Value) → Option A → Value
or_sql_null f none = sql_null
or_sql_null f (some a) = f a

abbrev pub count_value : ℕ → Value
count_value n = int_value (pos n)

abbrev pub conversation_values : Conversation → List Value
conversation_values r =
    uuid_value r.id
    ∷ text_value (source_value r.source)
    ∷ or_sql_null text_value r.source_ref
    ∷ json_value r.conversation
    ∷ text_value r.conversation_hash
    ∷ count_value r.message_count
    ∷ text_value (status_value r.status)
    ∷ count_value r.attempt_count
    ∷ count_value r.max_attempts
    ∷ or_sql_null time_value r.locked_until
    ∷ or_sql_null (λ kind. text_value (error_type_value kind)) r.last_error_type
    ∷ or_sql_null text_value r.last_error
    ∷ or_sql_null (λ mood. text_value (sentiment_value mood)) r.sentiment
    ∷ or_sql_null int_value r.risk_score
    ∷ or_sql_null text_value r.rationale
    ∷ or_sql_null text_value r.model
    ∷ or_sql_null text_value r.prompt_version
    ∷ or_sql_null text_value r.schema_version
    ∷ or_sql_null count_value r.prompt_tokens
    ∷ or_sql_null count_value r.completion_tokens
    ∷ or_sql_null count_value r.total_tokens
    ∷ or_sql_null count_value r.llm_latency_ms
    ∷ or_sql_null numeric_value r.estimated_cost_usd
    ∷ or_sql_null text_value r.pricing_version
    ∷ time_value r.created_at
    ∷ or_sql_null time_value r.enqueued_at
    ∷ or_sql_null time_value r.started_at
    ∷ or_sql_null time_value r.completed_at
    ∷ time_value r.updated_at
    ∷ []

-- Whether the column of this name takes the value.
unfoldable pub accepted_at : List Column → Text → Value → Bool
accepted_at [] name new = true
accepted_at (c ∷ cs) name new =
    if name is c.column_name then column_accepts c new else accepted_at cs name new
