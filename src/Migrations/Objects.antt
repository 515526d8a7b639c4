-- ===== src/Migrations/Objects.antt =====
-- The rows of the storage objects as the values that PostgreSQL stores.
use convoscore.Prelude.{ℕ, List, [], ◌∷◌}
use convoscore.Models.{IngestedObject}
use convoscore.Observability.Scrape.{ingest_status_value}
use convoscore.Migrations.{Value, uuid_value, text_value, time_value}
use convoscore.Migrations.Rows.{or_sql_null, count_value}

-- `n` is the value of the sequence behind the column `id`.
abbrev pub ingested_object_values : ℕ → IngestedObject → List Value
ingested_object_values n o =
    count_value n
    ∷ text_value o.bucket
    ∷ text_value o.key
    ∷ text_value o.etag
    ∷ or_sql_null count_value o.size_bytes
    ∷ or_sql_null uuid_value o.conversation_id
    ∷ text_value (ingest_status_value o.ingest_status)
    ∷ or_sql_null text_value o.error
    ∷ time_value o.discovered_at
    ∷ []
