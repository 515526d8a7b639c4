-- ===== src/Migrations/Versions.antt =====
-- alembic/versions/: the three revisions.
use convoscore.Prelude.{true, none, some, List, [], ◌∷◌}
use convoscore.Prelude.Int.{pos}
use convoscore.Text.{Text, text}
use convoscore.Migrations.{
  uuid, long_text, jsonb, integer, small_integer, date_time, string, numeric, Column, optional,
  required, one_of, null_or, is_between, is_at_least, SqlTable, Index, create_table, create_index,
  drop_index, drop_table, Revision,
}

-- `server_default=sa.text("clock_timestamp()")`.
abbrev pub clocked : Text → Column
clocked name = record (required name date_time) { server_default = some (text "clock_timestamp()") }

abbrev pub conversations : SqlTable
conversations = record {
  table_name = text "conversations";
  columns =
      record (required (text "id") uuid) { primary_key = true }
      ∷ required (text "source") (string 16)
      ∷ optional (text "source_ref") long_text
      ∷ required (text "conversation") jsonb
      ∷ required (text "conversation_hash") (string 64)
      ∷ required (text "message_count") integer
      ∷ required (text "status") (string 16)
      ∷ record (required (text "attempt_count") integer) { server_default = some (text "0") }
      ∷ record (required (text "max_attempts") integer) { server_default = some (text "3") }
      ∷ optional (text "locked_until") date_time
      ∷ optional (text "last_error_type") (string 32)
      ∷ optional (text "last_error") long_text
      ∷ optional (text "sentiment") (string 16)
      ∷ optional (text "risk_score") small_integer
      ∷ optional (text "rationale") long_text
      ∷ optional (text "model") (string 64)
      ∷ optional (text "prompt_version") (string 16)
      ∷ optional (text "schema_version") (string 16)
      ∷ optional (text "prompt_tokens") integer
      ∷ optional (text "completion_tokens") integer
      ∷ optional (text "total_tokens") integer
      ∷ optional (text "llm_latency_ms") integer
      ∷ optional (text "estimated_cost_usd") (numeric 12 8)
      ∷ optional (text "pricing_version") (string 16)
      ∷ clocked (text "created_at")
      ∷ optional (text "enqueued_at") date_time
      ∷ optional (text "started_at") date_time
      ∷ optional (text "completed_at") date_time
      ∷ clocked (text "updated_at")
      ∷ [];
  checks =
      record {
        check_name = text "ck_conversations_status";
        condition =
            one_of (text "status")
              (text "pending" ∷ text "processing" ∷ text "completed" ∷ text "failed" ∷ []);
      }
      ∷ record {
        check_name = text "ck_conversations_source";
        condition = one_of (text "source") (text "api" ∷ text "s3" ∷ []);
      }
      ∷ record {
        check_name = text "ck_conversations_sentiment";
        condition =
            null_or (text "sentiment")
              (one_of (text "sentiment") (text "positive" ∷ text "neutral" ∷ text "negative" ∷ []));
      }
      ∷ record {
        check_name = text "ck_conversations_risk_score";
        condition = null_or (text "risk_score") (is_between (text "risk_score") (pos 0) (pos 100));
      }
      ∷ record {
        check_name = text "ck_conversations_attempt_count";
        condition = is_at_least (text "attempt_count") (pos 0);
      }
      ∷ [];
  uniques = [];
  foreign_keys = [];
}

abbrev pub index_on : Text → Text → List Text → Index
index_on name table columns = record {
  index_name = name;
  index_table = table;
  index_columns = columns;
}

abbrev pub revision_0001 : Revision
revision_0001 = record {
  revision = text "0001";
  down_revision = none;
  upgrade =
      create_table conversations
      ∷ create_index
          (index_on (text "ix_conversations_status") (text "conversations") (text "status" ∷ []))
      ∷ create_index
          (index_on (text "ix_conversations_source") (text "conversations") (text "source" ∷ []))
      ∷ create_index (
          index_on (text "ix_conversations_status_created_at") (text "conversations")
            (text "status" ∷ text "created_at" ∷ []))
      ∷ create_index (
          index_on (text "ix_conversations_created_at_desc") (text "conversations")
            (text "created_at DESC" ∷ []))
      ∷ [];
  downgrade =
      drop_index (text "ix_conversations_created_at_desc")
      ∷ drop_index (text "ix_conversations_status_created_at")
      ∷ drop_index (text "ix_conversations_source")
      ∷ drop_index (text "ix_conversations_status")
      ∷ drop_table (text "conversations")
      ∷ [];
}

abbrev pub ingested_objects : SqlTable
ingested_objects = record {
  table_name = text "ingested_objects";
  columns =
      record (required (text "id") integer) { primary_key = true; autoincrement = true }
      ∷ required (text "bucket") (string 255)
      ∷ required (text "key") long_text
      ∷ required (text "etag") (string 128)
      ∷ optional (text "size_bytes") integer
      ∷ optional (text "conversation_id") uuid
      ∷ required (text "status") (string 16)
      ∷ optional (text "error") long_text
      ∷ clocked (text "discovered_at")
      ∷ [];
  checks =
      record {
        check_name = text "ck_ingested_objects_status";
        condition = one_of (text "status") (text "ingested" ∷ text "invalid" ∷ text "failed" ∷ []);
      }
      ∷ [];
  uniques =
      record {
        unique_name = text "uq_ingested_objects_identity";
        unique_columns = text "bucket" ∷ text "key" ∷ text "etag" ∷ [];
      }
      ∷ [];
  foreign_keys =
      record {
        local_column = text "conversation_id";
        foreign_table = text "conversations";
        foreign_column = text "id";
      }
      ∷ [];
}

abbrev pub revision_0002 : Revision
revision_0002 = record {
  revision = text "0002";
  down_revision = some (text "0001");
  upgrade =
      create_table ingested_objects
      ∷ create_index (
          index_on (text "ix_ingested_objects_discovered_at") (text "ingested_objects")
            (text "discovered_at" ∷ []))
      ∷ [];
  downgrade =
      drop_index (text "ix_ingested_objects_discovered_at")
      ∷ drop_table (text "ingested_objects")
      ∷ [];
}

abbrev pub demo_failure_tokens : SqlTable
demo_failure_tokens = record {
  table_name = text "demo_failure_tokens";
  columns =
      record (required (text "mode") (string 16)) { primary_key = true }
      ∷ record (required (text "remaining") integer) { server_default = some (text "0") }
      ∷ optional (text "armed_at") date_time
      ∷ [];
  checks =
      record {
        check_name = text "ck_demo_failure_tokens_remaining";
        condition = is_at_least (text "remaining") (pos 0);
      }
      ∷ record {
        check_name = text "ck_demo_failure_tokens_mode";
        condition = one_of (text "mode") (text "timeout" ∷ text "http_500" ∷ text "malformed" ∷ []);
      }
      ∷ [];
  uniques = [];
  foreign_keys = [];
}

abbrev pub revision_0003 : Revision
revision_0003 = record {
  revision = text "0003";
  down_revision = some (text "0002");
  upgrade = create_table demo_failure_tokens ∷ [];
  downgrade = drop_table (text "demo_failure_tokens") ∷ [];
}

abbrev pub revisions : List Revision
revisions = revision_0001 ∷ revision_0002 ∷ revision_0003 ∷ []
