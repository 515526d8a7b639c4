-- ===== src/Tests/Migrations.antt =====
-- The schema, the rows in it, and a migration that fails.
use convoscore.Prelude.{Bool, true, false, none, some, [], ◌∷◌, ◌≡◌, refl, arith, if◌then◌else◌}
use convoscore.Prelude.Int.{pos}
use convoscore.Text.{text, ◌is◌}
use convoscore.Models.{IngestedObject, invalid}
use convoscore.Migrations.Objects.{ingested_object_values}
use convoscore.Schemas.{
  normalized, content_hash, dump_messages, dump_message, dump_metadata, dump_tags,
}
use convoscore.Migrations.{
  Schema, apply_op, apply_ops, is_taken, accepts_row, json_storable, columns_accept, value_in,
}
use convoscore.Migrations.Versions.{
  conversations, ingested_objects, revision_0001, revision_0002, index_on,
}
use convoscore.Migrations.Undo.{v0002, downgrade-upgrade}
use convoscore.Migrations.Rows.{conversation_values}
use convoscore.Migrations.Runner.{
  Migration, Statement, upgrade_head, Ran, run_migrations, main, Orderly, main_ends,
}
use convoscore.Tests.Data.{finished_job}
use convoscore.Tests.Database.{patience, slow_start}

-- What the first revision builds, the newest first, and the second on top of it.
abbrev schema_1 : Schema
schema_1 = record {
  tables = conversations ∷ [];
  indexes =
      index_on (text "ix_conversations_created_at_desc") (text "conversations")
        (text "created_at DESC" ∷ [])
      ∷ index_on (text "ix_conversations_status_created_at") (text "conversations")
          (text "status" ∷ text "created_at" ∷ [])
      ∷ index_on (text "ix_conversations_source") (text "conversations") (text "source" ∷ [])
      ∷ index_on (text "ix_conversations_status") (text "conversations") (text "status" ∷ [])
      ∷ [];
}

abbrev schema_2 : Schema
schema_2 = record {
  tables = ingested_objects ∷ schema_1.tables;
  indexes =
      index_on (text "ix_ingested_objects_discovered_at") (text "ingested_objects")
        (text "discovered_at" ∷ [])
      ∷ schema_1.indexes;
}

upgrade-0001 :
    apply_ops revision_0001.upgrade (record { tables = []; indexes = [] }) ≡ some schema_1
unfolding apply_ops apply_op is_taken ◌is◌
upgrade-0001 = refl

-- The table of the jobs cannot be dropped while the objects refer to it.
downgrade-0001_too_early : apply_ops revision_0001.downgrade schema_2 ≡ none
unfolding apply_ops apply_op is_taken ◌is◌
downgrade-0001_too_early = refl

downgrade-upgrade_example : apply_ops revision_0002.downgrade schema_2 ≡ some schema_1
unfolding apply_ops apply_op is_taken ◌is◌
downgrade-upgrade_example =
    downgrade-upgrade v0002 schema_1 schema_2 (record { indexed = refl; linked = refl }) refl

-- A risk score of 101 is refused.
refused-risk :
    accepts_row conversations
      (conversation_values (record finished_job { risk_score = some (pos 101) }))
    ≡ false
unfolding accepts_row columns_accept value_in json_storable ◌is◌ normalized dump_messages
    dump_message dump_metadata dump_tags content_hash
refused-risk = refl

-- An object of 2 GiB, whose size INTEGER cannot hold, whatever else is known of it.
abbrev big_object : IngestedObject
big_object = record {
  bucket = text "b";
  key = text "in/big";
  etag = text "e";
  size_bytes = some 2147483648;
  conversation_id = none;
  ingest_status = invalid;
  error = none;
  discovered_at = 0;
}

refused-big_object : accepts_row ingested_objects (ingested_object_values 1 big_object) ≡ false
unfolding accepts_row columns_accept ◌is◌
refused-big_object = refl

abbrev is_upgrade : Statement → Bool
is_upgrade upgrade_head = true
is_upgrade _ = false

abbrev broken_migration : Migration
broken_migration = record { loads = true; opens = true; raises = is_upgrade }

main_ends_example :
    (r : Ran) × (run_migrations broken_migration 91 patience slow_start 0 ≡ some r)
    × (main broken_migration 91 patience slow_start 0 ≡ some (if r.is_raised then 1 else 0))
    × Orderly broken_migration r
main_ends_example = main_ends broken_migration patience slow_start 90 (omega arith) 0
