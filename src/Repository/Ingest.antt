-- ===== src/Repository/Ingest.antt =====
-- app/repository.py: the record of the storage objects that were handled.
use convoscore.Prelude.{
  ℕ, Bool, true, false, ◌&&◌, Option, none, some, [], ◌∷◌, ◌++◌, if◌then◌else◌, any, count,
}
use convoscore.Text.{Text, ◌is◌}
use convoscore.Models.{
  Uuid, Time, IngestStatus, ingested, invalid, ingest_failed, IngestedObject, Db,
}
use convoscore.Repository.Jobs.{truncate}

-- The test `bucket = b AND key = k AND etag = e`.
abbrev pub is_object : Text → Text → Text → IngestedObject → Bool
is_object bucket key etag o = (o.bucket is bucket) && ((o.key is key) && (o.etag is etag))

unfoldable pub object_already_seen : Text → Text → Text → Db → Bool
object_already_seen bucket key etag db = any (is_object bucket key etag) db.ingested_objects

-- `_truncate(error) if error else None`: an empty text counts as absent.
abbrev pub stored_error : Option Text → Option Text
stored_error none = none
stored_error (some []) = none
stored_error (some (c ∷ s)) = some (truncate (c ∷ s))

-- `record_ingested_object`; `none` is the IntegrityError of `uq_ingested_objects_identity`.
unfoldable pub record_ingested_object :
    Time → Text → Text → Text → Option ℕ → IngestStatus → Option Uuid → Option Text → Db → Option Db
record_ingested_object now bucket key etag size status id error db =
    if object_already_seen bucket key etag db
    then none
    else some (record db {
      ingested_objects =
          db.ingested_objects
          ++ record {
            bucket = bucket;
            key = key;
            etag = etag;
            size_bytes = size;
            conversation_id = id;
            ingest_status = status;
            error = stored_error error;
            discovered_at = now;
          }
            ∷ [];
    })

abbrev pub has_status : IngestStatus → IngestedObject → Bool
has_status ingested o = elim o.ingest_status [ ingested ↦ true | _ ↦ false ]
has_status invalid o = elim o.ingest_status [ invalid ↦ true | _ ↦ false ]
has_status ingest_failed o = elim o.ingest_status [ ingest_failed ↦ true | _ ↦ false ]

-- The entry of `ingest_counts` for a status.
unfoldable pub ingest_count : IngestStatus → Db → ℕ
ingest_count status db = count (has_status status) db.ingested_objects
