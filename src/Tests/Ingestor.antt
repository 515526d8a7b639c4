-- ===== src/Tests/Ingestor.antt =====
-- One pass over a bucket with one object.
use convoscore.Prelude.{false, none, some, List, [], ◌∷◌, ◌≡◌, ◌⊎◌, refl, length}
use convoscore.Text.{text, ◌is◌}
use convoscore.Models.{ingested, seconds}
use convoscore.Schemas.{normalized}
use convoscore.Repository.Ingest.{object_already_seen}
use convoscore.Storage.{
  list_items, ends_with_slash, strip_quotes, strip_left, strip_right, StoredObject, Item,
  list_pages,
}
use convoscore.Runtime.{World, ok, raise, Raised, transaction}
use convoscore.Ingestor.{
  add, poll_from, handle_unseen, Source, no_result, create_body, handle, poll_once,
}
use convoscore.Ingestor.Create.{Made, create_body-transaction}
use convoscore.Ingestor.Counts.{poll_once_complete}
use convoscore.Tests.Data.{strict, plain, complaint, quiet, new_row, world_of}

abbrev pub source : Source
source = record {
  env = quiet;
  bucket = text "b";
  max_attempts = 3;
  py = strict;
  digest = plain;
  read_object = λ k. some (1 ∷ []);
  loads = λ raw. some (normalized complaint);
  uuid4 = λ n. 20;
  problem_text = λ raw p. text "refused";
  publish_error_text = text "no queue";
  stopping = λ n. false;
}

abbrev pub listing : List Item
listing =
    record { item_key = text "in/a"; item_size = some 1; item_etag = some (34 ∷ 97 ∷ 34 ∷ []) }
    ∷ record { item_key = text "in/"; item_size = some 0; item_etag = none }
    ∷ []

abbrev object_a : StoredObject
object_a = record { key = text "in/a"; etag = text "a"; size_bytes = 1 }

abbrev world_with_a : World
world_with_a = record (world_of new_row) {
  db = record {
    conversations = new_row ∷ [];
    ingested_objects =
        record {
          bucket = text "b";
          key = text "in/a";
          etag = text "a";
          size_bytes = some 1;
          conversation_id = some 7;
          ingest_status = ingested;
          error = none;
          discovered_at = 0;
        }
        ∷ [];
    demo_failure_tokens = [];
  };
}

create_body-transaction_example :
    let p = transaction quiet (create_body source object_a complaint 20) (world_of new_row) in
    Made source object_a complaint 20 (seconds 10) p.0 p.1.db
    ⊎ ((e : Raised) × (p.0 ≡ raise e) × (p.1.db ≡ (world_of new_row).db))
create_body-transaction_example =
    create_body-transaction source object_a complaint 20 (world_of new_row)

abbrev poll_a_world : World
poll_a_world = record world_with_a { transactions = 1 }

-- The only candidate is on record and is skipped; the directory's key is no candidate.
poll_a :
    poll_once source (some (listing ∷ [])) world_with_a
    ≡ (ok (record no_result { discovered = 1; skipped_duplicate = 1 }), poll_a_world)
unfolding poll_once poll_from handle handle_unseen transaction object_already_seen ◌is◌ list_items
    list_pages ends_with_slash strip_quotes strip_left strip_right add
poll_a = refl

poll_once_complete_example :
    (1 ≡ length (list_pages (listing ∷ []))) × (1 ≡ length (list_pages (listing ∷ [])))
poll_once_complete_example =
    poll_once_complete source (listing ∷ []) world_with_a poll_a_world
      (record no_result { discovered = 1; skipped_duplicate = 1 }) (λ t. refl) poll_a
