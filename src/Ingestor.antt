-- ===== src/Ingestor.antt =====
-- app/ingestor.py: one pass over the bucket. The clients, the identifiers and Python's rendering of
-- an error are parameters; metrics and logs are left out.
pub mod Create
pub mod Counts
use convoscore.Prelude.{
  ℕ, suc, ◌+◌, ◌*◌, Bool, true, false, Option, none, some, List, [], ◌∷◌, if◌then◌else◌, length,
  ltb,
}
use convoscore.Text.{Text}
use convoscore.Json.{Json, obj}
use convoscore.Models.{Uuid, Time, Db, s3, ingested, invalid}
use convoscore.Schemas.{Coercion, ConversationInput, Digest, model_validate}
use convoscore.Repository.Jobs.{create_job, mark_enqueued, mark_enqueue_failed}
use convoscore.Repository.Ingest.{object_already_seen, record_ingested_object}
use convoscore.Storage.{StoredObject, Item, list_pages, uri}
use convoscore.Runtime.{
  World, Env, Result, ok, raise, Raised, integrity_error, publish_error, storage_unavailable, M,
  ◌>>=◌, ◌>>◌, pure, raising, transaction,
}
use convoscore.Queue.{publish}

abbrev pub max_object_bytes : ℕ
max_object_bytes = 256 * 1024

pub record PollResult : Type 0 where
  pub discovered : ℕ
  pub ingested : ℕ
  pub skipped_duplicate : ℕ
  pub invalid : ℕ
  pub failed : ℕ

abbrev pub no_result : PollResult
no_result = record { discovered = 0; ingested = 0; skipped_duplicate = 0; invalid = 0; failed = 0 }

-- `PollResult.__add__`.
unfoldable pub add : PollResult → PollResult → PollResult
add a b = record {
  discovered = a.discovered + b.discovered;
  ingested = a.ingested + b.ingested;
  skipped_duplicate = a.skipped_duplicate + b.skipped_duplicate;
  invalid = a.invalid + b.invalid;
  failed = a.failed + b.failed;
}

pub data Problem : Type 0 where
  too_large : ℕ → Problem
  not_json not_object schema_mismatch : Problem

pub record Source : Type 0 where
  pub env : Env
  pub bucket : Text
  pub max_attempts : ℕ
  pub py : Coercion
  pub digest : Digest
  -- the bytes of an object; `none` is a StorageUnavailableError
  pub read_object : Text → Option (List ℕ)
  pub loads : List ℕ → Option Json
  -- `uuid.uuid4()`, by the number of the transaction
  pub uuid4 : ℕ → Uuid
  pub problem_text : List ℕ → Problem → Text
  pub publish_error_text : Text
  -- the stop request, by the number of transactions so far
  pub stopping : ℕ → Bool

pub data Parsed : Type 0 where
  accepted : ConversationInput → Parsed
  refused : Problem → Parsed

unfoldable pub parse_payload : Coercion → Json → Parsed
parse_payload py (obj fs) = elim (model_validate py (obj fs)) [
  | some c ↦ accepted c
  | none ↦ refused schema_mismatch
]
parse_payload py _ = refused not_object

module _ (src : Source) where
  open src use {
    env, bucket, max_attempts, py, digest, read_object, loads, uuid4, problem_text, stopping,
  }

  -- `_parse`.
  unfoldable pub parse : List ℕ → Parsed
  parse raw =
      if ltb max_object_bytes (length raw)
      then refused (too_large (length raw))
      else elim (loads raw) [ none ↦ refused not_json | some j ↦ parse_payload py j ]

  unfoldable pub invalid_body : StoredObject → Text → Time → Db → Result (Unit {0}) × Db
  invalid_body stored error now db =
      elim (record_ingested_object now bucket stored.key stored.etag (some stored.size_bytes)
        invalid none (some error) db) [
          | none ↦ (raise integrity_error, db)
          | some db' ↦ (ok tt, db')
        ]

  -- `except IntegrityError: pass`.
  unfoldable pub ignore_integrity : Result (Unit {0}) × World → Result (Unit {0}) × World
  ignore_integrity (raise integrity_error, w) = (ok tt, w)
  ignore_integrity (r, w) = (r, w)

  -- `_record_invalid`.
  unfoldable pub record_invalid : StoredObject → Text → M (Unit {0})
  record_invalid stored error w = ignore_integrity (transaction env (invalid_body stored error) w)

  -- The one transaction of `_create_job`: the job and the record of the object.
  unfoldable pub create_body :
      StoredObject → ConversationInput → Uuid → Time → Db → Result Uuid × Db
  create_body stored c id now db =
      elim (create_job digest now id c s3 max_attempts (some (uri bucket stored.key)) db) [
        | none ↦ (raise integrity_error, db)
        | some db1 ↦
            elim (record_ingested_object now bucket stored.key stored.etag (some stored.size_bytes)
              ingested (some id) none db1) [
                | none ↦ (raise integrity_error, db1)
                | some db2 ↦ (ok id, db2)
              ]
      ]

  unfoldable pub enqueue_failed : Uuid → M PollResult
  enqueue_failed id = do
    transaction env (λ now db. (ok tt, mark_enqueue_failed now id src.publish_error_text db))
    pure (record no_result { failed = 1 })

  unfoldable pub enqueue_done : Uuid → M PollResult
  enqueue_done id = do
    transaction env (λ now db. (ok tt, mark_enqueued now id db))
    pure (record no_result { ingested = 1 })

  -- `try: self.publisher.publish(job_id)` and what follows each outcome.
  unfoldable pub after_publish : Uuid → Result (Unit {0}) × World → Result PollResult × World
  after_publish id (ok _, w) = enqueue_done id w
  after_publish id (raise publish_error, w) = enqueue_failed id w
  after_publish id (raise e, w) = (raise e, w)

  unfoldable pub after_create : Result Uuid × World → Result PollResult × World
  after_create (ok id, w) = after_publish id (publish env id w)
  after_create (raise integrity_error, w) = (ok (record no_result { skipped_duplicate = 1 }), w)
  after_create (raise e, w) = (raise e, w)

  -- `_create_job`.
  unfoldable pub create : StoredObject → ConversationInput → M PollResult
  create stored c w = after_create (transaction env (create_body stored c (uuid4 w.transactions)) w)

  unfoldable pub handle_parsed : StoredObject → List ℕ → Parsed → M PollResult
  handle_parsed stored raw (accepted c) = create stored c
  handle_parsed stored raw (refused p) = do
    record_invalid stored (problem_text raw p)
    pure (record no_result { invalid = 1 })

  unfoldable pub handle_bytes : StoredObject → Option (List ℕ) → M PollResult
  handle_bytes stored none = pure (record no_result { failed = 1 })
  handle_bytes stored (some raw) = handle_parsed stored raw (parse raw)

  unfoldable pub handle_unseen : StoredObject → Bool → M PollResult
  handle_unseen stored true = pure (record no_result { skipped_duplicate = 1 })
  handle_unseen stored false = handle_bytes stored (read_object stored.key)

  -- `_handle`.
  unfoldable pub handle : StoredObject → M PollResult
  handle stored = do
    seen ←
        transaction env (λ now db. (ok (object_already_seen bucket stored.key stored.etag db), db))
    handle_unseen stored seen

  -- The loop of `poll_once`, with its `break` on a stop request.
  unfoldable pub poll_from : PollResult → List StoredObject → M PollResult
  poll_from result [] w = (ok result, w)
  poll_from result (stored ∷ rest) w = elim (stopping w.transactions) [
    | true ↦ (ok result, w)
    | false ↦
        let (r, w') = handle stored w in
        elim r [ ok one ↦ poll_from (add result one) rest w' | raise e ↦ (raise e, w') ]
  ]

  -- `poll_once` on the listed pages; `none` is a StorageUnavailableError.
  unfoldable pub poll_once : Option (List (List Item)) → M PollResult
  poll_once none = raising storage_unavailable
  poll_once (some pages) =
      let objects = list_pages pages in
      poll_from (record no_result { discovered = length objects }) objects

  -- `run_forever` over the listings of its passes until the stop request, with the number of the last
  -- pass that succeeded: no exception ends the loop.
  unfoldable pub run_forever :
      List (Option (List (List Item))) → ℕ → Option ℕ → World → Option ℕ × World
  run_forever [] n last_success w = (last_success, w)
  run_forever (pages ∷ rest) n last_success w =
      let (r, w') = poll_once pages w in
      elim r [
        | ok result ↦ run_forever rest (suc n) (some n) w'
        | raise e ↦ run_forever rest (suc n) last_success w'
      ]
