-- ===== src/System/Ingestion.antt =====
-- A new object becomes a job, and a refused one changes no job.
use convoscore.Prelude.{
  ℕ, suc, Option, none, some, ◌≡◌, refl, Option-cases, inl, inr, subst, sym, ap, ◌∙◌, arith,
}
use convoscore.Text.{Text}
use convoscore.Models.{Uuid, Time, Db, s3, IngestStatus, ingested, invalid}
use convoscore.Schemas.{ConversationInput}
use convoscore.Storage.{StoredObject, uri}
use convoscore.Repository.Jobs.{create_job, mark_enqueued, mark_enqueue_failed}
use convoscore.Repository.Ingest.{record_ingested_object}
use convoscore.Runtime.{
  World, Result, ok, raise, Raised, queue_unavailable, publish_error, database_error,
  integrity_error, storage_unavailable, unexpected, pure, transaction, transaction-cases, seen,
}
use convoscore.Pipeline.{Op, enqueued, enqueue_failure, apply}
use convoscore.Queue.{publish}
use convoscore.Ingestor
use convoscore.Ingestor.{
  Source, PollResult, no_result, add, Parsed, accepted, refused, parse, invalid_body,
  ignore_integrity, record_invalid, create_body, enqueue_done, after_publish, after_create,
  handle_parsed, handle_bytes, handle_unseen, handle, poll_from, poll_once, run_forever,
}
use convoscore.System.{SameJobs, elsewhere, Reach, here, next, Reach-trans, Others}
use convoscore.System.Actions.{
  Keeps, Reach-same, Keeps-then, Keeps-pure, Keeps-transaction, Keeps-one, Keeps-publish,
}
use convoscore.System.Sources.{SourceOps, create-Reach}

-- A record of an object leaves the jobs alone.
record_ingested_object-SameJobs :
    (now : Time) (bucket key etag : Text) (size : Option ℕ) (status : IngestStatus)
    (id : Option Uuid) (error : Option Text) (db db' : Db)
    → record_ingested_object now bucket key etag size status id error db ≡ some db'
    → SameJobs db db'
unfolding record_ingested_object
record_ingested_object-SameJobs now bucket key etag size status id error db db' e =
    ground (arith, e)

module _ {ℓ} (P : Op → Type ℓ) (src : Source) (others : Others P src.env)
    (ops : SourceOps P src.digest src.uuid4) where
  invalid_body-Reach :
      (stored : StoredObject) (error : Text) (now : Time) (db : Db) (a : Unit {0}) (db' : Db)
      → invalid_body src stored error now db ≡ (ok a, db')
      → Reach P db db'
  unfolding invalid_body
  invalid_body-Reach stored error now db a db' e =
      elim (Option-cases (
        record_ingested_object now src.bucket stored.key stored.etag (some stored.size_bytes)
          invalid none (some error) db)) [
            | inl taken ↦ absurd (ground (arith, taken, e))
            | inr (d, made) ↦ next here (
                elsewhere (
                  record_ingested_object-SameJobs now src.bucket stored.key stored.etag
                    (some stored.size_bytes) invalid none (some error) db db'
                    (ground (arith, made, e))))
          ]

  ignored_db : (p : Result (Unit {0}) × World) → (ignore_integrity src p).1.db ≡ p.1.db
  unfolding ignore_integrity
  ignored_db (ok a, w) = refl
  ignored_db (raise queue_unavailable, w) = refl
  ignored_db (raise publish_error, w) = refl
  ignored_db (raise database_error, w) = refl
  ignored_db (raise integrity_error, w) = refl
  ignored_db (raise storage_unavailable, w) = refl
  ignored_db (raise unexpected, w) = refl

  pub record_invalid-Keeps :
      (stored : StoredObject) (error : Text) → Keeps P (record_invalid src stored error)
  unfolding record_invalid
  record_invalid-Keeps stored error w =
      Reach-same P
        (Keeps-transaction P src.env (invalid_body src stored error) others
          (invalid_body-Reach stored error) w)
        (ignored_db (transaction src.env (invalid_body src stored error) w))

  create_body-Reach :
      (stored : StoredObject) (c : ConversationInput) (n : ℕ) (now : Time) (db : Db) (a : Uuid)
      (db' : Db)
      → create_body src stored c (src.uuid4 n) now db ≡ (ok a, db')
      → Reach P db db' × (a ≡ src.uuid4 n)
  unfolding create_body
  create_body-Reach stored c n now db a db' e =
      elim (Option-cases (
        create_job src.digest now (src.uuid4 n) c s3 src.max_attempts
          (some (uri src.bucket stored.key)) db)) [
            | inl taken ↦ absurd (ground (arith, taken, e))
            | inr (d, made) ↦
                elim (Option-cases (
                  record_ingested_object now src.bucket stored.key stored.etag
                    (some stored.size_bytes) ingested (some (src.uuid4 n)) none d)) [
                      | inl seen_before ↦ absurd (ground (arith, made, seen_before, e))
                      | inr (d2, recorded) ↦
                          let same : db' ≡ d2 = ground (arith, made, recorded, e) in
                          let drawn : a ≡ src.uuid4 n = ground (arith, made, recorded, e) in
                          let jobs : SameJobs d db' =
                            ap (λ (x : Db). x.conversations) same
                            ∙ record_ingested_object-SameJobs now src.bucket stored.key stored.etag
                                (some stored.size_bytes) ingested (some (src.uuid4 n)) none d d2
                                recorded in
                          (
                            next
                                (create-Reach P src.digest now (src.uuid4 n) c s3 src.max_attempts
                                  (some (uri src.bucket stored.key)) db d
                                  (ops.creates n c s3 src.max_attempts
                                    (some (uri src.bucket stored.key)))
                                  made)
                                (elsewhere jobs),
                            drawn,
                          )
                    ]
          ]

  after_publish-Keeps :
      (n : ℕ) (p : Result (Unit {0}) × World)
      → Reach P p.1.db (after_publish src (src.uuid4 n) p).1.db
  unfolding after_publish enqueue_done Ingestor.enqueue_failed apply
  after_publish-Keeps n (ok _, w) =
      let id = src.uuid4 n in
      Keeps-then P (transaction src.env (λ now db. (ok tt, mark_enqueued now id db)))
        (pure (record no_result { ingested = 1 }))
        (Keeps-one P src.env others (λ now db. (ok tt, mark_enqueued now id db)) (enqueued id)
          (ops.marks n) (λ now db. refl))
        (Keeps-pure P (record no_result { ingested = 1 })) w
  after_publish-Keeps n (raise publish_error, w) =
      let id = src.uuid4 n in
      let error = src.publish_error_text in
      Keeps-then P (transaction src.env (λ now db. (ok tt, mark_enqueue_failed now id error db)))
        (pure (record no_result { failed = 1 }))
        (Keeps-one P src.env others (λ now db. (ok tt, mark_enqueue_failed now id error db))
          (enqueue_failure id error) (ops.failures n error) (λ now db. refl))
        (Keeps-pure P (record no_result { failed = 1 })) w
  after_publish-Keeps n (raise queue_unavailable, w) = here
  after_publish-Keeps n (raise database_error, w) = here
  after_publish-Keeps n (raise integrity_error, w) = here
  after_publish-Keeps n (raise storage_unavailable, w) = here
  after_publish-Keeps n (raise unexpected, w) = here

  raised_db :
      (e : Raised) (p : Result Uuid × World) → p.0 ≡ raise e → (after_create src p).1.db ≡ p.1.db
  unfolding after_create
  raised_db e (ok a, w) h = absurd (cc)
  raised_db e (raise queue_unavailable, w) h = refl
  raised_db e (raise publish_error, w) h = refl
  raised_db e (raise database_error, w) h = refl
  raised_db e (raise integrity_error, w) h = refl
  raised_db e (raise storage_unavailable, w) h = refl
  raised_db e (raise unexpected, w) h = refl

  pub create-Keeps :
      (stored : StoredObject) (c : ConversationInput) → Keeps P (Ingestor.create src stored c)
  unfolding Ingestor.create after_create
  create-Keeps stored c w =
      let n = w.transactions in
      let body = create_body src stored c (src.uuid4 n) in
      let before : Reach P w.db (seen src.env w) = others n w.db in
      elim (transaction-cases src.env body w) [
        | inl (a, db', e, t) ↦
            let (made, drawn) =
              create_body-Reach stored c n (src.env.now n) (seen src.env w) a db' e in
            let w1 : World = record w { db = db'; transactions = suc n } in
            let rest : Reach P db'
                (after_publish src (src.uuid4 n) (publish src.env (src.uuid4 n) w1)).1.db =
              Reach-trans (Keeps-publish P src.env (src.uuid4 n) w1)
                (after_publish-Keeps n (publish src.env (src.uuid4 n) w1)) in
            subst (λ (q : Result Uuid × World). Reach P w.db (after_create src q).1.db) (sym t)
              (subst (λ id. Reach P w.db (after_publish src id (publish src.env id w1)).1.db)
                (sym drawn) (Reach-trans before (Reach-trans made rest)))
        | inr (e, raised, same) ↦
            Reach-same P before (raised_db e (transaction src.env body w) raised ∙ same)
      ]
