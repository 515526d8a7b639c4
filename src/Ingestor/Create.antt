-- ===== src/Ingestor/Create.antt =====
-- The transaction that turns an object into a job.
use convoscore.Prelude.{
  ℕ, ◌+◌, Bool, true, Option, none, some, List, [], ◌∷◌, ◌++◌, ◌≡◌, refl, arith, ◌⊎◌, inl, inr, any,
  Option-cases, sym, subst,
}
use convoscore.Text.{Text, ◌is◌, is_iff}
use convoscore.Models.{Uuid, Time, Db, s3, ingested, Conversation}
use convoscore.Schemas.{ConversationInput}
use convoscore.Repository.Jobs.{get_job, new_job, insert_job, create_job}
use convoscore.Repository.Effects.{get_job-insert_job}
use convoscore.Repository.Ingest.{
  stored_error, is_object, object_already_seen, record_ingested_object,
}
use convoscore.Storage.{StoredObject, uri}
use convoscore.Runtime.{
  World, Result, ok, raise, Raised, integrity_error, transaction, seen, transaction-cases,
}
use convoscore.Ingestor.{PollResult, Source, create_body}

-- How many objects a result accounts for.
abbrev pub handled : PollResult → ℕ
handled r = r.ingested + r.skipped_duplicate + r.invalid + r.failed

-- A returned result counts one object and discovers none.
abbrev One : Result PollResult × World → Type 0
One (ok r, w) = (handled r ≡ 1) × (r.discovered ≡ 0)
One (raise e, w) = Unit

is_refl : (t : Text) → (t is t) ≡ true
is_refl t = (is_iff t t).1 refl

any-append_last {ℓ} :
    {A : Type ℓ} (f : A → Bool) (xs : List A) (x : A) → f x ≡ true → any f (xs ++ x ∷ []) ≡ true
any-append_last f [] x h = ground (arith, h)
any-append_last f (y ∷ xs) x h = ground (arith, any-append_last f xs x h)

module _ (src : Source) where
  open src use {env, bucket}

  -- The object is in the records.
  abbrev pub Seen : StoredObject → Db → Type 0
  Seen stored db = object_already_seen bucket stored.key stored.etag db ≡ true

  -- The job that an object becomes.
  abbrev pub job_of_object : StoredObject → ConversationInput → Uuid → Time → Conversation
  job_of_object stored c id now =
      new_job src.digest now id c s3 src.max_attempts (some (uri bucket stored.key))

  object_already_seen-record_ingested_object :
      (now : Time) (b k t : Text) (size : Option ℕ) (id : Option Uuid) (error : Option Text)
      (db db' : Db)
      → record_ingested_object now b k t size ingested id error db ≡ some db'
      → (object_already_seen b k t db' ≡ true) × (db'.conversations ≡ db.conversations)
  unfolding record_ingested_object object_already_seen
  object_already_seen-record_ingested_object now b k t size id error db db' h = ground (
    arith,
    h,
    is_refl b,
    is_refl k,
    is_refl t,
    any-append_last (is_object b k t) db.ingested_objects (record {
      bucket = b;
      key = k;
      etag = t;
      size_bytes = size;
      conversation_id = id;
      ingest_status = ingested;
      error = stored_error error;
      discovered_at = now;
    }),
  )

  -- The transaction returned the new job's id, the job is there as it was created, and the object
  -- is on record.
  abbrev pub Made : StoredObject → ConversationInput → Uuid → Time → Result Uuid → Db → Type 0
  Made stored c id now r db =
      (r ≡ ok id) × (get_job id db ≡ some (job_of_object stored c id now)) × Seen stored db

  create_body-Made :
      (stored : StoredObject) (c : ConversationInput) (id : Uuid) (now : Time) (db : Db)
      → let p = create_body src stored c id now db in
        Made stored c id now p.0 p.1 ⊎ ((e : Raised) × (p.0 ≡ raise e))
  unfolding create_body create_job get_job
  create_body-Made stored c id now db =
      elim (Option-cases (insert_job (job_of_object stored c id now) db)) [
        | inl taken ↦ inr (integrity_error, ground (arith, taken))
        | inr (db1, made) ↦
            elim (Option-cases (
              record_ingested_object now bucket stored.key stored.etag (some stored.size_bytes)
                ingested (some id) none db1)) [
                  | inl known ↦ inr (integrity_error, ground (arith, made, known))
                  | inr (db2, recorded) ↦ inl (
                      ground (
                        arith,
                        made,
                        recorded,
                        get_job-insert_job (job_of_object stored c id now) db id made,
                        object_already_seen-record_ingested_object now bucket stored.key stored.etag
                            (some stored.size_bytes) (some id) none db1 db2 recorded,
                      ))
                ]
      ]

  -- The transaction of a new object is all or nothing: it returns the job's id, with the job pending
  -- under it and the object on record, or it raises, and the database is as the others left it.
  pub create_body-transaction :
      (stored : StoredObject) (c : ConversationInput) (id : Uuid) (w : World)
      → let p = transaction env (create_body src stored c id) w in
        Made stored c id (env.now w.transactions) p.0 p.1.db
        ⊎ ((e : Raised) × (p.0 ≡ raise e) × (p.1.db ≡ seen env w))
  create_body-transaction stored c id w =
      let now = env.now w.transactions in
      let Goal : Result Uuid × World → Type 0 = λ q.
        Made stored c id now q.0 q.1.db
        ⊎ ((e : Raised) × (q.0 ≡ raise e) × (q.1.db ≡ seen env w)) in
      elim (transaction-cases env (create_body src stored c id) w) [
        | inl (a, db', ran, ended) ↦
            subst Goal (sym ended)
              (elim (subst
                (λ (q : Result Uuid × Db).
                  Made stored c id now q.0 q.1 ⊎ ((e : Raised) × (q.0 ≡ raise e)))
                ran (create_body-Made stored c id now (seen env w))) [
                  | inl made ↦ inl made
                  | inr (e, h) ↦ absurd (ground (arith, h))
                ])
        | inr failed ↦ inr failed
      ]
