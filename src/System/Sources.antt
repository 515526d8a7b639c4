-- ===== src/System/Sources.antt =====
-- The API and the ingestor create jobs, and mark as enqueued or as failed only jobs with ids that they
-- have drawn.
use convoscore.Prelude.{
  ℕ, Option, none, some, ◌≡◌, refl, Bool-cases, Option-cases, inl, inr, sym, ap, ◌∙◌, arith,
  option_map, get_or_else,
}
use convoscore.Prelude.Maybe.{some_inj}
use convoscore.Text.{Text}
use convoscore.Models.{Uuid, Time, Db, JobSource, api}
use convoscore.Schemas.{ConversationInput, Digest}
use convoscore.Repository.Jobs.{create_job, mark_enqueued, mark_enqueue_failed}
use convoscore.Runtime.{
  World, Env, Result, ok, raise, queue_unavailable, publish_error, database_error, integrity_error,
  storage_unavailable, unexpected, pure, seen,
}
use convoscore.Pipeline.{Op, create, enqueued, enqueue_failure, apply}
use convoscore.Queue.{publish}
use convoscore.Api.Session.{Writes, flush, commit_session}
use convoscore.Api.Conversations.{
  Server, job_refused, created, created_and_enqueued, created_and_failed, accept, refuse,
  after_publish, submit_conversation,
}
use convoscore.System.{Reach, here, Reach-trans, Others}
use convoscore.System.Actions.{Keeps, Reach-same, Keeps-then, Keeps-pure, Keeps-publish, one}

-- The operations of a process that creates jobs under the ids `uuid4`.
pub record SourceOps {ℓ} (P : Op → Type ℓ) (digest : Digest) (uuid4 : ℕ → Uuid) : Type ℓ where
  pub creates :
      (n : ℕ) (c : ConversationInput) (source : JobSource) (most : ℕ) (ref : Option Text)
      → P (create digest (uuid4 n) c source most ref)
  pub marks : (n : ℕ) → P (enqueued (uuid4 n))
  pub failures : (n : ℕ) (error : Text) → P (enqueue_failure (uuid4 n) error)

module _ {ℓ} (P : Op → Type ℓ) where
  pub create-Reach :
      (digest : Digest) (now : Time) (id : Uuid) (c : ConversationInput) (source : JobSource)
      (most : ℕ) (ref : Option Text) (db db' : Db)
      → P (create digest id c source most ref)
      → create_job digest now id c source most ref db ≡ some db'
      → Reach P db db'
  unfolding apply
  create-Reach digest now id c source most ref db db' p e =
      one P now (create digest id c source most ref) p (sym (ap (λ o. get_or_else o db) e))

  Keeps-flush : (env : Env) (writes : Writes) → Others P env → Keeps P (flush env writes)
  unfolding flush
  Keeps-flush env writes others w =
      let before : Reach P w.db (seen env w) = others w.transactions w.db in
      Reach-same P before (ground arith)

  Keeps-commit_session :
      (env : Env) (writes : Writes)
      → Others P env
      → ((db db' : Db) → writes db ≡ some db' → Reach P db db')
      → Keeps P (commit_session env writes)
  unfolding commit_session
  Keeps-commit_session env writes others h w =
      let before : Reach P w.db (seen env w) = others w.transactions w.db in
      elim (Bool-cases (env.db_fails w.transactions)) [
        | inl fails ↦ rw fails before
        | inr works ↦ elim (Option-cases (writes (seen env w))) [
          | inl refused ↦ rw (works, refused) before
          | inr (db', e) ↦ rw (works, e) (Reach-trans before (h (seen env w) db' e))
        ]
      ]

module _ {ℓ} (P : Op → Type ℓ) (s : Server) (others : Others P s.env)
    (ops : SourceOps P s.digest s.uuid4) where
  -- What follows the creation in the same transaction.
  then_marked :
      (now : Time) (n : ℕ) (c : ConversationInput) (mark : Db → Db) (op : Op) (db db' : Db)
      → P op
      → ((d : Db) → mark d ≡ apply now op d)
      → option_map mark (created s now (s.uuid4 n) c db) ≡ some db'
      → Reach P db db'
  then_marked now n c mark op db db' p same e =
      elim (Option-cases (created s now (s.uuid4 n) c db)) [
        | inl none_made ↦ absurd (ground (arith, e, none_made))
        | inr (d, made) ↦
            let marked : db' ≡ mark d = sym (some_inj (sym (ap (option_map mark) made) ∙ e)) in
            Reach-trans
              (create-Reach P s.digest now (s.uuid4 n) c api s.max_attempts none db d
                (ops.creates n c api s.max_attempts none) made)
              (one P now op p (marked ∙ same d))
      ]

  after_publish-Keeps :
      (now : Time) (n : ℕ) (c : ConversationInput) (p : Result (Unit {0}) × World)
      → Reach P p.1.db (after_publish s now (s.uuid4 n) c p).1.db
  unfolding after_publish accept refuse apply
  after_publish-Keeps now n c (ok _, w) =
      let id = s.uuid4 n in
      Keeps-commit_session P s.env (created_and_enqueued s now id c) others
        (λ db db' e.
          then_marked now n c (mark_enqueued now id) (enqueued id) db db' (ops.marks n) (λ d. refl)
            e)
        w
  after_publish-Keeps now n c (raise publish_error, w) =
      let id = s.uuid4 n in
      Keeps-then P (commit_session s.env (created_and_failed s now id c)) (pure (job_refused id))
        (Keeps-commit_session P s.env (created_and_failed s now id c) others (λ db db' e.
          then_marked now n c (mark_enqueue_failed now id s.publish_error_text)
            (enqueue_failure id s.publish_error_text) db db' (ops.failures n s.publish_error_text)
            (λ d. refl) e))
        (Keeps-pure P (job_refused id)) w
  after_publish-Keeps now n c (raise queue_unavailable, w) = here
  after_publish-Keeps now n c (raise database_error, w) = here
  after_publish-Keeps now n c (raise integrity_error, w) = here
  after_publish-Keeps now n c (raise storage_unavailable, w) = here
  after_publish-Keeps now n c (raise unexpected, w) = here

  pub submit_conversation-Keeps : (c : ConversationInput) → Keeps P (submit_conversation s c)
  unfolding submit_conversation
  submit_conversation-Keeps c w =
      let now = s.env.now w.transactions in
      let id = s.uuid4 w.transactions in
      Keeps-then P (flush s.env (created s now id c))
        (λ w'. after_publish s now id c (publish s.env id w'))
        (Keeps-flush P s.env (created s now id c) others)
        (λ w'.
          Reach-trans (Keeps-publish P s.env id w')
            (after_publish-Keeps now w.transactions c (publish s.env id w')))
        w
