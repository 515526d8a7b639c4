-- ===== src/System/Workers.antt =====
-- A worker does nothing to the jobs but claims, completions, releases and failures, whatever messages it
-- gets and whatever fails.
use convoscore.Prelude.{
  ℕ, suc, Option, none, some, List, [], ◌∷◌, if◌then◌else◌, ◌≡◌, refl, Bool-cases, inl, inr, arith,
  sym, ap, ◌∙◌,
}
use convoscore.Text.{Text}
use convoscore.Json.{Json}
use convoscore.Models.{Uuid, Time, Db, Conversation, ErrorType}
use convoscore.Scoring.Provider.{
  LlmError, message, ScoringOutcome, Attempt, scored, llm_error, crashed,
}
use convoscore.Repository.Jobs.{
  ClaimOutcome, claimed, already_finished, held_by_another_worker, not_found,
}
use convoscore.Runtime.{
  World, Result, ok, raise, queue_unavailable, publish_error, database_error, integrity_error,
  storage_unavailable, unexpected, M, ◌>>◌, pure, transaction,
}
use convoscore.Pipeline.{Op, claim, complete, release, fail, apply}
use convoscore.Queue.{
  QueueMessage, RawMessage, job_id, delete, change_visibility, receive, queue_url,
}
use convoscore.Retry.{Floats, RetryDecision}
use convoscore.Worker
use convoscore.Worker.{
  ProcessOutcome, retry_scheduled, unknown_job, duplicate_skipped, held, malformed_message, idle,
  lost_claim, Given, read_job, score, persist, act_on, handle_failure, decision, store_outcome,
  settle, score_row, score_and_persist, dispatch, process_job, process, process_first, run_once,
  recover, run_forever,
}
use convoscore.System.{elsewhere, Reach, here, next, Reach-trans, Others}
use convoscore.System.Actions.{
  Keeps, Reach-same, Keeps-same, Keeps-then, Keeps-pure, Keeps-bind, Keeps-transaction, Keeps-one,
  Keeps-delete, Keeps-change_visibility,
}

-- The operations of a worker, whose scores are its provider's.
pub record WorkerOps {ℓ} (P : Op → Type ℓ) (fl : Floats) (g : Given fl) : Type ℓ where
  pub claims : (id : Uuid) (timeout : ℕ) → P (claim id timeout)
  pub completes :
      (id : Uuid) (n : ℕ) (j : Json) (o : ScoringOutcome)
      → g.answer n j ≡ scored o
      → P (complete id o)
  pub releases : (id : Uuid) (kind : ErrorType) (error : Text) → P (release id kind error)
  pub fails : (id : Uuid) (kind : ErrorType) (error : Text) → P (fail id kind error)

module _ {ℓ} (P : Op → Type ℓ) (fl : Floats) (g : Given fl) (others : Others P g.env)
    (ops : WorkerOps P fl g) where
  claim-Keeps : (id : Uuid) → Keeps P (Worker.claim fl g id)
  unfolding Worker.claim apply
  claim-Keeps id =
      Keeps-one P g.env others _ (claim id g.settings.visibility_timeout_seconds) (ops.claims id _)
        (λ now db. refl)

  persist-Keeps : (id : Uuid) (o : ScoringOutcome) → P (complete id o) → Keeps P (persist fl g id o)
  unfolding persist apply
  persist-Keeps id o p = Keeps-one P g.env others _ (complete id o) p (λ now db. refl)

  release-Keeps :
      (id : Uuid) (kind : ErrorType) (error : Text) → Keeps P (Worker.release fl g id kind error)
  unfolding Worker.release apply
  release-Keeps id kind error =
      Keeps-one P g.env others _ (release id kind error) (ops.releases id kind error)
        (λ now db. refl)

  fail-Keeps :
      (id : Uuid) (kind : ErrorType) (error : Text) → Keeps P (Worker.fail fl g id kind error)
  unfolding Worker.fail apply
  fail-Keeps id kind error =
      Keeps-one P g.env others _ (fail id kind error) (ops.fails id kind error) (λ now db. refl)

  -- A transaction that only reads.
  reads :
      {A : Type 0} (body : Time → Db → Result A × Db)
      → ((now : Time) (db : Db) → (body now db).1 ≡ db)
      → Keeps P (transaction g.env body)
  reads {A} body same = Keeps-transaction P g.env body others (λ now db a db' e.
      let state : db' ≡ db = sym (ap (λ (q : Result A × Db). q.1) e) ∙ same now db in
      next here (elsewhere (ap (λ (d : Db). d.conversations) state)))

  ends_deleted : (receipt : Text) (o : ProcessOutcome) → Keeps P (delete g.env receipt >> pure o)
  ends_deleted receipt o =
      Keeps-then P (delete g.env receipt) (pure o) (Keeps-delete P g.env receipt) (Keeps-pure P o)

  act_on-Keeps :
      (d : RetryDecision) (id : Uuid) (receipt : Text) (error : LlmError)
      → Keeps P (act_on fl g d id receipt error)
  unfolding act_on
  act_on-Keeps d id receipt error =
      let delay = change_visibility g.env receipt d.backoff >> pure retry_scheduled in
      let delayed : Keeps P delay =
        Keeps-then P (change_visibility g.env receipt d.backoff) (pure retry_scheduled)
          (Keeps-change_visibility P g.env receipt d.backoff) (Keeps-pure P retry_scheduled) in
      elim (Bool-cases d.retry) [
        | inl again ↦ rw again (
            Keeps-then P (Worker.release fl g id d.decided (message error)) delay
              (release-Keeps id d.decided (message error)) delayed)
        | inr over ↦ rw over (
            Keeps-then P (Worker.fail fl g id d.decided (message error))
              (delete g.env receipt >> pure ProcessOutcome.failed)
              (fail-Keeps id d.decided (message error))
              (ends_deleted receipt ProcessOutcome.failed))
      ]

  settle-Keeps :
      (id : Uuid) (receipt : Text) (attempt : ℕ) (a : Attempt)
      → ((o : ScoringOutcome) → a ≡ scored o → P (complete id o))
      → Keeps P (settle fl g id receipt attempt a)
  unfolding settle store_outcome handle_failure
  settle-Keeps id receipt attempt (scored o) h =
      Keeps-bind P (persist fl g id o)
        (λ b. delete g.env receipt >> pure (if b then ProcessOutcome.completed else lost_claim))
        (persist-Keeps id o (h o refl))
        (λ b. ends_deleted receipt (if b then ProcessOutcome.completed else lost_claim))
  settle-Keeps id receipt attempt (llm_error error) h =
      λ w. act_on-Keeps (decision fl g error attempt w.scored) id receipt error w
  settle-Keeps id receipt attempt crashed h = λ w. here

  score_row-Keeps :
      (id : Uuid) (receipt : Text) (row : Option Conversation)
      → Keeps P (score_row fl g id receipt row)
  unfolding score_row score
  score_row-Keeps id receipt none =
      let read : M (Unit {0}) = transaction g.env (λ now db. (ok tt, db)) in
      Keeps-then P (delete g.env receipt) (read >> pure unknown_job) (Keeps-delete P g.env receipt)
        (Keeps-then P read (pure unknown_job) (reads (λ now db. (ok tt, db)) (λ now db. refl))
          (Keeps-pure P unknown_job))
  score_row-Keeps id receipt (some r) = λ w.
      settle-Keeps id receipt r.attempt_count (g.answer w.scored r.conversation)
        (λ o e. ops.completes id w.scored r.conversation o e) (record w { scored = suc w.scored })

  dispatch-Keeps :
      (id : Uuid) (receipt : Text) (o : ClaimOutcome) → Keeps P (dispatch fl g id receipt o)
  unfolding dispatch score_and_persist read_job
  dispatch-Keeps id receipt not_found = ends_deleted receipt unknown_job
  dispatch-Keeps id receipt already_finished = ends_deleted receipt duplicate_skipped
  dispatch-Keeps id receipt held_by_another_worker = Keeps-pure P held
  dispatch-Keeps id receipt claimed =
      Keeps-bind P (read_job fl g id) (score_row fl g id receipt) (reads _ (λ now db. refl))
        (score_row-Keeps id receipt)

  process_job-Keeps : (receipt : Text) (id : Option Uuid) → Keeps P (process_job fl g receipt id)
  unfolding process_job
  process_job-Keeps receipt none = ends_deleted receipt malformed_message
  process_job-Keeps receipt (some id) =
      Keeps-bind P (Worker.claim fl g id) (dispatch fl g id receipt) (claim-Keeps id)
        (dispatch-Keeps id receipt)

  pub process-Keeps : (m : QueueMessage) → Keeps P (process fl g m)
  unfolding process
  process-Keeps m = process_job-Keeps m.receipt_handle (job_id g.parser m)

  process_first-Keeps : (ms : List QueueMessage) → Keeps P (process_first fl g ms)
  unfolding process_first
  process_first-Keeps [] = Keeps-pure P idle
  process_first-Keeps (m ∷ ms) = process-Keeps m

  receive-Keeps : (inbox : List RawMessage) → Keeps P (receive g.env g.parser inbox)
  unfolding receive queue_url
  receive-Keeps inbox = Keeps-same P (receive g.env g.parser inbox) (λ w. ground arith)

  run_once-Keeps : (inbox : List RawMessage) → Keeps P (run_once fl g inbox)
  unfolding run_once
  run_once-Keeps inbox =
      Keeps-bind P (receive g.env g.parser inbox) (process_first fl g) (receive-Keeps inbox)
        process_first-Keeps

  recover_db :
      (errors : ℕ) (p : Result ProcessOutcome × World) → (recover fl g errors p).2.db ≡ p.1.db
  unfolding recover
  recover_db errors (ok o, w) = refl
  recover_db errors (raise queue_unavailable, w) = refl
  recover_db errors (raise publish_error, w) = refl
  recover_db errors (raise database_error, w) = refl
  recover_db errors (raise integrity_error, w) = refl
  recover_db errors (raise storage_unavailable, w) = refl
  recover_db errors (raise unexpected, w) = refl

  -- Whatever SQS delivers until the stop request, the jobs change only by the worker's operations and by
  -- what the others do.
  pub run_forever-Keeps :
      (inboxes : List (List RawMessage)) (errors : ℕ) (w : World)
      → Reach P w.db (run_forever fl g inboxes errors w).db
  unfolding run_forever
  run_forever-Keeps [] errors w = here
  run_forever-Keeps (inbox ∷ rest) errors w =
      let p = run_once fl g inbox w in
      let (sleep, errors', w') = recover fl g errors p in
      Reach-trans (Reach-same P (run_once-Keeps inbox w) (recover_db errors p))
        (run_forever-Keeps rest errors' w')
