-- ===== src/Worker/Process.antt =====
-- Every way in which one message may end, over any behaviour of the other processes, of the
-- database, of SQS and of the provider.
use convoscore.Prelude.{ℕ, suc, none, some, ◌≡◌, refl, arith, inl, inr, Option-cases, sym, subst}
use convoscore.Text.{Text}
use convoscore.Models.{Uuid, Time, Db, Conversation}
use convoscore.Scoring.Provider.{Attempt, scored, llm_error, crashed}
use convoscore.Repository.Jobs.{
  get_job, claimed_row, ClaimOutcome, claimed, already_finished, held_by_another_worker, not_found,
  claim_job,
}
use convoscore.Repository.Effects.{
  IsKeyedDb, claim_job-Updates, claim_job-outcome, IsKeyedDb-claim_job,
}
use convoscore.Runtime.{World, Env, seen}
use convoscore.Queue.{QueueMessage, job_id}
use convoscore.Retry.{Floats}
use convoscore.Worker.{
  duplicate_skipped, unknown_job, Given, claim, read_job, score, settle, handle_failure, score_row,
  score_and_persist, dispatch, process_job, process,
}
use convoscore.Worker.Score.{
  HasJob, IsTerminal, ReportedBy, ends_by_delete, after_transaction, store_outcome-Reported,
  act_on-Reported,
}

-- What is relied on of the other processes: they keep the primary key, and delete no job.
pub record KeepsJobs (env : Env) : Type 0 where
  pub keeps_keys : (n : ℕ) (db : Db) → IsKeyedDb db → IsKeyedDb (env.interfere n db)
  pub keeps_jobs :
      (n : ℕ) (db : Db) (id : Uuid) (r : Conversation)
      → get_job id db ≡ some r
      → (s : Conversation) × (get_job id (env.interfere n db) ≡ some s)

module _ (fl : Floats) (g : Given fl) (others : KeepsJobs g.env) (id : Uuid) (receipt : Text)
    (w0 w : World) (same : w.sent ≡ w0.sent) (keyed : IsKeyedDb w.db) where
  abbrev before : Db
  before = seen g.env w

  abbrev keyed_before : IsKeyedDb before
  keyed_before = others.keeps_keys w.transactions w.db keyed

  settle-Reported :
      (attempt : ℕ) (a : Attempt) (r : Conversation)
      → get_job id w.db ≡ some r
      → ReportedBy id receipt w0 (settle fl g id receipt attempt a w)
  unfolding settle handle_failure
  settle-Reported attempt (scored o) r e =
      store_outcome-Reported fl g id receipt w0 w o same keyed_before
  settle-Reported attempt (llm_error error) r e =
      let (s, found) = others.keeps_jobs w.transactions w.db id r e in
      act_on-Reported fl g id receipt w0 w _ error s same found
  settle-Reported attempt crashed r e = inl same

module _ (fl : Floats) (g : Given fl) (others : KeepsJobs g.env) (id : Uuid) (receipt : Text)
    (w0 : World) where
  score_row-Reported :
      (w : World) (r : Conversation)
      → w.sent ≡ w0.sent
      → IsKeyedDb w.db
      → get_job id w.db ≡ some r
      → ReportedBy id receipt w0 (score_row fl g id receipt (some r) w)
  unfolding score_row score
  score_row-Reported w r same keyed e =
      settle-Reported fl g others id receipt w0 (record w { scored = suc w.scored }) same keyed
        r.attempt_count (g.answer w.scored r.conversation) r e

  score_and_persist-Reported :
      (w : World) (r : Conversation)
      → w.sent ≡ w0.sent
      → IsKeyedDb w.db
      → get_job id w.db ≡ some r
      → ReportedBy id receipt w0 (score_and_persist fl g id receipt w)
  unfolding score_and_persist read_job
  score_and_persist-Reported w r same keyed found =
      let db = seen g.env w in
      let (s, e) = others.keeps_jobs w.transactions w.db id r found in
      after_transaction g.env id receipt _ (score_row fl g id receipt) w0 w (get_job id db) db same
        refl
        (subst
          (λ o.
            ReportedBy id receipt w0 (
              score_row fl g id receipt o
                (record w { db = db; transactions = suc w.transactions })))
          (sym e)
          (score_row-Reported (record w { db = db; transactions = suc w.transactions }) s same
            (others.keeps_keys w.transactions w.db keyed) e))

  -- What the outcome of the claim says of the job.
  abbrev Claims : ClaimOutcome → Db → Type 0
  Claims not_found db = get_job id db ≡ none
  Claims already_finished db = HasJob id IsTerminal db
  Claims claimed db = (r : Conversation) × (get_job id db ≡ some r)
  Claims held_by_another_worker db = Unit

  claim_job-Claims :
      (now : Time) (timeout : ℕ) (db : Db) (o : ClaimOutcome)
      → IsKeyedDb db
      → (claim_job now id timeout db).0.0 ≡ o
      → Claims o (claim_job now id timeout db).1
  claim_job-Claims now timeout db not_found keyed e =
      ground
        (arith, claim_job-outcome now id db timeout keyed, claim_job-Updates now id db timeout id)
  claim_job-Claims now timeout db already_finished keyed e = elim (Option-cases (get_job id db)) [
    | inl absent ↦ absurd (ground (arith, claim_job-outcome now id db timeout keyed))
    | inr (r, found) ↦ (
      r,
      ground (
        arith,
        claim_job-outcome now id db timeout keyed,
        claim_job-Updates now id db timeout id,
      ),
      ground (arith, claim_job-outcome now id db timeout keyed),
    )
  ]
  claim_job-Claims now timeout db held_by_another_worker keyed e = tt
  claim_job-Claims now timeout db claimed keyed e = elim (Option-cases (get_job id db)) [
    | inl absent ↦ absurd (ground (arith, claim_job-outcome now id db timeout keyed))
    | inr (r, found) ↦ (
      claimed_row now timeout r,
      ground (
        arith,
        claim_job-outcome now id db timeout keyed,
        claim_job-Updates now id db timeout id,
      ),
    )
  ]

  dispatch-Reported :
      (w : World) (o : ClaimOutcome)
      → w.sent ≡ w0.sent
      → IsKeyedDb w.db
      → Claims o w.db
      → ReportedBy id receipt w0 (dispatch fl g id receipt o w)
  unfolding dispatch
  dispatch-Reported w not_found same keyed c =
      ends_by_delete g.env id receipt unknown_job w0 w same
        (λ w' d s. (s, subst (λ db. get_job id db ≡ none) (sym d) c))
  dispatch-Reported w already_finished same keyed c =
      ends_by_delete g.env id receipt duplicate_skipped w0 w same
        (λ w' d s. (s, subst (HasJob id IsTerminal) (sym d) c))
  dispatch-Reported w held_by_another_worker same keyed c = same
  dispatch-Reported w claimed same keyed (r, found) =
      score_and_persist-Reported w r same keyed found

  process_job-Reported :
      IsKeyedDb w0.db → ReportedBy id receipt w0 (process_job fl g receipt (some id) w0)
  unfolding process_job claim
  process_job-Reported keyed =
      let db = seen g.env w0 in
      let now = g.env.now w0.transactions in
      let timeout = g.settings.visibility_timeout_seconds in
      let key = others.keeps_keys w0.transactions w0.db keyed in
      let p = claim_job now id timeout db in
      after_transaction g.env id receipt _ (dispatch fl g id receipt) w0 w0 p.0.0 p.1 refl refl (
        dispatch-Reported (record w0 { db = p.1; transactions = suc w0.transactions }) p.0.0 refl
          (IsKeyedDb-claim_job now id db key timeout)
          (claim_job-Claims now timeout db p.0.0 key refl))

-- A message is deleted only when its job is finished or gone, or when the job is no longer being
-- processed at the moment its score was to be stored. A job that is completed, failed or found
-- finished is so in the database before the message is deleted; one that is to be retried is no
-- longer in processing, and its message stays. When an exception ends the work, the message was left,
-- or SQS carried out its deletion and the response was lost, and then too the job is finished, gone or
-- no longer being processed.
-- The message has a job id, the keys are unique, and the other processes keep the primary key and
-- delete no job.
pub process-Reported :
    (fl : Floats) (g : Given fl) (m : QueueMessage) (id : Uuid) (w : World)
    → KeepsJobs g.env
    → IsKeyedDb w.db
    → job_id g.parser m ≡ some id
    → ReportedBy id m.receipt_handle w (process fl g m w)
unfolding process
process-Reported fl g m id w others keyed e =
    subst (λ o. ReportedBy id m.receipt_handle w (process_job fl g m.receipt_handle o w)) (sym e)
      (process_job-Reported fl g others id m.receipt_handle w keyed)
