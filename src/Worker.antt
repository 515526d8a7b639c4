-- ===== src/Worker.antt =====
-- app/worker.py: one message, from claim to acknowledgement. Metrics and logs are left out.
pub mod Claim
pub mod Score
pub mod Process
pub mod Deliver
use convoscore.Prelude.{
  ℕ, suc, ◌*◌, ◌^◌, min, ◌+◌, Bool, true, false, Option, none, some, List, [], ◌∷◌, if◌then◌else◌,
}
use convoscore.Text.{Text}
use convoscore.Json.{Json}
use convoscore.Models.{Uuid, Time, Db, Conversation, ErrorType}
use convoscore.Scoring.Provider.{
  LlmError, message, ScoringOutcome, Attempt, scored, llm_error, crashed,
}
use convoscore.Repository.Jobs.{
  get_job, ClaimOutcome, claimed, already_finished, held_by_another_worker, not_found, claim_job,
  complete_job, release_job_for_retry, fail_job,
}
use convoscore.Runtime.{
  World, Env, Result, ok, raise, Raised, queue_unavailable, database_error, unexpected, M, ◌>>=◌,
  ◌>>◌, pure, raising, transaction,
}
use convoscore.Queue.{
  QueueMessage, Parser, RawMessage, job_id, delete, change_visibility, receive, forget_url,
}
use convoscore.Retry.{Floats, RetryDecision, decide_retry}

pub data ProcessOutcome : Type 0 where
  idle completed retry_scheduled failed duplicate_skipped held unknown_job malformed_message
        lost_claim :
      ProcessOutcome

-- The fields of `Settings` that the worker reads.
pub record WorkerSettings : Type 0 where
  pub max_attempts : ℕ
  pub visibility_timeout_seconds : ℕ
  pub retry_base_backoff_seconds : ℕ
  pub retry_max_backoff_seconds : ℕ

-- What a worker is given: the answers of its provider, by the number of the call, and of
-- `random.random`.
pub record Given (fl : Floats) : Type 0 where
  pub env : Env
  pub settings : WorkerSettings
  pub parser : Parser
  pub answer : ℕ → Json → Attempt
  pub jitter : ℕ → fl.Float

module _ (fl : Floats) (g : Given fl) where
  open g use {env, settings, parser, answer, jitter}

  -- `_claim`.
  unfoldable pub claim : Uuid → M ClaimOutcome
  claim id = transaction env (λ now db.
      let (r, db') = claim_job now id settings.visibility_timeout_seconds db in (ok r.0, db'))

  -- The read at the head of `_score_and_persist`.
  unfoldable pub read_job : Uuid → M (Option Conversation)
  read_job id = transaction env (λ now db. (ok (get_job id db), db))

  -- `self.provider.score(conversation)`.
  unfoldable pub score : Json → M Attempt
  score conversation w = (ok (answer w.scored conversation), record w { scored = suc w.scored })

  unfoldable pub persist : Uuid → ScoringOutcome → M Bool
  persist id o = transaction env (λ now db. let (b, db') = complete_job now id o db in (ok b, db'))

  unfoldable pub release : Uuid → ErrorType → Text → M (Unit {0})
  release id kind error =
      transaction env (λ now db. (ok tt, (release_job_for_retry now id kind error db).1))

  unfoldable pub fail : Uuid → ErrorType → Text → M (Unit {0})
  fail id kind error = transaction env (λ now db. (ok tt, (fail_job now id kind error db).1))

  unfoldable pub decision : LlmError → ℕ → ℕ → RetryDecision
  decision error attempt n =
      decide_retry fl error attempt settings.max_attempts settings.retry_base_backoff_seconds
        settings.retry_max_backoff_seconds (jitter n)

  unfoldable pub act_on : RetryDecision → Uuid → Text → LlmError → M ProcessOutcome
  act_on d id receipt error =
      if d.retry
      then (do
        release id d.decided (message error)
        change_visibility env receipt d.backoff
        pure retry_scheduled)
      else (do fail id d.decided (message error); delete env receipt; pure failed)

  -- `_handle_failure`.
  unfoldable pub handle_failure : Uuid → Text → LlmError → ℕ → M ProcessOutcome
  handle_failure id receipt error attempt w =
      act_on (decision error attempt w.scored) id receipt error w

  unfoldable pub store_outcome : Uuid → Text → ScoringOutcome → M ProcessOutcome
  store_outcome id receipt o = do
    persisted ← persist id o
    delete env receipt
    pure (if persisted then completed else lost_claim)

  -- What follows the provider's answer.
  unfoldable pub settle : Uuid → Text → ℕ → Attempt → M ProcessOutcome
  settle id receipt attempt (scored o) = store_outcome id receipt o
  settle id receipt attempt (llm_error error) = handle_failure id receipt error attempt
  settle id receipt attempt crashed = raising unexpected

  -- Without a job the message is deleted inside the block of the read, whose end then commits.
  unfoldable pub score_row : Uuid → Text → Option Conversation → M ProcessOutcome
  score_row id receipt none = do
    delete env receipt
    transaction env (λ now db. (ok tt, db))
    pure unknown_job
  score_row id receipt (some job) = do
    attempt ← score job.conversation
    settle id receipt job.attempt_count attempt

  -- `_score_and_persist`.
  unfoldable pub score_and_persist : Uuid → Text → M ProcessOutcome
  score_and_persist id receipt = do job ← read_job id; score_row id receipt job

  unfoldable pub dispatch : Uuid → Text → ClaimOutcome → M ProcessOutcome
  dispatch id receipt not_found = do delete env receipt; pure unknown_job
  dispatch id receipt already_finished = do delete env receipt; pure duplicate_skipped
  dispatch id receipt held_by_another_worker = pure held
  dispatch id receipt claimed = score_and_persist id receipt

  unfoldable pub process_job : Text → Option Uuid → M ProcessOutcome
  process_job receipt none = do delete env receipt; pure malformed_message
  process_job receipt (some id) = do outcome ← claim id; dispatch id receipt outcome

  unfoldable pub process : QueueMessage → M ProcessOutcome
  process m = process_job m.receipt_handle (job_id parser m)

  unfoldable pub process_first : List QueueMessage → M ProcessOutcome
  process_first [] = pure idle
  process_first (m ∷ _) = process m

  unfoldable pub run_once : List RawMessage → M ProcessOutcome
  run_once inbox = do messages ← receive env parser inbox; process_first messages

  -- How `run_forever` answers the end of one iteration: how long it sleeps and how many queue
  -- errors in a row it has then seen. No exception ends the loop.
  unfoldable pub recover : ℕ → Result ProcessOutcome × World → ℕ × ℕ × World
  recover errors (ok _, w) = (0, 0, w)
  recover errors (raise queue_unavailable, w) =
      (min 30 (2 ^ (errors + 1)), errors + 1, forget_url w)
  recover errors (raise _, w) = (5, errors, w)

  -- `run_forever` over what SQS delivers in each iteration until the stop request.
  unfoldable pub run_forever : List (List RawMessage) → ℕ → World → World
  run_forever [] errors w = w
  run_forever (inbox ∷ rest) errors w =
      let (sleep, errors', w') = recover errors (run_once inbox w) in run_forever rest errors' w'
