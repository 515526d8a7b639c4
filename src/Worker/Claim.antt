-- ===== src/Worker/Claim.antt =====
-- When the model is called, and what duplicates and live claims do.
pub mod Outcomes
use convoscore.Prelude.{
  ℕ, suc, Bool, true, false, Option, none, some, if◌then◌else◌, ◌≡◌, refl, arith, ◌⊎◌, inl, inr, ap,
  ◌∙◌, sym, subst,
}
use convoscore.Text.{Text}
use convoscore.Models.{Uuid, Conversation, is_terminal}
use convoscore.Scoring.Provider.{
  Attempt, scored, llm_error, crashed, LlmError, ScoringOutcome, message,
}
use convoscore.Repository.Jobs.{
  get_job, ClaimOutcome, claimed, already_finished, held_by_another_worker, not_found, claim_job,
  is_claimable,
}
use convoscore.Repository.Effects.{IsKeyedDb, claim_job-Updates, claim_job-outcome}
use convoscore.Runtime.{
  M, World, Env, Result, ok, raise, queue_unavailable, ◌>>◌, pure, seen, bind_ok, bind_raise,
  transaction, transaction_ind, world_of_pure, transaction_ok,
}
use convoscore.Queue.{QueueMessage, job_id, delete, change_visibility}
use convoscore.Queue.Laws.{delete-SameState, change_visibility-SameState, delete-Sends}
use convoscore.Retry.{Floats, RetryDecision}
use convoscore.Worker.{
  ProcessOutcome, duplicate_skipped, held, retry_scheduled, unknown_job, lost_claim, Given, claim,
  read_job, score, settle, persist, release, fail, handle_failure, score_row, score_and_persist,
  dispatch, process_job, process, store_outcome, act_on,
}

module _ (fl : Floats) (g : Given fl) (id : Uuid) (receipt : Text) where
  abbrev Scored : ℕ → Result ProcessOutcome × World → Type 0
  Scored n p = p.1.scored ≡ n

  delete-Scored :
      (o : ProcessOutcome) (w : World) → Scored w.scored ((delete g.env receipt >> pure o) w)
  delete-Scored o w =
      rw (world_of_pure (delete g.env receipt) o w) (delete-SameState g.env w receipt).same_scored

  delay-Scored :
      (n : ℕ) (o : ProcessOutcome) (w : World)
      → Scored w.scored ((change_visibility g.env receipt n >> pure o) w)
  delay-Scored n o w =
      rw (world_of_pure (change_visibility g.env receipt n) o w)
        (change_visibility-SameState g.env w receipt n).same_scored

  store_outcome-Scored :
      (o : ScoringOutcome) (w : World) → Scored w.scored (store_outcome fl g id receipt o w)
  unfolding store_outcome persist
  store_outcome-Scored o w =
      transaction_ind (Scored w.scored) g.env _
        (λ b. delete g.env receipt >> pure (if b then ProcessOutcome.completed else lost_claim)) w _
        _ refl refl (delete-Scored _ _)

  act_on-Scored :
      (d : RetryDecision) (error : LlmError) (w : World)
      → Scored w.scored (act_on fl g d id receipt error w)
  unfolding act_on release fail
  act_on-Scored d error w = go d.retry
    where
      go :
          (b : Bool)
          → Scored w.scored (
              (if b
                  then (release fl g id d.decided (message error)
                      >> (change_visibility g.env receipt d.backoff >> pure retry_scheduled))
                  else (fail fl g id d.decided (message error)
                      >> (delete g.env receipt >> pure ProcessOutcome.failed)))
                w)
      go true =
          transaction_ind (Scored w.scored) g.env _
            (λ _. change_visibility g.env receipt d.backoff >> pure retry_scheduled) w tt _ refl
            refl (delay-Scored _ _ _)
      go false =
          transaction_ind (Scored w.scored) g.env _
            (λ _. delete g.env receipt >> pure ProcessOutcome.failed) w tt _ refl refl
            (delete-Scored _ _)

  settle-Scored :
      (attempt : ℕ) (a : Attempt) (w : World) → Scored w.scored (settle fl g id receipt attempt a w)
  unfolding settle handle_failure
  settle-Scored attempt (scored o) w = store_outcome-Scored o w
  settle-Scored attempt (llm_error error) w = act_on-Scored _ error w
  settle-Scored attempt crashed w = refl

  -- The model was called at most once.
  abbrev AtMostOnce : ℕ → Result ProcessOutcome × World → Type 0
  AtMostOnce n p = Scored n p ⊎ Scored (suc n) p

  delete_commit-Scored :
      (w : World)
      → Scored w.scored (
          (delete g.env receipt >> (transaction g.env (λ now db. (ok tt, db)) >> pure unknown_job))
            w)
  delete_commit-Scored w =
      let w' = (delete g.env receipt w).1 in
      let same = (delete-SameState g.env w receipt).same_scored in
      let rest : M ProcessOutcome = transaction g.env (λ now db. (ok tt, db)) >> pure unknown_job in
      elim (delete-Sends g.env w receipt) [
        | inl (e, _) ↦
            subst (Scored w.scored)
              (sym (bind_ok (delete g.env receipt) (λ _. rest) w (ap (λ r. (r, w')) e)))
              (transaction_ind (Scored w.scored) g.env _ (λ _. pure unknown_job) w' tt _ refl same
                same)
        | inr (e, _) ↦
            subst (Scored w.scored)
              (sym (bind_raise (delete g.env receipt) (λ _. rest) w (ap (λ r. (r, w')) e))) same
      ]

  score_row-AtMostOnce :
      (o : Option Conversation) (w : World) → AtMostOnce w.scored (score_row fl g id receipt o w)
  unfolding score_row score
  score_row-AtMostOnce none w = inl (delete_commit-Scored w)
  score_row-AtMostOnce (some r) w = inr (
      settle-Scored r.attempt_count (g.answer w.scored r.conversation)
        (record w { scored = suc w.scored }))

  score_and_persist-AtMostOnce :
      (w : World) → AtMostOnce w.scored (score_and_persist fl g id receipt w)
  unfolding score_and_persist read_job
  score_and_persist-AtMostOnce w =
      transaction_ind (AtMostOnce w.scored) g.env _ (score_row fl g id receipt) w _ _ refl
        (inl refl) (score_row-AtMostOnce _ _)

  -- Not called at all, or called once after a claim that succeeded.
  abbrev pub ScoredAfter : ClaimOutcome → ℕ → Result ProcessOutcome × World → Type 0
  ScoredAfter o n p = Scored n p ⊎ ((o ≡ claimed) × Scored (suc n) p)

  dispatch-ScoredAfter :
      (o : ClaimOutcome) (w : World) → ScoredAfter o w.scored (dispatch fl g id receipt o w)
  unfolding dispatch
  dispatch-ScoredAfter not_found w = inl (delete-Scored unknown_job w)
  dispatch-ScoredAfter already_finished w = inl (delete-Scored duplicate_skipped w)
  dispatch-ScoredAfter held_by_another_worker w = inl refl
  dispatch-ScoredAfter claimed w = elim (score_and_persist-AtMostOnce w) [
    | inl never ↦ inl never
    | inr once ↦ inr (refl, once)
  ]

abbrev pub claim_of : (fl : Floats) (g : Given fl) → Uuid → World → ClaimOutcome
claim_of fl g id w =
    (claim_job (g.env.now w.transactions) id g.settings.visibility_timeout_seconds
      (seen g.env w)).0.0

process-ScoredAfter :
    (fl : Floats) (g : Given fl) (m : QueueMessage) (id : Uuid) (w : World)
    → job_id g.parser m ≡ some id
    → ScoredAfter fl g id m.receipt_handle (claim_of fl g id w) w.scored (process fl g m w)
unfolding process process_job claim
process-ScoredAfter fl g m id w e =
    subst
      (λ o.
        ScoredAfter fl g id m.receipt_handle (claim_of fl g id w) w.scored
          (process_job fl g m.receipt_handle o w))
      (sym e)
      (transaction_ind (ScoredAfter fl g id m.receipt_handle (claim_of fl g id w) w.scored) g.env _
        (dispatch fl g id m.receipt_handle) w _ _ refl (inl refl)
        (dispatch-ScoredAfter fl g id m.receipt_handle _ _))

-- For one message the model is called at most once, and only if this worker's claim of the job
-- succeeded; that holds whatever fails and whatever the other processes do.
-- The message has a job id.
pub process-scores_once :
    (fl : Floats) (g : Given fl) (m : QueueMessage) (id : Uuid) (w : World)
    → job_id g.parser m ≡ some id
    → ((process fl g m w).1.scored ≡ w.scored)
      ⊎ ((claim_of fl g id w ≡ claimed) × ((process fl g m w).1.scored ≡ suc w.scored))
process-scores_once fl g m id w e = process-ScoredAfter fl g m id w e

-- The block of a message whose claim has the outcome `o`.
pub process-dispatch :
    (fl : Floats) (g : Given fl) (m : QueueMessage) (id : Uuid) (w : World)
    → job_id g.parser m ≡ some id
    → g.env.db_fails w.transactions ≡ false
    → let p =
        claim_job
          (g.env.now w.transactions)
          id
          g.settings.visibility_timeout_seconds
          (seen g.env w) in
      process fl g m w
      ≡ dispatch fl g id m.receipt_handle p.0.0
          (record w { db = p.1; transactions = suc w.transactions })
unfolding process process_job claim
process-dispatch fl g m id w e works =
    ap (λ o. process_job fl g m.receipt_handle o w) e
    ∙ bind_ok (claim fl g id) (dispatch fl g id m.receipt_handle) w
        (transaction_ok g.env _ w _ _ works refl)
