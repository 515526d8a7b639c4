-- ===== src/Tests/Jobs.antt =====
-- Jobs through whole histories, and the retry policy.
use convoscore.Prelude.{ℕ, ◌<◌, true, none, some, [], ◌∷◌, ◌≡◌, ◌↔◌, refl, arith, option_map}
use convoscore.Table.{lookup, update_where}
use convoscore.Text.{text}
use convoscore.Models.{JobStatus, seconds, Conversation, timeout, empty_db}
use convoscore.Scoring.Provider.{transient_error}
use convoscore.Models.{api, rate_limited, completed}
use convoscore.Repository.Jobs.{
  get_job, create_job, insert_job, update_job, claim_job, claimed, complete_job,
  release_job_for_retry, mark_enqueued,
}
use convoscore.Pipeline.{create, enqueued, claim, complete, release, History, apply, run}
use convoscore.Pipeline.Invariant.{HistoryFits, JobsFit, run-JobsFit}
use convoscore.Pipeline.Machine.{phases, replay}
use convoscore.Pipeline.Refines.{run_refines}
use convoscore.Pipeline.Finished.{SameOutcome, run-finished}
use convoscore.Pipeline.Attempts.{claims}
use convoscore.Pipeline.Claims.{claim_exclusive, claim_job-release_job_for_retry}
use convoscore.Retry.{decide_retry}
use convoscore.Retry.Laws.{decide_retry_iff}
use convoscore.Tests.Data.{
  plain, complaint, db_of, new_row, claimed_job, finished_job, good_outcome, halves,
}

-- A job is created, claimed, given back, claimed again and scored.
abbrev pub two_attempts : History
two_attempts =
    (seconds 1, create plain 7 complaint api 3 none)
    ∷ (seconds 2, enqueued 7)
    ∷ (seconds 3, claim 7 60)
    ∷ (seconds 4, release 7 timeout (text "timed out"))
    ∷ (seconds 5, claim 7 60)
    ∷ (seconds 9, complete 7 good_outcome)
    ∷ []

run-two_attempts :
    option_map {B = JobStatus × ℕ}
      (λ (r : Conversation). (r.status, r.attempt_count))
      (get_job 7 (run two_attempts empty_db))
    ≡ some (completed, 2)
unfolding run apply create_job insert_job mark_enqueued claim_job release_job_for_retry complete_job
    update_job get_job lookup update_where
run-two_attempts = refl

pub two_attempts_fits : HistoryFits two_attempts
two_attempts_fits = (
  tt,
  (
    tt,
    (
      tt,
      (
        tt,
        (
          tt,
          (
            record {
              risk_fits = ground arith;
              some_rationale = ground arith;
              rationale_fits = ground arith;
            },
            tt,
          ),
        ),
      ),
    ),
  ),
)

run-JobsFit_example : JobsFit (run two_attempts empty_db)
run-JobsFit_example =
    run-JobsFit two_attempts empty_db two_attempts_fits (record { keyed = tt; rows = tt })

run_refines_example : phases (run two_attempts empty_db) ≡ replay two_attempts (phases empty_db)
run_refines_example =
    run_refines two_attempts empty_db two_attempts_fits (record { keyed = tt; rows = tt })

run-finished_example :
    (s : Conversation) × (get_job 7 (run two_attempts (db_of finished_job)) ≡ some s)
    × SameOutcome s finished_job
unfolding get_job lookup
run-finished_example =
    run-finished two_attempts 7 finished_job (db_of finished_job) refl refl
      (tt, (tt, (tt, (tt, (tt, (tt, tt))))))

-- Two more workers try while the first one holds the job, and it then stores its score.
abbrev rivals : History
rivals =
    (seconds 5, claim 7 60)
    ∷ (seconds 6, claim 7 60)
    ∷ (seconds 9, complete 7 good_outcome)
    ∷ (seconds 9, claim 7 60)
    ∷ []

claim_exclusive_example : claims 7 rivals (claim_job (seconds 5) 7 60 (db_of new_row)).1 ≡ 0
unfolding claim_job update_job lookup
claim_exclusive_example =
    claim_exclusive (seconds 5) 7 60 (db_of new_row) rivals (refl, tt) refl (ground arith)

claim_job-release_job_for_retry_example :
    (claim_job
      (seconds 7)
      7
      60
      (release_job_for_retry (seconds 6) 7 timeout (text "late") (db_of claimed_job)).1).0.0
    ≡ claimed
unfolding get_job lookup
claim_job-release_job_for_retry_example =
    claim_job-release_job_for_retry (seconds 6) (seconds 7) 7 60 timeout (text "late")
      (db_of claimed_job) claimed_job (refl, tt) refl refl

decide_retry_iff_example :
    ((decide_retry halves (transient_error (text "429") rate_limited) 2 3 2 30 1).retry ≡ true)
    ↔ (2 < 3)
decide_retry_iff_example =
    decide_retry_iff halves (transient_error (text "429") rate_limited) 2 3 2 30 1
