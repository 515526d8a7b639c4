-- ===== src/Pipeline.antt =====
-- The database under every process at once. Each transaction of the API, the ingestor and the
-- workers is one operation with the time at which the database runs it, and a history is the list
-- of the operations in the order of their commits: any interleaving of any number of processes.
pub mod Invariant
pub mod Finished
pub mod Claims
pub mod Attempts
pub mod Machine
pub mod Refines
use convoscore.Prelude.{ℕ, Option, List, [], ◌∷◌, get_or_else}
use convoscore.Text.{Text}
use convoscore.Models.{Uuid, Time, JobSource, ErrorType, Db}
use convoscore.Schemas.{Digest, ConversationInput}
use convoscore.Scoring.Provider.{ScoringOutcome}
use convoscore.Repository.Jobs.{
  create_job, mark_enqueued, mark_enqueue_failed, claim_job, complete_job, release_job_for_retry,
  fail_job,
}

pub data Op : Type 0 where
  create : Digest → Uuid → ConversationInput → JobSource → ℕ → Option Text → Op
  enqueued : Uuid → Op
  enqueue_failure : Uuid → Text → Op
  claim : Uuid → ℕ → Op
  complete : Uuid → ScoringOutcome → Op
  release : Uuid → ErrorType → Text → Op
  fail : Uuid → ErrorType → Text → Op

-- A transaction that raises is rolled back.
unfoldable pub apply : Time → Op → Db → Db
apply now (create digest id c source n ref) db =
    get_or_else (create_job digest now id c source n ref db) db
apply now (enqueued id) db = mark_enqueued now id db
apply now (enqueue_failure id error) db = mark_enqueue_failed now id error db
apply now (claim id timeout) db = (claim_job now id timeout db).1
apply now (complete id o) db = (complete_job now id o db).1
apply now (release id kind error) db = (release_job_for_retry now id kind error db).1
apply now (fail id kind error) db = (fail_job now id kind error db).1

abbrev pub History : Type 0
History = List (Time × Op)

unfoldable pub run : History → Db → Db
run [] db = db
run ((now, op) ∷ rest) db = run rest (apply now op db)

-- The job that an operation acts on.
abbrev pub job_of : Op → Uuid
job_of (create _ id _ _ _ _) = id
job_of (enqueued id) = id
job_of (enqueue_failure id _) = id
job_of (claim id _) = id
job_of (complete id _) = id
job_of (release id _ _) = id
job_of (fail id _ _) = id
