-- ===== src/Pipeline/Attempts.antt =====
-- The attempt counter counts exactly the claims that succeeded.
use convoscore.Prelude.{
  ℕ, ◌+◌, Bool, true, false, some, [], ◌∷◌, ◌≡◌, refl, arith, if◌then◌else◌, ◌==◌, ◌&&◌,
}
use convoscore.Prelude.Maybe.{get_or_else_ind}
use convoscore.Table.{touch}
use convoscore.Models.{Uuid, Time, Conversation, Db, is_processing, is_open}
use convoscore.Repository.Jobs.{
  get_job, create_job, insert_job, new_job, claim_job, ClaimOutcome, claimed, claimed_row,
  completed_row, released_row, failed_row, enqueued_row, enqueue_failed_row, is_claimable,
}
use convoscore.Repository.Effects.{
  IsKeyedDb, claim_job-Updates, claim_job-outcome, complete_job-Updates, release_job-Updates,
  fail_job-Updates, mark_enqueued-Updates, mark_enqueue_failed-Updates,
}
use convoscore.Pipeline.{
  Op, create, enqueued, enqueue_failure, claim, complete, release, fail, apply, History, run,
}
use convoscore.Pipeline.Invariant.{apply-IsKeyedDb}
use convoscore.Pipeline.Finished.{kept_by_insert}

abbrev is_claimed : ClaimOutcome → Bool
is_claimed claimed = true
is_claimed _ = false

-- 1 if the operation is a claim of the job that succeeds on this database.
unfoldable pub claim_count : Uuid → Time → Op → Db → ℕ
claim_count id now (claim j timeout) db =
    if (id == j) && is_claimed (claim_job now j timeout db).0.0 then 1 else 0
claim_count id now _ db = 0

unfoldable pub claims : Uuid → History → Db → ℕ
claims id [] db = 0
claims id ((now, op) ∷ rest) db = claim_count id now op db + claims id rest (apply now op db)

abbrev pub HasAttempts : Uuid → ℕ → Db → Type 0
HasAttempts id n db = (s : Conversation) × (get_job id db ≡ some s) × (s.attempt_count ≡ n)

apply-HasAttempts :
    (now : Time) (op : Op) (id : Uuid) (n : ℕ) (db : Db)
    → IsKeyedDb db
    → HasAttempts id n db
    → HasAttempts id (n + claim_count id now op db) (apply now op db)
unfolding apply create_job claim_count
apply-HasAttempts now (create digest j c source m ref) id n db k (s, e, a) =
    let job = new_job digest now j c source m ref in
    get_or_else_ind (HasAttempts id (n + 0)) (insert_job job db) db
      (λ d made. (s, kept_by_insert job db id s d e made, omega arith)) (s, e, omega arith)
apply-HasAttempts now (enqueued j) id n db k (s, e, a) = (
  if id == j then enqueued_row now s else s,
  ground (arith, mark_enqueued-Updates now j db id),
  ground arith,
)
apply-HasAttempts now (enqueue_failure j error) id n db k (s, e, a) = (
  if id == j then enqueue_failed_row now error s else s,
  ground (arith, mark_enqueue_failed-Updates now j db error id),
  ground arith,
)
apply-HasAttempts now (claim j timeout) id n db k (s, e, a) = (
  if id == j then touch (is_claimable now) (claimed_row now timeout) s else s,
  ground (arith, claim_job-Updates now j db timeout id),
  ground (arith, claim_job-outcome now j db timeout k),
)
apply-HasAttempts now (complete j o) id n db k (s, e, a) = (
  if id == j then touch (λ r. is_processing r.status) (completed_row now o) s else s,
  ground (arith, complete_job-Updates now j db o id),
  ground arith,
)
apply-HasAttempts now (release j kind error) id n db k (s, e, a) = (
  if id == j then touch (λ r. is_processing r.status) (released_row now kind error) s else s,
  ground (arith, release_job-Updates now j db kind error id),
  ground arith,
)
apply-HasAttempts now (fail j kind error) id n db k (s, e, a) = (
  if id == j then touch (λ r. is_open r.status) (failed_row now kind error) s else s,
  ground (arith, fail_job-Updates now j db kind error id),
  ground arith,
)

run-HasAttempts :
    (h : History) (id : Uuid) (n : ℕ) (db : Db)
    → IsKeyedDb db
    → HasAttempts id n db
    → HasAttempts id (n + claims id h db) (run h db)
unfolding run claims
run-HasAttempts [] id n db k (s, e, a) = (s, e, omega arith)
run-HasAttempts ((now, op) ∷ rest) id n db k f =
    let (s, e, a) =
      run-HasAttempts rest id (n + claim_count id now op db) (apply now op db)
        (apply-IsKeyedDb now op db k) (apply-HasAttempts now op id n db k f) in
    (s, e, omega arith)

-- Whatever the interleaving, a job's attempt counter rises by exactly the number of claims of the
-- job that succeeded: no attempt is lost and none is counted twice.
-- The job exists and the keys are unique.
pub run-attempts :
    (h : History) (id : Uuid) (r : Conversation) (db : Db)
    → IsKeyedDb db
    → get_job id db ≡ some r
    → (s : Conversation) × (get_job id (run h db) ≡ some s)
      × (s.attempt_count ≡ r.attempt_count + claims id h db)
run-attempts h id r db k e = run-HasAttempts h id r.attempt_count db k (r, e, refl)
