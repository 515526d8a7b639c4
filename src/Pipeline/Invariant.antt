-- ===== src/Pipeline/Invariant.antt =====
-- Every history keeps the rows well formed and the keys unique.
use convoscore.Prelude.Maybe.{get_or_else_ind}
use convoscore.Prelude.{ℕ, true, [], ◌∷◌, arith}
use convoscore.Models.{Uuid, Time, Db, is_processing, is_open}
use convoscore.Scoring.Contract.Laws.{ResultFits}
use convoscore.Repository.Jobs.{
  create_job, mark_enqueued, mark_enqueue_failed, claim_job, complete_job, release_job_for_retry,
  fail_job, is_claimable, claimed_row, completed_row, released_row, failed_row, enqueued_row,
  enqueue_failed_row, new_job, insert_job,
}
use convoscore.Repository.Effects.{
  IsKeyedDb, IsKeyedDb-claim_job, IsKeyedDb-complete_job, IsKeyedDb-release_job, IsKeyedDb-fail_job,
  IsKeyedDb-mark_enqueued, IsKeyedDb-mark_enqueue_failed, IsKeyedDb-insert_job,
}
use convoscore.Repository.Rows.{
  RowsFit, claimed_row-RowFits, completed_row-RowFits, released_row-RowFits, failed_row-RowFits,
  enqueued_row-RowFits, enqueue_failed_row-RowFits, new_job-RowFits, update_job-RowsFit,
  insert_job-RowsFit,
}
use convoscore.Pipeline.{
  Op, create, enqueued, enqueue_failure, claim, complete, release, fail, apply, History, run,
}

-- The table of jobs: unique keys, and every row as its state demands.
pub record JobsFit (db : Db) : Type 0 where
  pub keyed : IsKeyedDb db
  pub rows : RowsFit db

-- A worker stores only results that meet the contract.
abbrev pub OpFits : Op → Type 0
OpFits (complete _ o) = ResultFits o.result
OpFits _ = Unit

abbrev pub HistoryFits : History → Type 0
HistoryFits [] = Unit
HistoryFits ((_, op) ∷ rest) = OpFits op × HistoryFits rest

pub apply-IsKeyedDb : (now : Time) (op : Op) (db : Db) → IsKeyedDb db → IsKeyedDb (apply now op db)
unfolding apply create_job
apply-IsKeyedDb now (create digest id c source n ref) db h =
    let job = new_job digest now id c source n ref in
    get_or_else_ind IsKeyedDb (insert_job job db) db (λ d e. IsKeyedDb-insert_job job db h e) h
apply-IsKeyedDb now (enqueued id) db h = IsKeyedDb-mark_enqueued now id db h
apply-IsKeyedDb now (enqueue_failure id error) db h =
    IsKeyedDb-mark_enqueue_failed now id db h error
apply-IsKeyedDb now (claim id timeout) db h = IsKeyedDb-claim_job now id db h timeout
apply-IsKeyedDb now (complete id o) db h = IsKeyedDb-complete_job now id db h o
apply-IsKeyedDb now (release id kind error) db h = IsKeyedDb-release_job now id db h kind error
apply-IsKeyedDb now (fail id kind error) db h = IsKeyedDb-fail_job now id db h kind error

claim_job-RowsFit :
    (now : Time) (id : Uuid) (timeout : ℕ) (db : Db)
    → RowsFit db
    → RowsFit (claim_job now id timeout db).1
unfolding claim_job
claim_job-RowsFit now id timeout db h = ground (
  arith,
  update_job-RowsFit id (is_claimable now) (claimed_row now timeout) db
      (λ r hit fits. claimed_row-RowFits now r fits timeout hit) h,
)

pub apply-RowsFit :
    (now : Time) (op : Op) (db : Db) → OpFits op → RowsFit db → RowsFit (apply now op db)
unfolding apply create_job mark_enqueued mark_enqueue_failed complete_job release_job_for_retry
    fail_job
apply-RowsFit now (create digest id c source n ref) db p h =
    let job = new_job digest now id c source n ref in
    get_or_else_ind RowsFit (insert_job job db) db
      (λ d e. insert_job-RowsFit job db (new_job-RowFits digest now id c source n ref) h e) h
apply-RowsFit now (enqueued id) db p h =
    update_job-RowsFit id (λ r. true) (enqueued_row now) db
      (λ r _ fits. enqueued_row-RowFits now r fits) h
apply-RowsFit now (enqueue_failure id error) db p h =
    update_job-RowsFit id (λ r. true) (enqueue_failed_row now error) db
      (λ r _ fits. enqueue_failed_row-RowFits now r fits error) h
apply-RowsFit now (claim id timeout) db p h = claim_job-RowsFit now id timeout db h
apply-RowsFit now (complete id o) db p h =
    update_job-RowsFit id (λ r. is_processing r.status) (completed_row now o) db
      (λ r hit fits. completed_row-RowFits now r fits o p hit) h
apply-RowsFit now (release id kind error) db p h =
    update_job-RowsFit id (λ r. is_processing r.status) (released_row now kind error) db
      (λ r hit fits. released_row-RowFits now r fits kind error hit) h
apply-RowsFit now (fail id kind error) db p h =
    update_job-RowsFit id (λ r. is_open r.status) (failed_row now kind error) db
      (λ r _ fits. failed_row-RowFits now r fits kind error) h

-- However the processes interleave, the table of jobs stays well formed: the keys are unique, a
-- pending job holds no lock and no score, a job in processing has a lock, a start and an attempt, a
-- completed one has its score, no lock and no error, and a failed one has its error; every risk
-- score lies in 0 to 100. The results that workers store are taken to meet the contract.
pub run-JobsFit : (h : History) (db : Db) → HistoryFits h → JobsFit db → JobsFit (run h db)
unfolding run
run-JobsFit [] db p f = f
run-JobsFit ((now, op) ∷ rest) db p f = run-JobsFit rest (apply now op db) p.1 (record {
  keyed = apply-IsKeyedDb now op db f.keyed;
  rows = apply-RowsFit now op db p.0 f.rows;
})
