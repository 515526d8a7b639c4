-- ===== src/Pipeline/Claims.antt =====
-- A live claim excludes every other claim of its job, until it expires or is given back.
use convoscore.Prelude.{
  ℕ, ◌+◌, ◌≤◌, true, false, some, [], ◌∷◌, ◌≡◌, refl, arith, if◌then◌else◌, ◌==◌, ◌⊎◌, inl, inr,
  Option-cases,
}
use convoscore.Prelude.Maybe.{get_or_else_ind}
use convoscore.Table.{touch}
use convoscore.Text.{Text}
use convoscore.Models.{
  Uuid, Time, seconds, Conversation, Db, is_processing, is_open, is_terminal, ErrorType, processing,
}
use convoscore.Repository.Jobs.{
  get_job, create_job, insert_job, new_job, claim_job, claimed, claimed_row, completed_row,
  failed_row, enqueued_row, enqueue_failed_row, release_job_for_retry,
}
use convoscore.Repository.Effects.{
  IsKeyedDb, claim_job-Updates, claim_job-outcome, complete_job-Updates, release_job-Updates,
  fail_job-Updates, mark_enqueued-Updates, mark_enqueue_failed-Updates, IsKeyedDb-claim_job,
  IsKeyedDb-release_job,
}
use convoscore.Pipeline.{
  Op, create, enqueued, enqueue_failure, claim, complete, release, fail, apply, History,
}
use convoscore.Pipeline.Invariant.{apply-IsKeyedDb}
use convoscore.Pipeline.Finished.{kept_by_insert}
use convoscore.Pipeline.Attempts.{claim_count, claims}

-- The operation does not give the job back for a retry.
abbrev pub KeepsClaim : Uuid → Op → Type 0
KeepsClaim id (release j _ _) = (id == j) ≡ false
KeepsClaim id _ = Unit

-- Every operation is committed no later than `until`, and none gives the job back for a retry.
abbrev pub Within : Uuid → Time → History → Type 0
Within id until [] = Unit
Within id until ((now, op) ∷ rest) = (now ≤ until) × KeepsClaim id op × Within id until rest

-- The job is finished, or its lock holds until `until`.
abbrev pub IsClosed : Time → Conversation → Type 0
IsClosed until r = (is_terminal r.status ≡ true) ⊎ (r.locked_until ≡ some until)

abbrev Closed : Uuid → Time → Db → Type 0
Closed id until db = (s : Conversation) × (get_job id db ≡ some s) × IsClosed until s

-- No claim succeeds on a closed job, and it stays closed.
apply-Closed :
    (now : Time) (op : Op) (id : Uuid) (until : Time) (db : Db)
    → IsKeyedDb db
    → now ≤ until
    → KeepsClaim id op
    → Closed id until db
    → Closed id until (apply now op db)
unfolding apply create_job
apply-Closed now (create digest j c source m ref) id until db k t p (s, e, a) =
    let job = new_job digest now j c source m ref in
    get_or_else_ind (Closed id until) (insert_job job db) db
      (λ d made. (s, kept_by_insert job db id s d e made, a)) (s, e, a)
apply-Closed now (enqueued j) id until db k t p (s, e, a) = (
  if id == j then enqueued_row now s else s,
  ground (arith, mark_enqueued-Updates now j db id),
  ground arith,
)
apply-Closed now (enqueue_failure j error) id until db k t p (s, e, a) = (
  if id == j then enqueue_failed_row now error s else s,
  ground (arith, mark_enqueue_failed-Updates now j db error id),
  ground arith,
)
apply-Closed now (claim j timeout) id until db k t p (s, e, a) =
    (s, ground (arith, claim_job-Updates now j db timeout id), a)
apply-Closed now (complete j o) id until db k t p (s, e, a) = (
  if id == j then touch (λ r. is_processing r.status) (completed_row now o) s else s,
  ground (arith, complete_job-Updates now j db o id),
  ground arith,
)
apply-Closed now (release j kind error) id until db k t p (s, e, a) =
    (s, ground (arith, release_job-Updates now j db kind error id), a)
apply-Closed now (fail j kind error) id until db k t p (s, e, a) = (
  if id == j then touch (λ r. is_open r.status) (failed_row now kind error) s else s,
  ground (arith, fail_job-Updates now j db kind error id),
  ground arith,
)

claim_count-Closed :
    (now : Time) (op : Op) (id : Uuid) (until : Time) (db : Db)
    → IsKeyedDb db
    → now ≤ until
    → Closed id until db
    → claim_count id now op db ≡ 0
unfolding claim_count
claim_count-Closed now (claim j timeout) id until db k t (s, e, a) =
    ground (arith, claim_job-outcome now j db timeout k)
claim_count-Closed now _ id until db k t c = refl

run-Closed :
    (h : History) (id : Uuid) (until : Time) (db : Db)
    → IsKeyedDb db
    → Within id until h
    → Closed id until db
    → claims id h db ≡ 0
unfolding claims
run-Closed [] id until db k w c = refl
run-Closed ((now, op) ∷ rest) id until db k w c = omega (
  arith,
  claim_count-Closed now op id until db k w.0 c,
  run-Closed rest id until (apply now op db) (apply-IsKeyedDb now op db k) w.2
      (apply-Closed now op id until db k w.0 w.1 c),
)

claimed-Closed :
    (now : Time) (id : Uuid) (timeout : ℕ) (db : Db)
    → IsKeyedDb db
    → (claim_job now id timeout db).0.0 ≡ claimed
    → Closed id (now + seconds timeout) (claim_job now id timeout db).1
claimed-Closed now id timeout db k won = elim (Option-cases (get_job id db)) [
  | inl absent ↦ absurd (ground (arith, claim_job-outcome now id db timeout k))
  | inr (r, e) ↦ (
    claimed_row now timeout r,
    ground (arith, claim_job-Updates now id db timeout id, claim_job-outcome now id db timeout k),
    inr refl,
  )
]

-- Two workers cannot both hold a job: after a claim that succeeded, no other claim of the job
-- succeeds up to and at the expiry of its lock, whatever else is committed in between, as long as
-- nobody gives the job back for a retry.
-- The keys are unique.
pub claim_exclusive :
    (now : Time) (id : Uuid) (timeout : ℕ) (db : Db) (h : History)
    → IsKeyedDb db
    → (claim_job now id timeout db).0.0 ≡ claimed
    → Within id (now + seconds timeout) h
    → claims id h (claim_job now id timeout db).1 ≡ 0
claim_exclusive now id timeout db h k won w =
    run-Closed h id (now + seconds timeout) (claim_job now id timeout db).1
      (IsKeyedDb-claim_job now id db k timeout) w (claimed-Closed now id timeout db k won)

-- A job that is given back for a retry can be claimed at once, at any time and by anyone, also when
-- the lock that it had was still live.
-- The job is in processing and the keys are unique.
pub claim_job-release_job_for_retry :
    (now later : Time) (id : Uuid) (timeout : ℕ) (kind : ErrorType) (error : Text) (db : Db)
    (r : Conversation)
    → IsKeyedDb db
    → get_job id db ≡ some r
    → r.status ≡ processing
    → (claim_job later id timeout (release_job_for_retry now id kind error db).1).0.0 ≡ claimed
claim_job-release_job_for_retry now later id timeout kind error db r k e p = ground (
  arith,
  claim_job-outcome later id (release_job_for_retry now id kind error db).1 timeout
      (IsKeyedDb-release_job now id db k kind error),
  release_job-Updates now id db kind error id,
)
