-- ===== src/Repository/Effects.antt =====
-- What each transition leaves of a job, on every branch, and that it touches no other job.
use convoscore.Prelude.Maybe.{some_inj}
use convoscore.Prelude.{
  subst, Option-cases, inl, inr, ℕ, Bool, true, false, Option, none, some, ◌≡◌, refl, arith,
  if◌then◌else◌, option_map, ◌==◌,
}
use convoscore.Table.{
  lookup, touch, hits, IsKeyed, lookup-update_where, IsKeyed-update_where, count-at_key,
  lookup-append, IsKeyed-append_row,
}
use convoscore.Text.{Text}
use convoscore.Models.{Uuid, Time, is_processing, is_open, is_terminal, ErrorType, Conversation, Db}
use convoscore.Scoring.Provider.{ScoringOutcome}
use convoscore.Repository.Jobs.{
  job_key, get_job, update_job, insert_job, mark_enqueued, mark_enqueue_failed, enqueued_row,
  enqueue_failed_row, ClaimOutcome, claimed, already_finished, held_by_another_worker, not_found,
  is_claimable, claimed_row, claim_job, completed_row, complete_job, released_row,
  release_job_for_retry, failed_row, fail_job,
}

-- The primary key of the table of jobs.
abbrev pub IsKeyedDb : Db → Type 0
IsKeyedDb db = IsKeyed job_key db.conversations

module _ (job_id : Uuid) (g : Conversation → Bool) (f : Conversation → Conversation)
    (same : (r : Conversation) → (f r).id ≡ r.id) (db : Db) where
  pub get_job-update_job :
      (j : Uuid)
      → get_job j (update_job job_id g f db).1
        ≡ (if j == job_id then option_map (touch g f) (get_job j db) else get_job j db)
  unfolding get_job update_job
  get_job-update_job j = lookup-update_where job_key f same job_id j g db.conversations

  pub matched-update_job : IsKeyedDb db → (update_job job_id g f db).0 ≡ hits g (get_job job_id db)
  unfolding get_job update_job
  matched-update_job keyed = count-at_key job_key job_id g db.conversations keyed

  pub IsKeyedDb-update_job : IsKeyedDb db → IsKeyedDb (update_job job_id g f db).1
  unfolding update_job
  IsKeyedDb-update_job keyed = IsKeyed-update_where job_key f same job_id g db.conversations keyed

-- `db'` is `db` after an UPDATE of one job: the row that SELECT finds under `job_id` is changed by
-- `f` if it passes `g`, and every other job is as before.
abbrev pub Updates : Uuid → (Conversation → Bool) → (Conversation → Conversation) → Db → Db → Type 0
Updates job_id g f db db' =
    (j : Uuid)
    → get_job j db' ≡ (if j == job_id then option_map (touch g f) (get_job j db) else get_job j db)

-- The outcome that the documentation of `claim_job` gives, from the row alone.
abbrev pub outcome_of : Time → Option Conversation → ClaimOutcome
outcome_of now none = not_found
outcome_of now (some r) =
    if is_claimable now r
    then claimed
    else if is_terminal r.status
    then already_finished
    else held_by_another_worker

module _ (now : Time) (job_id : Uuid) (db : Db) where
  pub claim_job-Updates :
      (timeout : ℕ)
      → Updates job_id
          (is_claimable now)
          (claimed_row now timeout)
          db
          (claim_job now job_id timeout db).1
  unfolding claim_job
  claim_job-Updates timeout j = ground (
    arith,
    get_job-update_job job_id (is_claimable now) (claimed_row now timeout) (λ r. refl) db j,
  )

  -- With unique keys the outcome of `claim_job` is the one that its documentation gives from the row:
  -- not found, claimed exactly when the job is open and its lock free, already finished, or held.
  pub claim_job-outcome :
      (timeout : ℕ)
      → IsKeyedDb db
      → (claim_job now job_id timeout db).0.0 ≡ outcome_of now (get_job job_id db)
  unfolding claim_job
  claim_job-outcome timeout keyed = ground (
    arith,
    get_job-update_job job_id (is_claimable now) (claimed_row now timeout) (λ r. refl) db job_id,
    matched-update_job job_id (is_claimable now) (claimed_row now timeout) (λ r. refl) db keyed,
  )

  pub complete_job-Updates :
      (o : ScoringOutcome)
      → Updates job_id
          (λ r. is_processing r.status)
          (completed_row now o)
          db
          (complete_job now job_id o db).1
  unfolding complete_job
  complete_job-Updates o =
      get_job-update_job job_id (λ r. is_processing r.status) (completed_row now o) (λ r. refl) db

  pub release_job-Updates :
      (kind : ErrorType) (error : Text)
      → Updates job_id
          (λ r. is_processing r.status)
          (released_row now kind error)
          db
          (release_job_for_retry now job_id kind error db).1
  unfolding release_job_for_retry
  release_job-Updates kind error =
      get_job-update_job job_id (λ r. is_processing r.status) (released_row now kind error)
        (λ r. refl) db

  pub fail_job-Updates :
      (kind : ErrorType) (error : Text)
      → Updates job_id
          (λ r. is_open r.status)
          (failed_row now kind error)
          db
          (fail_job now job_id kind error db).1
  unfolding fail_job
  fail_job-Updates kind error =
      get_job-update_job job_id (λ r. is_open r.status) (failed_row now kind error) (λ r. refl) db

  pub mark_enqueued-Updates :
      Updates job_id (λ r. true) (enqueued_row now) db (mark_enqueued now job_id db)
  unfolding mark_enqueued
  mark_enqueued-Updates = get_job-update_job job_id (λ r. true) (enqueued_row now) (λ r. refl) db

  pub mark_enqueue_failed-Updates :
      (error : Text)
      → Updates job_id
          (λ r. true)
          (enqueue_failed_row now error)
          db
          (mark_enqueue_failed now job_id error db)
  unfolding mark_enqueue_failed
  mark_enqueue_failed-Updates error =
      get_job-update_job job_id (λ r. true) (enqueue_failed_row now error) (λ r. refl) db

abbrev pub status_is : (Conversation → Bool) → Option Conversation → Bool
status_is g none = false
status_is g (some r) = g r

hits_eq_one : (g : Conversation → Bool) (o : Option Conversation) → (hits g o == 1) ≡ status_is g o
hits_eq_one g none = refl
hits_eq_one g (some r) = ground arith

module _ (now : Time) (job_id : Uuid) (db : Db) (keyed : IsKeyedDb db) where
  -- `complete_job` returns true exactly when the job is being processed.
  pub complete_job-returns :
      (o : ScoringOutcome)
      → (complete_job now job_id o db).0
        ≡ status_is (λ r. is_processing r.status) (get_job job_id db)
  unfolding complete_job
  complete_job-returns o =
      rw
        (matched-update_job job_id (λ r. is_processing r.status) (completed_row now o) (λ r. refl)
          db keyed)
        (hits_eq_one (λ r. is_processing r.status) (get_job job_id db))

  pub IsKeyedDb-claim_job : (timeout : ℕ) → IsKeyedDb (claim_job now job_id timeout db).1
  unfolding claim_job
  IsKeyedDb-claim_job timeout = ground (
    arith,
    IsKeyedDb-update_job job_id (is_claimable now) (claimed_row now timeout) (λ r. refl) db keyed,
  )

  pub IsKeyedDb-complete_job : (o : ScoringOutcome) → IsKeyedDb (complete_job now job_id o db).1
  unfolding complete_job
  IsKeyedDb-complete_job o =
      IsKeyedDb-update_job job_id (λ r. is_processing r.status) (completed_row now o) (λ r. refl) db
        keyed

  pub IsKeyedDb-release_job :
      (kind : ErrorType) (error : Text)
      → IsKeyedDb (release_job_for_retry now job_id kind error db).1
  unfolding release_job_for_retry
  IsKeyedDb-release_job kind error =
      IsKeyedDb-update_job job_id (λ r. is_processing r.status) (released_row now kind error)
        (λ r. refl) db keyed

  pub IsKeyedDb-fail_job :
      (kind : ErrorType) (error : Text) → IsKeyedDb (fail_job now job_id kind error db).1
  unfolding fail_job
  IsKeyedDb-fail_job kind error =
      IsKeyedDb-update_job job_id (λ r. is_open r.status) (failed_row now kind error) (λ r. refl) db
        keyed

  pub IsKeyedDb-mark_enqueued : IsKeyedDb (mark_enqueued now job_id db)
  unfolding mark_enqueued
  IsKeyedDb-mark_enqueued =
      IsKeyedDb-update_job job_id (λ r. true) (enqueued_row now) (λ r. refl) db keyed

  pub IsKeyedDb-mark_enqueue_failed :
      (error : Text) → IsKeyedDb (mark_enqueue_failed now job_id error db)
  unfolding mark_enqueue_failed
  IsKeyedDb-mark_enqueue_failed error =
      IsKeyedDb-update_job job_id (λ r. true) (enqueue_failed_row now error) (λ r. refl) db keyed

-- An insertion succeeds only under a fresh key; then exactly that job is new.
pub get_job-insert_job :
    (job : Conversation) (db : Db) {db' : Db} (j : Uuid)
    → insert_job job db ≡ some db'
    → get_job j db' ≡ (if j == job.id then some job else get_job j db)
unfolding insert_job get_job
get_job-insert_job job db j h = ground (arith, lookup-append job_key j job db.conversations)

pub insert_job-fresh :
    (job : Conversation) (db : Db) {db' : Db}
    → insert_job job db ≡ some db'
    → get_job job.id db ≡ none
unfolding insert_job get_job
insert_job-fresh job db h = ground arith

pub insert_job-taken :
    (job : Conversation) (db : Db)
    → insert_job job db ≡ none
    → (r : Conversation) × (get_job job.id db ≡ some r)
unfolding insert_job get_job
insert_job-taken job db h = elim (Option-cases (lookup job_key job.id db.conversations)) [
  | inl fresh ↦ absurd (ground (arith, h, fresh))
  | inr found ↦ found
]

pub IsKeyedDb-insert_job :
    (job : Conversation) (db : Db) {db' : Db}
    → IsKeyedDb db
    → insert_job job db ≡ some db'
    → IsKeyedDb db'
unfolding insert_job
IsKeyedDb-insert_job job db keyed h = elim (Option-cases (lookup job_key job.id db.conversations)) [
  | inl fresh ↦
      subst IsKeyedDb (some_inj (rw fresh at h))
        (IsKeyed-append_row job_key job db.conversations keyed fresh)
  | inr (r, taken) ↦ ground arith
]
