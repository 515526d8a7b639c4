-- ===== src/Pipeline/Finished.antt =====
-- A finished job is never touched again by claims, scores, retries or failures.
use convoscore.Prelude.{
  Bool, subst, sym, true, false, some, [], ◌∷◌, ◌≡◌, refl, arith, inl, inr, if◌then◌else◌, ◌==◌, ap,
  Bool-cases,
}
use convoscore.Prelude.Maybe.{get_or_else_ind}
use convoscore.Models.{Uuid, Time, is_terminal, Conversation, Db}
use convoscore.Repository.Jobs.{get_job, create_job, insert_job, new_job, enqueued_row}
use convoscore.Repository.Effects.{
  claim_job-Updates, complete_job-Updates, release_job-Updates, fail_job-Updates,
  mark_enqueued-Updates, mark_enqueue_failed-Updates, get_job-insert_job, insert_job-fresh,
}
use convoscore.Pipeline.{
  Op, create, enqueued, enqueue_failure, claim, complete, release, fail, apply, History, run,
}

-- The rows differ in nothing but the times of the enqueueing and of the last update.
abbrev pub SameOutcome : Conversation → Conversation → Type 0
SameOutcome s r = record s { enqueued_at = r.enqueued_at; updated_at = r.updated_at } ≡ r

pub SameOutcome-refl : (r : Conversation) → SameOutcome r r
SameOutcome-refl r = refl

-- The operation is not the report of a failed enqueue of this very job.
abbrev pub NoEnqueueFailure : Uuid → Op → Type 0
NoEnqueueFailure id (enqueue_failure j _) = (id == j) ≡ false
NoEnqueueFailure id _ = Unit

abbrev pub HasOutcome : Uuid → Conversation → Db → Type 0
HasOutcome id r db = (s : Conversation) × (get_job id db ≡ some s) × SameOutcome s r

pub kept_by_insert :
    (job : Conversation) (db : Db) (id : Uuid) (s : Conversation) (d : Db)
    → get_job id db ≡ some s
    → insert_job job db ≡ some d
    → get_job id d ≡ some s
kept_by_insert job db id s d e made = elim (Bool-cases (id == job.id)) [
  | inl hit ↦
      let same : id ≡ job.id = ground arith in
      absurd (ground (arith, insert_job-fresh job db made, ap (λ k. get_job k db) same))
  | inr miss ↦ rw (get_job-insert_job job db id made, miss) e
]

SameOutcome-enqueued :
    (now : Time) (b : Bool) (s r : Conversation)
    → SameOutcome s r
    → SameOutcome (if b then enqueued_row now s else s) r
SameOutcome-enqueued now true s r same = same
SameOutcome-enqueued now false s r same = same

SameOutcome-terminal :
    (s r : Conversation)
    → SameOutcome s r
    → is_terminal r.status ≡ true
    → is_terminal s.status ≡ true
SameOutcome-terminal s r same t =
    subst (λ (x : Conversation). is_terminal x.status ≡ true) (sym same) t

pub apply-HasOutcome :
    (now : Time) (op : Op) (id : Uuid) (r : Conversation) (db : Db)
    → is_terminal r.status ≡ true
    → NoEnqueueFailure id op
    → HasOutcome id r db
    → HasOutcome id r (apply now op db)
unfolding apply create_job
apply-HasOutcome now (create digest j c source n ref) id r db t p (s, e, same) =
    let job = new_job digest now j c source n ref in
    get_or_else_ind (HasOutcome id r) (insert_job job db) db
      (λ d made. (s, kept_by_insert job db id s d e made, same)) (s, e, same)
apply-HasOutcome now (enqueued j) id r db t p (s, e, same) = (
  if id == j then enqueued_row now s else s,
  ground (arith, mark_enqueued-Updates now j db id),
  SameOutcome-enqueued now (id == j) s r same,
)
apply-HasOutcome now (enqueue_failure j error) id r db t p (s, e, same) =
    (s, ground (arith, mark_enqueue_failed-Updates now j db error id), same)
apply-HasOutcome now (claim j timeout) id r db t p (s, e, same) = (
  s,
  ground (arith, SameOutcome-terminal s r same t, claim_job-Updates now j db timeout id),
  same,
)
apply-HasOutcome now (complete j o) id r db t p (s, e, same) =
    (s, ground (arith, SameOutcome-terminal s r same t, complete_job-Updates now j db o id), same)
apply-HasOutcome now (release j kind error) id r db t p (s, e, same) = (
  s,
  ground (arith, SameOutcome-terminal s r same t, release_job-Updates now j db kind error id),
  same,
)
apply-HasOutcome now (fail j kind error) id r db t p (s, e, same) = (
  s,
  ground (arith, SameOutcome-terminal s r same t, fail_job-Updates now j db kind error id),
  same,
)

abbrev pub HistoryNoEnqueueFailure : Uuid → History → Type 0
HistoryNoEnqueueFailure id [] = Unit
HistoryNoEnqueueFailure id ((_, op) ∷ rest) =
    NoEnqueueFailure id op × HistoryNoEnqueueFailure id rest

run-HasOutcome :
    (h : History) (id : Uuid) (r : Conversation) (db : Db)
    → is_terminal r.status ≡ true
    → HistoryNoEnqueueFailure id h
    → HasOutcome id r db
    → HasOutcome id r (run h db)
unfolding run
run-HasOutcome [] id r db t p f = f
run-HasOutcome ((now, op) ∷ rest) id r db t p f =
    run-HasOutcome rest id r (apply now op db) t p.1 (apply-HasOutcome now op id r db t p.0 f)

-- A completed or failed job is final: whatever any processes do afterwards, short of reporting that
-- this job could not be enqueued, nothing of its row changes but the times of the enqueueing and of the
-- last update: its status, attempts, score, costs, tokens, error with its text and completion time stay.
pub run-finished :
    (h : History) (id : Uuid) (r : Conversation) (db : Db)
    → get_job id db ≡ some r
    → is_terminal r.status ≡ true
    → HistoryNoEnqueueFailure id h
    → (s : Conversation) × (get_job id (run h db) ≡ some s) × SameOutcome s r
run-finished h id r db e t p = run-HasOutcome h id r db t p (r, e, SameOutcome-refl r)
