-- ===== src/Repository/Rows.antt =====
-- The well-formedness of a row of `conversations`, and that every transition preserves it.
use convoscore.Prelude.Maybe.{some_inj}
use convoscore.Prelude.{
  subst, Bool-cases, inl, inr, ◌==◌, ℕ, ◌≤◌, Bool, true, ◌&&◌, Option, none, some, ◌≡◌, arith, All,
  is_some,
}
use convoscore.Table.{lookup, at_key, All-update_where, All-append_row}
use convoscore.Text.{Text}
use convoscore.Models.{
  Uuid, Time, JobStatus, pending, processing, completed, failed, is_processing, ErrorType,
  Conversation, Db, risk_in_range, JobSource,
}
use convoscore.Schemas.{ConversationInput, Digest}
use convoscore.Scoring.Contract.Laws.{ResultFits}
use convoscore.Scoring.Provider.{ScoringOutcome}
use convoscore.Repository.Jobs.{
  job_key, update_job, new_job, insert_job, is_claimable, claimed_row, completed_row, released_row,
  failed_row, enqueued_row, enqueue_failed_row,
}

abbrev NoScore : Conversation → Type 0
NoScore r = (r.sentiment ≡ none) × (r.risk_score ≡ none) × (r.rationale ≡ none)

-- What a row holds in each state.
abbrev pub StateFits : JobStatus → Conversation → Type 0
StateFits pending r = (r.locked_until ≡ none) × (r.completed_at ≡ none) × NoScore r
StateFits processing r =
    (is_some r.locked_until ≡ true)
    × (is_some r.started_at ≡ true)
    × (1 ≤ r.attempt_count)
    × (r.completed_at ≡ none)
    × NoScore r
StateFits completed r =
    (r.locked_until ≡ none)
    × (is_some r.completed_at ≡ true)
    × (1 ≤ r.attempt_count)
    × (r.last_error_type ≡ none)
    × (is_some r.sentiment ≡ true)
    × (is_some r.risk_score ≡ true)
    × (is_some r.rationale ≡ true)
    × (is_some r.model ≡ true)
StateFits failed r = (is_some r.completed_at ≡ true) × (is_some r.last_error_type ≡ true)

pub record RowFits (r : Conversation) : Type 0 where
  pub state_fits : StateFits r.status r
  pub risk_fits : risk_in_range r.risk_score ≡ true

module _ (now : Time) (r : Conversation) (h : RowFits r) where
  pub claimed_row-RowFits :
      (timeout : ℕ) → is_claimable now r ≡ true → RowFits (claimed_row now timeout r)
  claimed_row-RowFits timeout free = ground arith

  pub completed_row-RowFits :
      (o : ScoringOutcome)
      → ResultFits o.result
      → is_processing r.status ≡ true
      → RowFits (completed_row now o r)
  completed_row-RowFits o fits p = ground arith

  pub released_row-RowFits :
      (kind : ErrorType) (error : Text)
      → is_processing r.status ≡ true
      → RowFits (released_row now kind error r)
  released_row-RowFits kind error p = ground arith

  pub failed_row-RowFits : (kind : ErrorType) (error : Text) → RowFits (failed_row now kind error r)
  failed_row-RowFits kind error = ground arith

  pub enqueued_row-RowFits : RowFits (enqueued_row now r)
  enqueued_row-RowFits = ground arith

  pub enqueue_failed_row-RowFits : (error : Text) → RowFits (enqueue_failed_row now error r)
  enqueue_failed_row-RowFits error = ground arith

pub new_job-RowFits :
    (digest : Digest) (now : Time) (id : Uuid) (c : ConversationInput) (source : JobSource) (n : ℕ)
    (ref : Option Text)
    → RowFits (new_job digest now id c source n ref)
new_job-RowFits digest now id c source n ref = ground arith

abbrev pub RowsFit : Db → Type 0
RowsFit db = All RowFits db.conversations

both_true : (a b : Bool) → (a && b) ≡ true → b ≡ true
both_true a b h = ground arith

pub update_job-RowsFit :
    (job_id : Uuid) (g : Conversation → Bool) (f : Conversation → Conversation) (db : Db)
    → ((r : Conversation) → g r ≡ true → RowFits r → RowFits (f r))
    → RowsFit db
    → RowsFit (update_job job_id g f db).1
unfolding update_job
update_job-RowsFit job_id g f db keep h =
    All-update_where RowFits (at_key job_key job_id g) f db.conversations
      (λ r hit fits. keep r (both_true (r.id == job_id) (g r) hit) fits) h

pub insert_job-RowsFit :
    (job : Conversation) (db : Db) {db' : Db}
    → RowFits job
    → RowsFit db
    → insert_job job db ≡ some db'
    → RowsFit db'
unfolding insert_job
insert_job-RowsFit job db fits h e =
    elim (Bool-cases (is_some (lookup job_key job.id db.conversations))) [
      | inl taken ↦ absurd (ground arith)
      | inr fresh ↦
          subst RowsFit (some_inj (rw fresh at e))
            (All-append_row RowFits db.conversations job h fits)
    ]
