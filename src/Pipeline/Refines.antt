-- ===== src/Pipeline/Refines.antt =====
-- The table refines the abstract machine.
use convoscore.Prelude.{
  ℕ, Bool, true, Option, some, [], ◌∷◌, ◌≡◌, refl, arith, if◌then◌else◌, ◌==◌, option_map,
  Option-cases, inl, inr, ap, ◌∙◌,
}
use mathlib.Core.Path.{fun_ext}
use convoscore.Table.{touch, All-lookup}
use convoscore.Text.{Text}
use convoscore.Models.{
  JobSource, Uuid, Time, Conversation, Db, is_processing, is_open, ErrorType, enqueue_failed,
}
use convoscore.Schemas.{Digest, ConversationInput}
use convoscore.Scoring.Provider.{ScoringOutcome}
use convoscore.Repository.Jobs.{
  job_key, get_job, create_job, insert_job, new_job, is_claimable, claimed_row, completed_row,
  released_row, failed_row, enqueued_row, enqueue_failed_row,
}
use convoscore.Repository.Effects.{
  Updates, claim_job-Updates, complete_job-Updates, release_job-Updates, fail_job-Updates,
  mark_enqueued-Updates, mark_enqueue_failed-Updates, get_job-insert_job, insert_job-fresh,
  insert_job-taken,
}
use convoscore.Repository.Rows.{RowFits}
use convoscore.Pipeline.{
  Op, create, enqueued, enqueue_failure, claim, complete, release, fail, apply, History, run,
  job_of,
}
use convoscore.Pipeline.Invariant.{JobsFit, HistoryFits, run-JobsFit}
use convoscore.Pipeline.Machine.{
  Phase, broken, phase, phases, create_phase, act, start, finish, give_back, give_up, replay,
  attempts,
}

-- An UPDATE of one job acts on the view as the machine does, if it does so on a well-formed row.
phases-Updates :
    (j : Uuid) (g : Conversation → Bool) (f : Conversation → Conversation) (a : Phase → Phase)
    (db db' : Db)
    → JobsFit db
    → Updates j g f db db'
    → ((r : Conversation) → RowFits r → phase (touch g f r) ≡ a (phase r))
    → (id : Uuid) → phases db' id ≡ (if id == j then option_map a (phases db id) else phases db id)
unfolding get_job
phases-Updates j g f a db db' fits u k id = elim (Option-cases (get_job id db)) [
  | inl absent ↦ ground (arith, u id)
  | inr (r, found) ↦
      ground (arith, u id, k r (All-lookup RowFits job_key id db.conversations r fits.rows found))
]

module _ (r : Conversation) (fits : RowFits r) (now : Time) where
  abbrev Simulates :
      (Conversation → Bool) → (Conversation → Conversation) → (Phase → Phase) → Type 0
  Simulates g f a = phase (touch g f r) ≡ a (phase r)

  phase-claimed :
      (timeout : ℕ) → Simulates (is_claimable now) (claimed_row now timeout) (start now timeout)
  phase-claimed timeout = ground arith

  phase-enqueued : Simulates (λ r. true) (enqueued_row now) (λ p. p)
  phase-enqueued = ground arith

  phase-enqueue_failed :
      (error : Text)
      → Simulates
          (λ r. true)
          (enqueue_failed_row now error)
          (λ p. broken (attempts p) (some enqueue_failed))
  phase-enqueue_failed error = ground arith

  phase-completed :
      (o : ScoringOutcome)
      → Simulates
          (λ r. is_processing r.status)
          (completed_row now o)
          (finish (some o.result.sentiment) (some o.result.risk_score))
  phase-completed o = ground arith

  phase-released :
      (kind : ErrorType) (error : Text)
      → Simulates (λ r. is_processing r.status) (released_row now kind error) give_back
  phase-released kind error = ground arith

  phase-failed :
      (kind : ErrorType) (error : Text)
      → Simulates (λ r. is_open r.status) (failed_row now kind error) (give_up kind)
  phase-failed kind error = ground arith

phases-create :
    (now : Time) (digest : Digest) (j : Uuid) (c : ConversationInput) (source : JobSource) (n : ℕ)
    (ref : Option Text) (db : Db) (id : Uuid)
    → phases (apply now (create digest j c source n ref) db) id
      ≡ (if id == j then create_phase (phases db id) else phases db id)
unfolding apply create_job
phases-create now digest j c source n ref db id =
    let job = new_job digest now j c source n ref in
    elim (Option-cases (insert_job job db)) [
      | inl taken ↦ ground (arith, taken, insert_job-taken job db taken)
      | inr (d, made) ↦
          ground (arith, made, get_job-insert_job job db id made, insert_job-fresh job db made)
    ]

apply-phases :
    (now : Time) (op : Op) (db : Db)
    → JobsFit db
    → (id : Uuid)
    → phases (apply now op db) id
      ≡ (if id == job_of op then act now op (phases db id) else phases db id)
unfolding apply
apply-phases now (create digest j c source n ref) db fits id =
    phases-create now digest j c source n ref db id
apply-phases now (enqueued j) db fits id =
    phases-Updates j (λ r. true) (enqueued_row now) (λ p. p) db _ fits
      (mark_enqueued-Updates now j db) (λ r h. phase-enqueued r h now) id
apply-phases now (enqueue_failure j error) db fits id =
    phases-Updates j (λ r. true) (enqueue_failed_row now error)
      (λ p. broken (attempts p) (some enqueue_failed)) db _ fits
      (mark_enqueue_failed-Updates now j db error) (λ r h. phase-enqueue_failed r h now error) id
apply-phases now (claim j timeout) db fits id =
    phases-Updates j (is_claimable now) (claimed_row now timeout) _ db _ fits
      (claim_job-Updates now j db timeout) (λ r h. phase-claimed r h now timeout) id
apply-phases now (complete j o) db fits id =
    phases-Updates j (λ r. is_processing r.status) (completed_row now o) _ db _ fits
      (complete_job-Updates now j db o) (λ r h. phase-completed r h now o) id
apply-phases now (release j kind error) db fits id =
    phases-Updates j (λ r. is_processing r.status) (released_row now kind error) _ db _ fits
      (release_job-Updates now j db kind error) (λ r h. phase-released r h now kind error) id
apply-phases now (fail j kind error) db fits id =
    phases-Updates j (λ r. is_open r.status) (failed_row now kind error) _ db _ fits
      (fail_job-Updates now j db kind error) (λ r h. phase-failed r h now kind error) id

-- The table of jobs implements the abstract machine: after any interleaving of the processes'
-- transactions every job is in the phase that the machine reaches by the same history, so neither
-- the columns nor the guards of the statements show. The database is well formed at first, and the
-- results that workers store are taken to meet the contract.
pub run_refines :
    (h : History) (db : Db) → HistoryFits h → JobsFit db → phases (run h db) ≡ replay h (phases db)
unfolding run replay
run_refines [] db p f = refl
run_refines ((now, op) ∷ rest) db p f =
    let f' = run-JobsFit ((now, op) ∷ []) db (p.0, tt) f in
    run_refines rest (apply now op db) p.1 f'
    ∙ ap (replay rest) (fun_ext (apply-phases now op db f))
