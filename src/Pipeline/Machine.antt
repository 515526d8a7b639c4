-- ===== src/Pipeline/Machine.antt =====
-- The job as an abstract machine: what the repository promises of one job, with no table, no SQL
-- and no columns that play no part.
use convoscore.Prelude.{
  ℕ, ◌+◌, Option, none, some, [], ◌∷◌, ltb, if◌then◌else◌, ◌==◌, get_or_else, option_map,
}
use convoscore.Prelude.Int.{ℤ}
use convoscore.Models.{
  Uuid, Time, seconds, JobStatus, pending, processing, completed, failed, Conversation, Db,
  Sentiment, ErrorType, enqueue_failed,
}
use convoscore.Repository.Jobs.{get_job}
use convoscore.Pipeline.{
  Op, create, enqueued, enqueue_failure, claim, complete, release, fail, History, job_of,
}

-- The number is that of the attempts so far; a running job has the expiry of its claim.
pub data Phase : Type 0 where
  waiting : ℕ → Phase
  running : ℕ → Time → Phase
  scored : ℕ → Option Sentiment → Option ℤ → Phase
  broken : ℕ → Option ErrorType → Phase

-- What a row stands for.
abbrev pub phase_at : JobStatus → Conversation → Phase
phase_at pending r = waiting r.attempt_count
phase_at processing r = running r.attempt_count (get_or_else r.locked_until 0)
phase_at completed r = scored r.attempt_count r.sentiment r.risk_score
phase_at failed r = broken r.attempt_count r.last_error_type

abbrev pub phase : Conversation → Phase
phase r = phase_at r.status r

-- The abstract view of the database.
abbrev pub phases : Db → Uuid → Option Phase
phases db id = option_map phase (get_job id db)

abbrev pub attempts : Phase → ℕ
attempts (waiting n) = n
attempts (running n _) = n
attempts (scored n _ _) = n
attempts (broken n _) = n

-- A claim starts the next attempt unless another claim is live.
abbrev pub start : Time → ℕ → Phase → Phase
start now timeout (waiting n) = running (n + 1) (now + seconds timeout)
start now timeout (running n until) =
    if ltb until now then running (n + 1) (now + seconds timeout) else running n until
start now timeout p = p

abbrev pub finish : Option Sentiment → Option ℤ → Phase → Phase
finish mood risk (running n _) = scored n mood risk
finish mood risk p = p

abbrev pub give_back : Phase → Phase
give_back (running n _) = waiting n
give_back p = p

abbrev pub give_up : ErrorType → Phase → Phase
give_up kind (waiting n) = broken n (some kind)
give_up kind (running n _) = broken n (some kind)
give_up kind p = p

abbrev pub create_phase : Option Phase → Option Phase
create_phase none = some (waiting 0)
create_phase (some p) = some p

-- What an operation does to the job it is about.
abbrev pub act : Time → Op → Option Phase → Option Phase
act now (create _ _ _ _ _ _) = create_phase
act now (enqueued _) = option_map (λ p. p)
act now (enqueue_failure _ _) = option_map (λ p. broken (attempts p) (some enqueue_failed))
act now (claim _ timeout) = option_map (start now timeout)
act now (complete _ o) = option_map (finish (some o.result.sentiment) (some o.result.risk_score))
act now (release _ _ _) = option_map give_back
act now (fail _ kind _) = option_map (give_up kind)

-- The same history on the abstract view.
unfoldable pub replay : History → (Uuid → Option Phase) → Uuid → Option Phase
replay [] view = view
replay ((now, op) ∷ rest) view =
    replay rest (λ id. if id == job_of op then act now op (view id) else view id)
