-- ===== src/Tests/Worker.antt =====
-- One message through a worker.
use convoscore.Prelude.{true, some, [], ◌≡◌, ◌⊎◌, refl, arith}
use convoscore.Table.{lookup}
use convoscore.Text.{text, ◌is◌}
use convoscore.Json.{get_field}
use convoscore.Models.{seconds, Conversation, is_terminal}
use convoscore.Repository.Jobs.{get_job, claimed}
use convoscore.Runtime.{ok}
use convoscore.Queue.{job_id}
use convoscore.Worker.{process, duplicate_skipped, held}
use convoscore.Worker.Score.{ReportedBy}
use convoscore.Worker.Process.{process-Reported}
use convoscore.Worker.Claim.{claim_of, process-scores_once}
use convoscore.Worker.Claim.Outcomes.{Acknowledged, process-duplicate, process-held}
use convoscore.Worker.Deliver.{deliver}
use convoscore.Worker.Deliver.Finishes.{deliver_recovers}
use convoscore.Repository.Jobs.{claimed_row}
use convoscore.Tests.Data.{
  halves, message_7, scoring_worker, timing_out_worker, world_of, new_row, finished_job, parser_7,
}

pub job_id-message_7 : job_id parser_7 message_7 ≡ some 7
unfolding job_id get_field ◌is◌
job_id-message_7 = refl

process-Reported_example :
    ReportedBy 7
      (text "r")
      (world_of new_row)
      (process halves scoring_worker message_7 (world_of new_row))
unfolding lookup
process-Reported_example =
    process-Reported halves scoring_worker message_7 7 (world_of new_row)
      (record { keeps_keys = λ n db k. k; keeps_jobs = λ n db id r e. (r, e) }) (refl, tt)
      job_id-message_7

process-scores_once_example :
    let p = process halves scoring_worker message_7 (world_of new_row) in
    (p.1.scored ≡ 0)
    ⊎ ((claim_of halves scoring_worker 7 (world_of new_row) ≡ claimed) × (p.1.scored ≡ 1))
process-scores_once_example =
    process-scores_once halves scoring_worker message_7 7 (world_of new_row) job_id-message_7

process-duplicate_example :
    let p = process halves scoring_worker message_7 (world_of finished_job) in
    (p.1.scored ≡ 0)
    × (get_job 7 p.1.db ≡ some finished_job)
    × Acknowledged (text "r") duplicate_skipped (world_of finished_job) p
unfolding get_job lookup
process-duplicate_example =
    process-duplicate halves scoring_worker message_7 7 (world_of finished_job) finished_job
      job_id-message_7 refl (refl, tt) refl refl

-- Claimed by another worker at 8 s for 60 s.
abbrev held_row : Conversation
held_row = claimed_row (seconds 8) 60 new_row

process-held_example :
    let p = process halves scoring_worker message_7 (world_of held_row) in
    (p.0 ≡ ok held) × (p.1.scored ≡ 0) × (p.1.sent ≡ []) × (get_job 7 p.1.db ≡ some held_row)
unfolding get_job lookup
process-held_example =
    process-held halves scoring_worker message_7 7 (world_of held_row) held_row job_id-message_7
      refl (refl, tt) refl refl (ground arith)

-- Its worker died: the lock of the first attempt expired at 8 s, and the message comes at 10 s.
abbrev abandoned_row : Conversation
abandoned_row = claimed_row (seconds 3) 5 new_row

deliver_recovers_example :
    (s : Conversation) × (get_job 7
        (deliver halves timing_out_worker 2 message_7 (world_of abandoned_row)).db
      ≡ some s)
    × (is_terminal s.status ≡ true)
unfolding get_job lookup
deliver_recovers_example =
    deliver_recovers halves timing_out_worker message_7 7 (world_of abandoned_row) abandoned_row
      (record { untouched = λ n db. refl; answers = λ n. refl }) (λ n j h. cc) job_id-message_7
      (refl, tt) refl 2 refl (omega arith) (omega arith)
