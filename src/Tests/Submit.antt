-- ===== src/Tests/Submit.antt =====
-- Submissions, undisturbed and overtaken.
use convoscore.Prelude.{some, ◌∷◌, [], ◌≡◌, refl}
use convoscore.Text.{text, ◌is◌}
use convoscore.Json.{get_field}
use convoscore.Table.{lookup}
use convoscore.Models.{seconds}
use convoscore.Repository.Jobs.{get_job, enqueued_row}
use convoscore.Runtime.{World, ok, delete_message, send_message}
use convoscore.Queue.{job_id}
use convoscore.Worker.{unknown_job}
use convoscore.Api.Conversations.{Server, job_accepted}
use convoscore.Api.Conversations.Submit.{flushed_row}
use convoscore.Api.Conversations.Race.{Works, overtaken, submit_conversation_overtaken}
use convoscore.Tests.Data.{
  halves, plain, complaint, quiet, scoring_worker, message_7, new_row, world_of,
}

-- The new job has the id 8, or the id 7 that the test messages carry.
abbrev pub server : Server
server = record {
  env = quiet;
  max_attempts = 3;
  digest = plain;
  uuid4 = λ n. 8;
  publish_error_text = text "no queue";
}

abbrev pub server_7 : Server
server_7 = record server { uuid4 = λ n. 7 }

abbrev pub empty_world : World
empty_world = record (world_of new_row) {
  db = record { conversations = []; ingested_objects = []; demo_failure_tokens = [] };
}

quiet-Works : Works quiet
quiet-Works = record {
  db_answers = λ n. refl;
  sqs_answers = λ n. refl;
  resolves = λ n. (text "queue", refl);
  keeps_keys = λ n db h. h;
}

submit_conversation_overtaken_example :
    (w' : World) × (overtaken server_7 halves scoring_worker message_7 complaint empty_world
      ≡ (ok (unknown_job, job_accepted 7), w'))
    × (get_job 7 w'.db
        ≡ some (enqueued_row (seconds 10) (flushed_row server_7 (seconds 10) 7 complaint)))
    × (w'.sent ≡ delete_message (text "r") ∷ send_message 7 ∷ [])
unfolding get_job lookup job_id get_field ◌is◌
submit_conversation_overtaken_example =
    submit_conversation_overtaken server_7 halves scoring_worker message_7 complaint empty_world
      quiet-Works quiet-Works (refl, λ n db h. h) (refl, λ n db h. h) refl tt
