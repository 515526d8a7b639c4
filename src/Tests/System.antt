-- ===== src/Tests/System.antt =====
-- The processes together: a worker and an ingestor that submissions disturb.
use convoscore.Prelude.{true, some, none, List, [], ◌∷◌, ◌≡◌, refl, ap, subst, arith}
use convoscore.Table.{lookup}
use convoscore.Text.{text}
use convoscore.Json.{obj}
use convoscore.Models.{Conversation, empty_db, is_terminal}
use convoscore.Schemas.{normalized}
use convoscore.Scoring.Provider.{ScoringOutcome, Attempt, scored}
use convoscore.Scoring.Contract.Laws.{ResultFits}
use convoscore.Repository.Jobs.{get_job, create_job, insert_job}
use convoscore.Api.Session.{flush, commit_session}
use convoscore.Runtime.{World, Env, send_message}
use convoscore.Queue
use convoscore.Queue.{RawMessage, publish, call_client, queue_url}
use convoscore.Worker.{Given}
use convoscore.Worker.Deliver.{deliver}
use convoscore.Api.Conversations.{submit_conversation, after_publish, accept}
use convoscore.Ingestor.{Source}
use convoscore.Pipeline.{Op}
use convoscore.Pipeline.Invariant.{JobsFit, OpFits}
use convoscore.Pipeline.Finished.{SameOutcome, NoEnqueueFailure}
use convoscore.System.{Others, here}
use convoscore.System.Whole.{Act, work, submit, poll, run_acts, ActOps, Others-run_acts}
use convoscore.System.Outcomes.{run_acts-JobsFit, run_acts-finished}
use convoscore.System.Jobs.{AnyOp, Later, run_acts-Later}
use convoscore.System.Served.{submission-finishes}
use convoscore.Tests.Data.{
  halves, quiet, complaint, new_row, finished_job, db_of, world_of, good_outcome, settings_3,
  message_7, timing_out_worker,
}
use convoscore.Tests.Submit.{server, server_7, empty_world}
use convoscore.Tests.Ingestor.{source, listing}
use convoscore.Tests.Worker.{job_id-message_7}

abbrev request : Act halves
request = submit server complaint (world_of new_row)

-- A submission comes before each transaction.
abbrev busy : Env
busy = record quiet { interfere = λ n db. run_acts (request ∷ []) db }

abbrev busy_worker : Given halves
busy_worker = record {
  env = busy;
  settings = settings_3;
  parser = record { loads = λ t. some (obj message_7.body); parse_uuid = λ t. some 7 };
  answer = λ n j. scored good_outcome;
  jitter = λ n. 1;
}

abbrev delivery : RawMessage
delivery = record { raw_id = none; raw_receipt = text "r"; raw_body = []; raw_count = none }

abbrev busy_source : Source
busy_source = record source { env = busy }

abbrev day : List (Act halves)
day =
    request
    ∷ work busy_worker ((delivery ∷ []) ∷ [] ∷ (delivery ∷ []) ∷ []) 0 (world_of new_row)
    ∷ poll busy_source (some (listing ∷ []) ∷ none ∷ []) 0 none (world_of new_row)
    ∷ []

busy-Others {ℓ} : (P : Op → Type ℓ) → ActOps P halves request → Others P busy
busy-Others P ops =
    Others-run_acts P halves busy (λ n. request ∷ []) (λ n db. refl)
      (λ n. ((λ n db. here, ops), tt))

fits-Others : Others OpFits busy
fits-Others =
    busy-Others OpFits
      (record { creates = λ n c source most ref. tt; marks = λ n. tt; failures = λ n error. tt })

good_outcome-ResultFits : ResultFits good_outcome.result
good_outcome-ResultFits = record {
  risk_fits = ground arith;
  some_rationale = ground arith;
  rationale_fits = ground arith;
}

abbrev outcome_of_attempt : Attempt → ScoringOutcome
outcome_of_attempt (scored o) = o
outcome_of_attempt _ = good_outcome

good_answers-ResultFits :
    (o : ScoringOutcome) → scored good_outcome ≡ scored o → ResultFits o.result
good_answers-ResultFits o e =
    subst (λ (o : ScoringOutcome). ResultFits o.result) (ap outcome_of_attempt e)
      good_outcome-ResultFits

run_acts-JobsFit_example : JobsFit (run_acts day empty_db)
run_acts-JobsFit_example =
    run_acts-JobsFit halves day empty_db
      (
        (λ n db. here, tt),
        ((fits-Others, λ n j o e. good_answers-ResultFits o e), ((fits-Others, tt), tt)),
      )
      (record { keyed = tt; rows = tt })

spares-Others : Others (NoEnqueueFailure 7) busy
spares-Others =
    busy-Others (NoEnqueueFailure 7)
      (record { creates = λ n c source most ref. tt; marks = λ n. tt; failures = λ n error. refl })

run_acts-finished_example :
    (s : Conversation) × (get_job 7 (run_acts day (db_of finished_job)) ≡ some s)
    × SameOutcome s finished_job
unfolding get_job lookup
run_acts-finished_example =
    run_acts-finished halves day 7 finished_job (db_of finished_job)
      ((λ n db. here, λ n. refl), ((spares-Others, tt), ((spares-Others, λ n. refl), tt))) refl refl

any-Others : Others AnyOp busy
any-Others =
    busy-Others AnyOp
      (record { creates = λ n c source most ref. tt; marks = λ n. tt; failures = λ n error. tt })

run_acts-Later_example :
    (s : Conversation) × (get_job 7 (run_acts day (db_of new_row)) ≡ some s) × Later new_row s
unfolding get_job lookup
run_acts-Later_example =
    run_acts-Later halves day 7 new_row (db_of new_row)
      (λ n db. here, (any-Others, (any-Others, tt))) refl

-- The job 7 is submitted to an empty table.
accepted_world : World
accepted_world = (submit_conversation server_7 complaint empty_world).1

submission-finishes_example :
    (accepted_world.sent ≡ send_message 7 ∷ [])
    × ((r : Conversation) × (get_job 7
            (deliver halves timing_out_worker 3 message_7 accepted_world).db
          ≡ some r)
        × (is_terminal r.status ≡ true)
        × (r.conversation ≡ normalized complaint))
unfolding get_job lookup submit_conversation flush create_job insert_job after_publish publish
    call_client queue_url Queue.request accept commit_session accepted_world
submission-finishes_example =
    submission-finishes server_7 complaint empty_world accepted_world halves timing_out_worker
      message_7 accepted_world (λ n db. here) (refl, λ n db h. h) tt refl refl
      (record { untouched = λ n db. refl; answers = λ n. refl }) (λ n j h. cc) job_id-message_7 refl
      (omega arith)
