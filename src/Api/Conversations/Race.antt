-- ===== src/Api/Conversations/Race.antt =====
-- A worker that receives the message of a submission before the submission's transaction commits.
use convoscore.Prelude.{ℕ, suc, false, some, none, ◌∷◌, ◌≡◌, refl, sym, ap, ◌∙◌, subst, arith}
use convoscore.Text.{Text}
use convoscore.Models.{Uuid, Time, Db}
use convoscore.Schemas.{ConversationInput}
use convoscore.Repository.Jobs.{get_job, enqueued_row, claim_job, not_found}
use convoscore.Repository.Effects.{IsKeyedDb, claim_job-outcome, claim_job-Updates}
use convoscore.Runtime.{
  World, Env, Result, ok, Request, M, ◌>>=◌, ◌>>◌, pure, delete_message, send_message, seen,
  bind_ok,
}
use convoscore.Queue.{QueueMessage, job_id, queue_url, request, call_client, publish, delete}
use convoscore.Queue.Laws.{publish-SameState, delete-SameState}
use convoscore.Retry.{Floats}
use convoscore.Worker.{Given, ProcessOutcome, process, dispatch, unknown_job}
use convoscore.Worker.Claim.{process-dispatch}
use convoscore.Api.Session.{opened, flush, flush-works, commit_session-works}
use convoscore.Api.Conversations.{
  JobCreatedResponse, Server, job_accepted, created, created_and_enqueued, accept,
}
use convoscore.Api.Conversations.Submit.{
  flushed_row, Unused, created-Adds, created_and_enqueued-Adds,
}

-- The statements of `submit_conversation` with a delivery to a worker before the commit.
unfoldable pub overtaken :
    (s : Server) (fl : Floats)
    → Given fl
    → QueueMessage
    → ConversationInput
    → M (ProcessOutcome × JobCreatedResponse)
overtaken s fl g m c w =
    let now = s.env.now w.transactions in
    let id = s.uuid4 w.transactions in
    (do
      flush s.env (created s now id c)
      publish s.env id
      outcome ← process fl g m
      answer ← accept s now id c
      pure (outcome, answer))
      w

-- The database and SQS answer, and the others keep the primary key.
pub record Works (env : Env) : Type 0 where
  pub db_answers : (n : ℕ) → env.db_fails n ≡ false
  pub sqs_answers : (n : ℕ) → env.sqs_fails n ≡ false
  pub resolves : (n : ℕ) → (url : Text) × (env.resolve n ≡ some url)
  pub keeps_keys : (n : ℕ) (db : Db) → IsKeyedDb db → IsKeyedDb (env.interfere n db)

module _ (env : Env) (works : Works env) (w : World) where
  call_client_works :
      (q : Request)
      → ((call_client env q w).0 ≡ ok tt) × ((call_client env q w).1.sent ≡ q ∷ w.sent)
  unfolding call_client queue_url request
  call_client_works q =
      let (url, e) = works.resolves w.requests in
      ground (arith, e, works.sqs_answers w.requests, works.sqs_answers (suc w.requests))

  publish_works :
      (id : Uuid)
      → ((publish env id w).0 ≡ ok tt) × ((publish env id w).1.sent ≡ send_message id ∷ w.sent)
  unfolding publish
  publish_works id = ground (arith, call_client_works (send_message id))

  delete_works :
      (receipt : Text)
      → ((delete env receipt w).0 ≡ ok tt)
        × ((delete env receipt w).1.sent ≡ delete_message receipt ∷ w.sent)
  unfolding delete
  delete_works receipt = ground (arith, call_client_works (delete_message receipt))

claim_job-missing :
    (now : Time) (id : Uuid) (timeout : ℕ) (db : Db)
    → IsKeyedDb db
    → get_job id db ≡ none
    → ((claim_job now id timeout db).0.0 ≡ not_found)
      × (get_job id (claim_job now id timeout db).1 ≡ none)
claim_job-missing now id timeout db keyed e =
    ground
      (arith, claim_job-outcome now id db timeout keyed, claim_job-Updates now id db timeout id)

-- A worker that receives the message of a job that is not there deletes the message.
process-missing :
    (fl : Floats) (g : Given fl) (m : QueueMessage) (id : Uuid) (w : World)
    → Works g.env
    → job_id g.parser m ≡ some id
    → IsKeyedDb (seen g.env w)
    → get_job id (seen g.env w) ≡ none
    → (w' : World) × (process fl g m w ≡ (ok unknown_job, w'))
      × (w'.sent ≡ delete_message m.receipt_handle ∷ w.sent)
      × (get_job id w'.db ≡ none)
      × (w'.db
          ≡ (claim_job
              (g.env.now w.transactions)
              id
              g.settings.visibility_timeout_seconds
              (seen g.env w)).1)
      × (w'.transactions ≡ suc w.transactions)
unfolding dispatch
process-missing fl g m id w works e keyed missing =
    let now = g.env.now w.transactions in
    let timeout = g.settings.visibility_timeout_seconds in
    let p = claim_job now id timeout (seen g.env w) in
    let w1 : World = record w { db = p.1; transactions = suc w.transactions } in
    let (refused, absent) = claim_job-missing now id timeout (seen g.env w) keyed missing in
    let (deleted, sent) = delete_works g.env works w1 m.receipt_handle in
    let w2 = (delete g.env m.receipt_handle w1).1 in
    let same = delete-SameState g.env w1 m.receipt_handle in
    (
      w2,
      process-dispatch fl g m id w e (works.db_answers w.transactions)
          ∙ ap (λ o. dispatch fl g id m.receipt_handle o w1) refused
          ∙ bind_ok (delete g.env m.receipt_handle) (λ _. pure unknown_job) w1
              (ap (λ r. (r, w2)) deleted),
      sent,
      ap (get_job id) same.same_db ∙ absent,
      same.same_db,
      same.same_transactions,
    )

module _ (s : Server) (fl : Floats) (g : Given fl) (m : QueueMessage) (c : ConversationInput)
    (w : World) (server_works : Works s.env) (worker_works : Works g.env)
    (unused : Unused s.env (s.uuid4 w.transactions) w)
    (unused_by_worker : Unused g.env (s.uuid4 w.transactions) w) where
  abbrev now : Time
  now = s.env.now w.transactions

  abbrev id : Uuid
  id = s.uuid4 w.transactions

  -- The acceptance in a world where the job is still missing.
  accept_works :
      (w3 : World)
      → get_job id w3.db ≡ none
      → (w4 : World) × (accept s now id c w3 ≡ (ok (job_accepted id), w4))
        × (get_job id w4.db ≡ some (enqueued_row now (flushed_row s now id c)))
        × (w4.sent ≡ w3.sent)
  unfolding accept
  accept_works w3 missing =
      let fresh : get_job id (seen s.env w3) ≡ none = unused.1 w3.transactions w3.db missing in
      let (db', written, adds) = created_and_enqueued-Adds s now id c (seen s.env w3) fresh in
      let found : get_job id db' ≡ some (enqueued_row now (flushed_row s now id c)) =
        ground (arith, adds id) in
      (
        record (opened s.env w3) { db = db' },
        ap (λ (q : Result (Unit {0}) × World). (ok (job_accepted id), q.1))
            (commit_session-works s.env (created_and_enqueued s now id c) w3 db' written
              (server_works.db_answers w3.transactions)),
        found,
        refl,
      )

  -- If a worker receives the message before the submission commits, then it deletes the message of
  -- the unknown job, and the client is told 202 for a job that is pending, marked as enqueued and
  -- without any attempt, and whose only message is gone.
  -- The database and SQS answer, the message carries the job's id, the primary key is kept and
  -- nobody else uses the id.
  pub submit_conversation_overtaken :
      job_id g.parser m ≡ some id
      → IsKeyedDb w.db
      → (w' : World) × (overtaken s fl g m c w ≡ (ok (unknown_job, job_accepted id), w'))
        × (get_job id w'.db ≡ some (enqueued_row now (flushed_row s now id c)))
        × (w'.sent ≡ delete_message m.receipt_handle ∷ send_message id ∷ w.sent)
  unfolding overtaken
  submit_conversation_overtaken e keyed =
      let w1 = opened s.env w in
      let fresh : get_job id w1.db ≡ none = unused.1 w.transactions w.db unused.0 in
      let (db', allowed, adds) = created-Adds s now id c w1.db fresh in
      let w2 = (publish s.env id w1).1 in
      let (published, sent) = publish_works s.env server_works w1 id in
      let same = publish-SameState s.env w1 id in
      let keyed2 : IsKeyedDb w2.db =
        subst IsKeyedDb (sym same.same_db) (server_works.keeps_keys w.transactions w.db keyed) in
      let missing2 : get_job id (seen g.env w2) ≡ none =
        unused_by_worker.1 w2.transactions w2.db (ap (get_job id) same.same_db ∙ fresh) in
      let (w3, processed, deleted, missing3, state3, count3) =
        process-missing fl g m id w2 worker_works e
          (worker_works.keeps_keys w2.transactions w2.db keyed2) missing2 in
      let (w4, accepted, found, kept) = accept_works w3 missing3 in
      let finish : ProcessOutcome → M (ProcessOutcome × JobCreatedResponse) =
        λ o. accept s now id c >>= λ a. pure (o, a) in
      let rest : M (ProcessOutcome × JobCreatedResponse) = process fl g m >>= finish in
      (
        w4,
        bind_ok (flush s.env (created s now id c)) (λ _. publish s.env id >> rest) w
              (flush-works s.env (created s now id c) w db' allowed
                (server_works.db_answers w.transactions))
            ∙ bind_ok (publish s.env id) (λ _. rest) w1 (ap (λ r. (r, w2)) published)
            ∙ bind_ok (process fl g m) finish w2 processed
            ∙ bind_ok (accept s now id c) (λ a. pure (unknown_job, a)) w3 accepted,
        found,
        kept ∙ deleted ∙ ap (λ l. delete_message m.receipt_handle ∷ l) sent,
      )
