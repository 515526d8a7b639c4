-- ===== src/System/Served.antt =====
-- From a submission to the score: what the API accepts is what the worker finishes.
use convoscore.Prelude.{
  ℕ, zero, suc, false, ◌≤◌, true, some, ◌∷◌, ◌≡◌, ◌≢◌, refl, arith, inl, inr, ap, ◌∙◌, sym, subst,
}
use convoscore.Prelude.Maybe.{some_inj}
use convoscore.Json.{Json}
use convoscore.Models.{Conversation, is_terminal}
use convoscore.Schemas.{ConversationInput, normalized}
use convoscore.Scoring.Provider.{crashed}
use convoscore.Repository.Jobs.{get_job, enqueued_row}
use convoscore.Repository.Effects.{IsKeyedDb}
use convoscore.Runtime.{World, Env, ok, send_message, seen, Result}
use convoscore.Queue.{QueueMessage, job_id}
use convoscore.Retry.{Floats}
use convoscore.Worker.{Given, process}
use convoscore.Worker.Deliver.{deliver, Alone}
use convoscore.Worker.Deliver.Finishes.{deliver-finishes}
use convoscore.Api.Conversations.{Server, JobCreatedResponse, job_accepted, submit_conversation}
use convoscore.Api.Conversations.Submit.{Ended, Unused, flushed_row, submit_conversation-Ended}
use convoscore.System.{Reach, here, Reach-trans, Others}
use convoscore.System.Workers.{WorkerOps, process-Keeps}
use convoscore.System.Sources.{SourceOps, submit_conversation-Keeps}
use convoscore.System.Jobs.{AnyOp, Reach-HasLater, Reach-IsKeyedDb}

Alone-Others : (env : Env) → Alone env → Others AnyOp env
Alone-Others env alone n db = subst (λ d. Reach AnyOp db d) (sym (alone.untouched n db)) here

any_worker : (fl : Floats) (g : Given fl) → WorkerOps AnyOp fl g
any_worker fl g = record {
  claims = λ id n. tt;
  completes = λ id n j o e. tt;
  releases = λ id kind error. tt;
  fails = λ id kind error. tt;
}

deliver-Reach :
    (fl : Floats) (g : Given fl) (n : ℕ) (m : QueueMessage) (w : World)
    → Alone g.env
    → Reach AnyOp w.db (deliver fl g n m w).db
unfolding deliver
deliver-Reach fl g zero m w alone = here
deliver-Reach fl g (suc n) m w alone =
    Reach-trans (process-Keeps AnyOp fl g (Alone-Others g.env alone) (any_worker fl g) m w)
      (deliver-Reach fl g n m (process fl g m w).1 alone)

-- What a 202 says of the database, when the commit after it succeeds.
accepted-Adds :
    (s : Server) (c : ConversationInput) (w w' : World)
    → Unused s.env (s.uuid4 w.transactions) w
    → submit_conversation s c w ≡ (ok (job_accepted (s.uuid4 w.transactions)), w')
    → s.env.db_fails (suc w.transactions) ≡ false
    → let id = s.uuid4 w.transactions in
      (w'.sent ≡ send_message id ∷ w.sent)
      × (get_job id w'.db
          ≡ some (
              enqueued_row
                (s.env.now w.transactions)
                (flushed_row s (s.env.now w.transactions) id c)))
accepted-Adds s c w w' unused e works =
    let now = s.env.now w.transactions in
    let id = s.uuid4 w.transactions in
    let ended =
      subst
        (Ended s now id c w.sent (seen s.env w)
          (s.env.interfere (suc w.transactions) (seen s.env w))
          (s.env.db_fails (suc w.transactions)))
        e (submit_conversation-Ended s c w unused) in
    elim ended.1 [
      | inl (_, sent, inl (_, adds)) ↦ (sent, ground (arith, adds id))
      | inl (_, sent, inr (fails, _, _)) ↦ absurd (cc)
      | inr (refused, _, _) ↦ absurd (omega (arith, refused))
    ]

-- A submission that is answered with 202, and whose commit after that answer succeeds, has sent the
-- message of its job, and with that message the job is completed or failed after at most
-- `max_attempts` deliveries, with the conversation that was submitted, whatever the provider answers
-- each time and whether or not SQS accepts the worker's calls.
-- The message is delivered only after that commit. Until then the other processes commit only
-- transactions of the pipeline and do not use the new id; while the message is delivered, the database
-- answers, nobody else changes it, and the provider raises nothing but an `LLMError`. The keys are
-- unique, the message has the job's id, and `max_attempts` is at least 1.
pub submission-finishes :
    (s : Server) (c : ConversationInput) (w w' : World) (fl : Floats) (g : Given fl)
    (m : QueueMessage) (w1 : World)
    → Others AnyOp s.env
    → Unused s.env (s.uuid4 w.transactions) w
    → IsKeyedDb w.db
    → submit_conversation s c w ≡ (ok (job_accepted (s.uuid4 w.transactions)), w')
    → s.env.db_fails (suc w.transactions) ≡ false
    → Alone g.env
    → ((n : ℕ) (j : Json) → g.answer n j ≢ crashed)
    → job_id g.parser m ≡ some (s.uuid4 w.transactions)
    → w1.db ≡ w'.db
    → 1 ≤ g.settings.max_attempts
    → (w'.sent ≡ send_message (s.uuid4 w.transactions) ∷ w.sent)
      × ((r : Conversation) × (get_job
              (s.uuid4 w.transactions)
              (deliver fl g g.settings.max_attempts m w1).db
            ≡ some r)
          × (is_terminal r.status ≡ true)
          × (r.conversation ≡ normalized c))
submission-finishes s c w w' fl g m w1 others unused keyed e works alone sane named same positive =
    let id = s.uuid4 w.transactions in
    let now = s.env.now w.transactions in
    let row = enqueued_row now (flushed_row s now id c) in
    let ops : SourceOps AnyOp s.digest s.uuid4 = record {
      creates = λ n c source most ref. tt;
      marks = λ n. tt;
      failures = λ n error. tt;
    } in
    let reached : Reach AnyOp w.db w'.db =
      subst (λ (q : Result JobCreatedResponse × World). Reach AnyOp w.db q.1.db) e
        (submit_conversation-Keeps AnyOp s others ops c w) in
    let keyed1 : IsKeyedDb w1.db =
      subst IsKeyedDb (sym same) (Reach-IsKeyedDb AnyOp w.db w'.db reached keyed) in
    let (sent, found) = accepted-Adds s c w w' unused e works in
    let found1 : get_job id w1.db ≡ some row = ap (get_job id) same ∙ found in
    let (r, last, done) =
      deliver-finishes fl g m id w1 row alone sane named keyed1 found1 positive
        (refl, refl, refl) in
    let (r', last', later) =
      Reach-HasLater AnyOp id row w1.db (deliver fl g g.settings.max_attempts m w1).db
        (deliver-Reach fl g g.settings.max_attempts m w1 alone)
        (row, found1, (refl, refl, refl, refl, refl, refl, refl, refl, omega arith)) in
    let same_row : r ≡ r' = some_inj (sym last ∙ last') in
    (sent, (r, last, done, ap (λ (x : Conversation). x.conversation) same_row ∙ later.3))
