-- ===== src/Worker/Claim/Outcomes.antt =====
-- Deliveries for jobs that are finished or held: what a worker does when its claim is refused.
use convoscore.Prelude.{
  suc, true, false, some, ◌∷◌, ◌≡◌, refl, arith, ◌⊎◌, inl, inr, ap, ◌∙◌, sym, subst,
}
use convoscore.Text.{Text}
use convoscore.Models.{Uuid, Conversation, is_terminal}
use convoscore.Repository.Jobs.{
  get_job, already_finished, held_by_another_worker, claim_job, is_claimable,
}
use convoscore.Repository.Effects.{IsKeyedDb, claim_job-Updates, claim_job-outcome}
use convoscore.Runtime.{
  delete_message, World, Env, Result, ok, raise, queue_unavailable, ◌>>◌, pure, seen, bind_ok,
  bind_raise, world_of_pure,
}
use convoscore.Queue.{QueueMessage, job_id, delete}
use convoscore.Queue.Laws.{delete-SameState, delete-Sends}
use convoscore.Retry.{Floats}
use convoscore.Worker.{ProcessOutcome, duplicate_skipped, held, Given, dispatch, process}
use convoscore.Worker.Claim.{process-dispatch, delete-Scored}

-- The outcome with the message deleted, or the queue's error, and then the message was left or its
-- deletion was carried out and the response lost.
abbrev pub Acknowledged : Text → ProcessOutcome → World → Result ProcessOutcome × World → Type 0
Acknowledged receipt o w p =
    ((p.0 ≡ ok o) × (p.1.sent ≡ delete_message receipt ∷ w.sent))
    ⊎ ((p.0 ≡ raise queue_unavailable)
        × ((p.1.sent ≡ w.sent) ⊎ (p.1.sent ≡ delete_message receipt ∷ w.sent)))

-- A deletion acknowledges, or raises; the database stays.
delete_ends :
    (env : Env) (receipt : Text) (o : ProcessOutcome) (w : World)
    → let p = (delete env receipt >> pure o) w in Acknowledged receipt o w p × (p.1.db ≡ w.db)
delete_ends env receipt o w =
    let w' = (delete env receipt w).1 in
    let state : ((delete env receipt >> pure o) w).1.db ≡ w.db =
      rw (world_of_pure (delete env receipt) o w) (delete-SameState env w receipt).same_db in
    let kept : ((delete env receipt >> pure o) w).1.sent ≡ w'.sent =
      ap (λ (x : World). x.sent) (world_of_pure (delete env receipt) o w) in
    elim (delete-Sends env w receipt) [
      | inl (e, sent) ↦ (
        inl (
          ap (λ (p : Result ProcessOutcome × World). p.0)
              (bind_ok (delete env receipt) (λ _. pure o) w (ap (λ r. (r, w')) e)),
          kept ∙ sent,
        ),
        state,
      )
      | inr (e, sent) ↦ (
        inr (
          ap (λ (p : Result ProcessOutcome × World). p.0)
              (bind_raise (delete env receipt) (λ _. pure o) w (ap (λ r. (r, w')) e)),
          elim sent [ inl left ↦ inl (kept ∙ left) | inr lost ↦ inr (kept ∙ lost) ],
        ),
        state,
      )
    ]

pub process-finished :
    (fl : Floats) (g : Given fl) (m : QueueMessage) (id : Uuid) (w : World) (r : Conversation)
    → job_id g.parser m ≡ some id
    → g.env.db_fails w.transactions ≡ false
    → IsKeyedDb (seen g.env w)
    → get_job id (seen g.env w) ≡ some r
    → is_terminal r.status ≡ true
    → let p = process fl g m w in
      (p.1.scored ≡ w.scored)
      × (p.1.db
          ≡ (claim_job
              (g.env.now w.transactions)
              id
              g.settings.visibility_timeout_seconds
              (seen g.env w)).1)
      × Acknowledged m.receipt_handle duplicate_skipped w p
unfolding dispatch
process-finished fl g m id w r e works keyed found done =
    let now = g.env.now w.transactions in
    let timeout = g.settings.visibility_timeout_seconds in
    let db = seen g.env w in
    let p = claim_job now id timeout db in
    let w1 : World = record w { db = p.1; transactions = suc w.transactions } in
    let finished : p.0.0 ≡ already_finished =
      ground (arith, claim_job-outcome now id db timeout keyed) in
    let (ending, state) = delete_ends g.env m.receipt_handle duplicate_skipped w1 in
    subst
      (λ (q : Result ProcessOutcome × World).
        (q.1.scored ≡ w.scored)
        × (q.1.db ≡ p.1)
        × Acknowledged m.receipt_handle duplicate_skipped w q)
      (sym (
        process-dispatch fl g m id w e works
        ∙ ap (λ o. dispatch fl g id m.receipt_handle o w1) finished))
      (delete-Scored fl g id m.receipt_handle duplicate_skipped w1, state, ending)

-- A delivery for a job that is finished already never calls the model and leaves the job's row as
-- it is; the message is deleted, unless the call of SQS raises, and then it is left or its deletion was
-- carried out and the response lost. The transaction of the claim is taken to go through.
-- The message has the job's id and the keys are unique.
pub process-duplicate :
    (fl : Floats) (g : Given fl) (m : QueueMessage) (id : Uuid) (w : World) (r : Conversation)
    → job_id g.parser m ≡ some id
    → g.env.db_fails w.transactions ≡ false
    → IsKeyedDb (seen g.env w)
    → get_job id (seen g.env w) ≡ some r
    → is_terminal r.status ≡ true
    → let p = process fl g m w in
      (p.1.scored ≡ w.scored)
      × (get_job id p.1.db ≡ some r)
      × Acknowledged m.receipt_handle duplicate_skipped w p
process-duplicate fl g m id w r e works keyed found done =
    let now = g.env.now w.transactions in
    let timeout = g.settings.visibility_timeout_seconds in
    let db = seen g.env w in
    let same_row : get_job id (claim_job now id timeout db).1 ≡ some r =
      ground (arith, claim_job-Updates now id db timeout id) in
    let (calls, state, ending) = process-finished fl g m id w r e works keyed found done in
    (calls, ap (get_job id) state ∙ same_row, ending)

-- A delivery for a job with a live claim does nothing: no call of the model, no change of the row,
-- and the message is left to SQS. The transaction of the claim is taken to go through.
-- The message has the job's id, the keys are unique and the job is not finished.
pub process-held :
    (fl : Floats) (g : Given fl) (m : QueueMessage) (id : Uuid) (w : World) (r : Conversation)
    → job_id g.parser m ≡ some id
    → g.env.db_fails w.transactions ≡ false
    → IsKeyedDb (seen g.env w)
    → get_job id (seen g.env w) ≡ some r
    → is_terminal r.status ≡ false
    → is_claimable (g.env.now w.transactions) r ≡ false
    → let p = process fl g m w in
      (p.0 ≡ ok held) × (p.1.scored ≡ w.scored) × (p.1.sent ≡ w.sent) × (get_job id p.1.db ≡ some r)
unfolding dispatch
process-held fl g m id w r e works keyed found unfinished live =
    let now = g.env.now w.transactions in
    let timeout = g.settings.visibility_timeout_seconds in
    let db = seen g.env w in
    let p = claim_job now id timeout db in
    let w1 : World = record w { db = p.1; transactions = suc w.transactions } in
    let taken : p.0.0 ≡ held_by_another_worker =
      ground (arith, claim_job-outcome now id db timeout keyed) in
    let same_row : get_job id p.1 ≡ some r =
      ground (arith, claim_job-Updates now id db timeout id) in
    subst
      (λ (q : Result ProcessOutcome × World).
        (q.0 ≡ ok held)
        × (q.1.scored ≡ w.scored)
        × (q.1.sent ≡ w.sent)
        × (get_job id q.1.db ≡ some r))
      (sym (
        process-dispatch fl g m id w e works
        ∙ ap (λ o. dispatch fl g id m.receipt_handle o w1) taken))
      (refl, refl, refl, same_row)
