-- ===== src/Worker/Deliver/Finishes.antt =====
-- A job that keeps being delivered is finished after a bounded number of attempts.
use convoscore.Prelude.{
  ℕ, zero, suc, ◌+◌, ◌≤◌, true, some, ◌≡◌, ◌≢◌, refl, arith, inl, inr, ap, ◌∙◌, sym, subst,
}
use convoscore.Json.{Json}
use convoscore.Models.{Uuid, Time, Conversation, is_terminal}
use convoscore.Scoring.Provider.{crashed}
use convoscore.Repository.Jobs.{get_job, claimed, claim_job, is_claimable, claimed_row}
use convoscore.Repository.Effects.{
  IsKeyedDb, claim_job-Updates, claim_job-outcome, IsKeyedDb-claim_job,
}
use convoscore.Runtime.{World, Result, seen}
use convoscore.Queue.{QueueMessage, job_id}
use convoscore.Retry.{Floats}
use convoscore.Worker.{ProcessOutcome, Given, dispatch, process}
use convoscore.Worker.Score.{HasJob, IsTerminal}
use convoscore.Worker.Claim.{process-dispatch}
use convoscore.Worker.Claim.Outcomes.{process-finished, process-duplicate}
use convoscore.Worker.Deliver.{deliver, Waits, Alone}
use convoscore.Worker.Deliver.Advances.{Advances, dispatch-Advances}

-- A job after `a` attempts that can be claimed: it waits, or its worker's lock has expired.
abbrev pub Free : Time → ℕ → Conversation → Type 0
Free now a r = (is_claimable now r ≡ true) × (r.attempt_count ≡ a)

Free-Waits : (now : Time) (a : ℕ) (r : Conversation) → Waits a r → Free now a r
Free-Waits now a r waits = (ground arith, waits.2)

module _ (fl : Floats) (g : Given fl) (alone : Alone g.env)
    (sane : (n : ℕ) (j : Json) → g.answer n j ≢ crashed) (m : QueueMessage) (id : Uuid)
    (e : job_id g.parser m ≡ some id) where
  -- One delivery of a job that is free to be claimed.
  process-Advances :
      (a : ℕ) (w : World)
      → IsKeyedDb w.db
      → HasJob id (Free (g.env.now w.transactions) a) w.db
      → Advances fl g alone id m.receipt_handle a (process fl g m w).1.db
  process-Advances a w keyed (r, found, free) =
      let now = g.env.now w.transactions in
      let timeout = g.settings.visibility_timeout_seconds in
      let db = seen g.env w in
      let same : db ≡ w.db = alone.untouched w.transactions w.db in
      let key : IsKeyedDb db = subst IsKeyedDb (sym same) keyed in
      let here : get_job id db ≡ some r = ap (get_job id) same ∙ found in
      let p = claim_job now id timeout db in
      let w1 : World = record w { db = p.1; transactions = suc w.transactions } in
      let won : p.0.0 ≡ claimed = ground (arith, claim_job-outcome now id db timeout key) in
      let row : get_job id p.1 ≡ some (claimed_row now timeout r) =
        ground (arith, claim_job-Updates now id db timeout id) in
      subst
        (λ (q : Result ProcessOutcome × World). Advances fl g alone id m.receipt_handle a q.1.db)
        (sym (
          process-dispatch fl g m id w e (alone.answers w.transactions)
          ∙ ap (λ o. dispatch fl g id m.receipt_handle o w1) won))
        (dispatch-Advances fl g alone id m.receipt_handle a w1 sane (
          IsKeyedDb-claim_job now id db key timeout,
          (claimed_row now timeout r, row, (refl, omega (arith, free.1))),
        ))

  process-stays :
      (w : World)
      → IsKeyedDb w.db
      → HasJob id IsTerminal w.db
      → IsKeyedDb (process fl g m w).1.db × HasJob id IsTerminal (process fl g m w).1.db
  process-stays w keyed (r, found, done) =
      let same : seen g.env w ≡ w.db = alone.untouched w.transactions w.db in
      let key : IsKeyedDb (seen g.env w) = subst IsKeyedDb (sym same) keyed in
      let here : get_job id (seen g.env w) ≡ some r = ap (get_job id) same ∙ found in
      let works = alone.answers w.transactions in
      (
        subst IsKeyedDb (sym (process-finished fl g m id w r e works key here done).1) (
            IsKeyedDb-claim_job (g.env.now w.transactions) id (seen g.env w) key
              g.settings.visibility_timeout_seconds),
        (r, (process-duplicate fl g m id w r e works key here done).1, done),
      )

  deliver-stays :
      (n : ℕ) (w : World)
      → IsKeyedDb w.db
      → HasJob id IsTerminal w.db
      → HasJob id IsTerminal (deliver fl g n m w).db
  unfolding deliver
  deliver-stays zero w keyed h = h
  deliver-stays (suc n) w keyed h =
      let (keyed', h') = process-stays w keyed h in deliver-stays n (process fl g m w).1 keyed' h'

  deliver-IsTerminal :
      (n a : ℕ) (w : World)
      → IsKeyedDb w.db
      → HasJob id (Free (g.env.now w.transactions) a) w.db
      → g.settings.max_attempts ≤ a + n
      → 1 ≤ n
      → HasJob id IsTerminal (deliver fl g n m w).db
  unfolding deliver
  deliver-IsTerminal zero a w keyed h enough some_left = absurd (omega arith)
  deliver-IsTerminal (suc n) a w keyed h enough some_left =
      let (keyed', next) = process-Advances a w keyed h in
      let w' = (process fl g m w).1 in
      elim next [
        | inl done ↦ deliver-stays n w' keyed' done
        | inr ((r, found, waits), below) ↦
            deliver-IsTerminal n (suc a) w' keyed'
              (r, found, Free-Waits (g.env.now w'.transactions) (suc a) r waits) (omega arith)
              (omega arith)
      ]

module _ (fl : Floats) (g : Given fl) (m : QueueMessage) (id : Uuid) (w : World) (r : Conversation)
    (alone : Alone g.env) (sane : (n : ℕ) (j : Json) → g.answer n j ≢ crashed)
    (e : job_id g.parser m ≡ some id) (keyed : IsKeyedDb w.db)
    (found : get_job id w.db ≡ some r) where
  -- No job is stuck: one that can be claimed when its message comes, because it waits or because the
  -- lock of a worker that died has expired, is completed or failed after at least one delivery and as
  -- many as its attempts leave of `max_attempts`, whatever the provider answers each time and whether
  -- or not SQS accepts the worker's calls.
  -- The database answers and nobody else changes it meanwhile, the provider raises nothing but an
  -- `LLMError`, the keys are unique and the message has the job's id.
  pub deliver_recovers :
      (n : ℕ)
      → is_claimable (g.env.now w.transactions) r ≡ true
      → 1 ≤ n
      → g.settings.max_attempts ≤ r.attempt_count + n
      → (s : Conversation) × (get_job id (deliver fl g n m w).db ≡ some s)
        × (is_terminal s.status ≡ true)
  deliver_recovers n free some_left enough =
      deliver-IsTerminal fl g alone sane m id e n r.attempt_count w keyed (r, found, (free, refl))
        enough some_left

  -- A new job is completed or failed after at most `max_attempts` deliveries of its message, whatever
  -- the provider answers each time and whether or not SQS accepts the worker's calls; no error can
  -- keep it alive for longer. The database is taken to answer, nobody else to change it meanwhile,
  -- and the provider to raise nothing but an `LLMError`.
  -- The keys are unique, the message has the job's id, and `max_attempts` is at least 1.
  pub deliver-finishes :
      1 ≤ g.settings.max_attempts
      → Waits 0 r
      → (s : Conversation) × (get_job id (deliver fl g g.settings.max_attempts m w).db ≡ some s)
        × (is_terminal s.status ≡ true)
  deliver-finishes positive waits =
      deliver-IsTerminal fl g alone sane m id e g.settings.max_attempts 0 w keyed
        (r, found, Free-Waits (g.env.now w.transactions) 0 r waits) (omega arith) positive
