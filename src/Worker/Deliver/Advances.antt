-- ===== src/Worker/Deliver/Advances.antt =====
-- One attempt at a job that a worker has claimed: it finishes the job or leaves it waiting below the
-- limit of attempts.
use convoscore.Prelude.{
  ℕ, suc, ◌≤◌, ◌<◌, true, Option, none, some, if◌then◌else◌, ◌≡◌, ◌≢◌, refl, arith, ◌⊎◌, inl, inr,
  Bool-cases, ap, ◌∙◌, sym, subst,
}
use convoscore.Text.{Text}
use convoscore.Json.{Json}
use convoscore.Models.{Uuid, Time, Db, Conversation, processing}
use convoscore.Scoring.Provider.{
  Attempt, scored, llm_error, crashed, LlmError, ScoringOutcome, message, transient_error,
  permanent_error, invalid_response,
}
use convoscore.Repository.Jobs.{
  get_job, claimed, complete_job, completed_row, failed_row, released_row,
}
use convoscore.Repository.Effects.{
  IsKeyedDb, complete_job-Updates, fail_job-Updates, release_job-Updates, IsKeyedDb-complete_job,
  IsKeyedDb-fail_job, IsKeyedDb-release_job,
}
use convoscore.Runtime.{
  World, Result, ok, M, ◌>>=◌, ◌>>◌, pure, transaction, bind_ok, transaction_ok, world_of_pure,
}
use convoscore.Queue.{delete, change_visibility}
use convoscore.Queue.Laws.{delete-SameState, change_visibility-SameState}
use convoscore.Retry.{Floats, RetryDecision}
use convoscore.Retry.Laws.{allowance, decide_retry_iff}
use convoscore.Worker.{
  ProcessOutcome, Given, read_job, score, settle, persist, release, fail, handle_failure, score_row,
  score_and_persist, dispatch, store_outcome, act_on, decision, retry_scheduled, lost_claim,
}
use convoscore.Worker.Score.{HasJob, IsTerminal, act_on-retry, act_on-fail}
use convoscore.Worker.Deliver.{Waits, Alone}

allowance-le : (e : LlmError) (n : ℕ) → allowance e n ≤ n
allowance-le (permanent_error m) n = omega arith
allowance-le (invalid_response m) n = omega arith
allowance-le (transient_error m t) n = omega arith

module _ (fl : Floats) (g : Given fl) (alone : Alone g.env) (id : Uuid) (receipt : Text) where
  -- After attempt `a + 1` the job is finished, or waits and may be tried again.
  abbrev pub Advances : ℕ → Db → Type 0
  Advances a db =
      IsKeyedDb db
      × (HasJob id IsTerminal db
          ⊎ (HasJob id (Waits (suc a)) db × (suc a < g.settings.max_attempts)))

  abbrev InHand : ℕ → World → Type 0
  InHand a w =
      IsKeyedDb w.db × HasJob id (λ r. (r.status ≡ processing) × (r.attempt_count ≡ suc a)) w.db

  -- A first transaction that nothing disturbs.
  runs :
      {A B : Type 0} (P : Db → Type 0) (body : Time → Db → Result A × Db) (f : A → M B) (w : World)
      (a : A) (db' : Db)
      → body (g.env.now w.transactions) w.db ≡ (ok a, db')
      → P (f a (record w { db = db'; transactions = suc w.transactions })).1.db
      → P ((transaction g.env body >>= f) w).1.db
  runs {A} {B} P body f w a db' e h =
      subst (λ (q : Result B × World). P q.1.db)
        (sym (
          bind_ok (transaction g.env body) f w (
            transaction_ok g.env body w a db' (alone.answers w.transactions)
              (ap (body (g.env.now w.transactions)) (alone.untouched w.transactions w.db) ∙ e))))
        h

  by_delete :
      (P : Db → Type 0) (o : ProcessOutcome) (w : World)
      → P w.db
      → P ((delete g.env receipt >> pure o) w).1.db
  by_delete P o w h =
      rw (world_of_pure (delete g.env receipt) o w)
        (rw (delete-SameState g.env w receipt).same_db h)

  by_delay :
      (P : Db → Type 0) (n : ℕ) (o : ProcessOutcome) (w : World)
      → P w.db
      → P ((change_visibility g.env receipt n >> pure o) w).1.db
  by_delay P n o w h =
      rw (world_of_pure (change_visibility g.env receipt n) o w)
        (rw (change_visibility-SameState g.env w receipt n).same_db h)

  store_outcome-Advances :
      (a : ℕ) (o : ScoringOutcome) (w : World)
      → InHand a w
      → Advances a (store_outcome fl g id receipt o w).1.db
  unfolding store_outcome persist
  store_outcome-Advances a o w (keyed, (r, found, busy)) =
      let now = g.env.now w.transactions in
      let p = complete_job now id o w.db in
      runs (Advances a) _
        (λ b. delete g.env receipt >> pure (if b then ProcessOutcome.completed else lost_claim)) w
        p.0 p.1 refl
        (by_delete (Advances a) _ _ (
          IsKeyedDb-complete_job now id w.db keyed o,
          inl (completed_row now o r, ground (arith, complete_job-Updates now id w.db o id), refl),
        ))

  act_on-Advances :
      (a : ℕ) (d : RetryDecision) (error : LlmError) (w : World)
      → InHand a w
      → (d.retry ≡ true → suc a < g.settings.max_attempts)
      → Advances a (act_on fl g d id receipt error w).1.db
  unfolding release fail
  act_on-Advances a d error w (keyed, (r, found, busy)) allowed =
      let now = g.env.now w.transactions in
      let P = λ (q : Result ProcessOutcome × World). Advances a q.1.db in
      elim (Bool-cases d.retry) [
        | inl again ↦ subst P (sym (act_on-retry fl g id receipt w w d error again)) (
            runs (Advances a) _
              (λ _. change_visibility g.env receipt d.backoff >> pure retry_scheduled) w tt _ refl
              (by_delay (Advances a) d.backoff retry_scheduled _ (
                IsKeyedDb-release_job now id w.db keyed d.decided (message error),
                inr (
                  (
                    released_row now d.decided (message error) r,
                    ground (arith, release_job-Updates now id w.db d.decided (message error) id),
                    (refl, refl, busy.1),
                  ),
                  allowed again,
                ),
              )))
        | inr over ↦ subst P (sym (act_on-fail fl g id receipt w w d error over)) (
            runs (Advances a) _ (λ _. delete g.env receipt >> pure ProcessOutcome.failed) w tt _
              refl
              (by_delete (Advances a) ProcessOutcome.failed _ (
                IsKeyedDb-fail_job now id w.db keyed d.decided (message error),
                inl (
                  failed_row now d.decided (message error) r,
                  ground (arith, fail_job-Updates now id w.db d.decided (message error) id),
                  refl,
                ),
              )))
      ]

  decision-allowed :
      (a n : ℕ) (error : LlmError)
      → (decision fl g error (suc a) n).retry ≡ true
      → suc a < g.settings.max_attempts
  unfolding decision
  decision-allowed a n error again =
      let most : allowance error g.settings.max_attempts ≤ g.settings.max_attempts =
        allowance-le error g.settings.max_attempts in
      omega (
        arith,
        (decide_retry_iff fl error (suc a) g.settings.max_attempts
              g.settings.retry_base_backoff_seconds g.settings.retry_max_backoff_seconds
              (g.jitter n)).0
            again,
      )

  settle-Advances :
      (a : ℕ) (attempt : Attempt) (w : World)
      → attempt ≢ crashed
      → InHand a w
      → Advances a (settle fl g id receipt (suc a) attempt w).1.db
  unfolding settle handle_failure
  settle-Advances a (scored o) w sane h = store_outcome-Advances a o w h
  settle-Advances a (llm_error error) w sane h =
      act_on-Advances a (decision fl g error (suc a) w.scored) error w h
        (decision-allowed a w.scored error)
  settle-Advances a crashed w sane h = absurd (sane refl)

  score_row-Advances :
      (a : ℕ) (o : Option Conversation) (w : World)
      → ((n : ℕ) (j : Json) → g.answer n j ≢ crashed)
      → InHand a w
      → get_job id w.db ≡ o
      → Advances a (score_row fl g id receipt o w).1.db
  unfolding score_row score
  score_row-Advances a none w sane (keyed, (r, found, busy)) e = absurd (cc)
  score_row-Advances a (some s) w sane (keyed, (r, found, busy)) e =
      let count : s.attempt_count ≡ suc a = ground arith in
      let w1 : World = record w { scored = suc w.scored } in
      let answer = g.answer w.scored s.conversation in
      subst (λ n. Advances a (settle fl g id receipt n answer w1).1.db) (sym count)
        (settle-Advances a answer w1 (sane w.scored s.conversation) (keyed, (r, found, busy)))

  pub dispatch-Advances :
      (a : ℕ) (w : World)
      → ((n : ℕ) (j : Json) → g.answer n j ≢ crashed)
      → InHand a w
      → Advances a (dispatch fl g id receipt claimed w).1.db
  unfolding dispatch score_and_persist read_job
  dispatch-Advances a w sane h =
      runs (Advances a) _ (score_row fl g id receipt) w (get_job id w.db) w.db refl (
        score_row-Advances a (get_job id w.db) (record w { transactions = suc w.transactions }) sane
          h refl)
