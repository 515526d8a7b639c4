-- ===== src/Worker/Score.antt =====
-- What the last stages of a message leave behind: the stored outcome, the retry or the failure.
use convoscore.Prelude.{
  ℕ, suc, Bool, true, false, none, some, ◌∷◌, if◌then◌else◌, ◌≡◌, refl, arith, ◌⊎◌, inl, inr,
  Option-cases, Bool-cases, ap, ◌∙◌, sym, subst,
}
use convoscore.Table.{touch}
use convoscore.Text.{Text}
use convoscore.Models.{Uuid, Time, Db, Conversation, ErrorType, is_terminal, is_processing, is_open}
use convoscore.Scoring.Provider.{LlmError, ScoringOutcome, message}
use convoscore.Repository.Jobs.{
  get_job, complete_job, release_job_for_retry, fail_job, completed_row, released_row, failed_row,
}
use convoscore.Repository.Effects.{
  IsKeyedDb, status_is, complete_job-Updates, complete_job-returns, release_job-Updates,
  fail_job-Updates,
}
use convoscore.Runtime.{
  delete_message, change_message_visibility, World, Env, Result, ok, raise, Raised,
  queue_unavailable, M, ◌>>=◌, ◌>>◌, pure, transaction, seen, bind_ok, bind_raise, transaction_ind,
}
use convoscore.Queue.{delete, change_visibility}
use convoscore.Queue.Laws.{
  delete-SameState, delete-Sends, change_visibility-SameState, change_visibility-ok,
}
use convoscore.Retry.{Floats, RetryDecision}
use convoscore.Worker.{
  ProcessOutcome, idle, retry_scheduled, duplicate_skipped, held, unknown_job, malformed_message,
  lost_claim, Given, persist, release, fail, store_outcome, act_on,
}

abbrev pub HasJob : Uuid → (Conversation → Type 0) → Db → Type 0
HasJob id P db = (r : Conversation) × (get_job id db ≡ some r) × P r

abbrev pub IsTerminal : Conversation → Type 0
IsTerminal r = is_terminal r.status ≡ true

abbrev pub NotProcessing : Conversation → Type 0
NotProcessing r = is_processing r.status ≡ false

-- What each way of ending one message says of the job and of the message: it was deleted, or left
-- for redelivery.
abbrev pub Reported : Uuid → Text → World → Result ProcessOutcome → World → Type 0
Reported id receipt w (ok ProcessOutcome.completed) w' =
    (w'.sent ≡ delete_message receipt ∷ w.sent) × HasJob id IsTerminal w'.db
Reported id receipt w (ok ProcessOutcome.failed) w' =
    (w'.sent ≡ delete_message receipt ∷ w.sent) × HasJob id IsTerminal w'.db
Reported id receipt w (ok duplicate_skipped) w' =
    (w'.sent ≡ delete_message receipt ∷ w.sent) × HasJob id IsTerminal w'.db
Reported id receipt w (ok unknown_job) w' =
    (w'.sent ≡ delete_message receipt ∷ w.sent) × (get_job id w'.db ≡ none)
Reported id receipt w (ok lost_claim) w' =
    (w'.sent ≡ delete_message receipt ∷ w.sent)
    × (status_is (λ r. is_processing r.status) (get_job id w'.db) ≡ false)
Reported id receipt w (ok retry_scheduled) w' =
    ((w'.sent ≡ w.sent) ⊎ ((n : ℕ) × (w'.sent ≡ change_message_visibility receipt n ∷ w.sent)))
    × HasJob id NotProcessing w'.db
Reported id receipt w (ok held) w' = w'.sent ≡ w.sent
Reported id receipt w (ok idle) w' = ⊥
Reported id receipt w (ok malformed_message) w' = ⊥
Reported id receipt w (raise e) w' =
    (w'.sent ≡ w.sent)
    ⊎ ((w'.sent ≡ delete_message receipt ∷ w.sent)
        × (status_is (λ r. is_processing r.status) (get_job id w'.db) ≡ false))

abbrev pub ReportedBy : Uuid → Text → World → Result ProcessOutcome × World → Type 0
ReportedBy id receipt w p = Reported id receipt w p.0 p.1

NotProcessing-terminal : (r : Conversation) → IsTerminal r → NotProcessing r
NotProcessing-terminal r h = ground (arith, h)

not_processing :
    (id : Uuid) (db : Db)
    → HasJob id NotProcessing db
    → status_is (λ r. is_processing r.status) (get_job id db) ≡ false
not_processing id db (r, e, h) = rw e h

finished : (id : Uuid) (db : Db) → HasJob id IsTerminal db → HasJob id NotProcessing db
finished id db (r, e, h) = (r, e, NotProcessing-terminal r h)

-- The deletion was carried out and its response lost: what the outcome would have said still holds.
deleted_anyway :
    (id : Uuid) (receipt : Text) (w w' : World) (o : ProcessOutcome) (e : Raised)
    → w'.sent ≡ delete_message receipt ∷ w.sent
    → Reported id receipt w (ok o) w'
    → Reported id receipt w (raise e) w'
deleted_anyway id receipt w w' ProcessOutcome.completed e s h =
    inr (s, not_processing id w'.db (finished id w'.db h.1))
deleted_anyway id receipt w w' ProcessOutcome.failed e s h =
    inr (s, not_processing id w'.db (finished id w'.db h.1))
deleted_anyway id receipt w w' duplicate_skipped e s h =
    inr (s, not_processing id w'.db (finished id w'.db h.1))
deleted_anyway id receipt w w' unknown_job e s h = inr (s, rw h.1 refl)
deleted_anyway id receipt w w' lost_claim e s h = inr (s, h.1)
deleted_anyway id receipt w w' retry_scheduled e s h = inr (s, not_processing id w'.db h.1)
deleted_anyway id receipt w w' held e s h = inl h
deleted_anyway id receipt w w' idle e s h = elim h [ ]
deleted_anyway id receipt w w' malformed_message e s h = elim h [ ]

-- A deletion as the last step of a message.
pub ends_by_delete :
    (env : Env) (id : Uuid) (receipt : Text) (o : ProcessOutcome) (w0 w : World)
    → w.sent ≡ w0.sent
    → ((w' : World)
        → w'.db ≡ w.db
        → w'.sent ≡ delete_message receipt ∷ w0.sent
        → Reported id receipt w0 (ok o) w')
    → ReportedBy id receipt w0 ((delete env receipt >> pure o) w)
ends_by_delete env id receipt o w0 w same k =
    let w' = (delete env receipt w).1 in
    let P = ReportedBy id receipt w0 in
    elim (delete-Sends env w receipt) [
      | inl (e, s) ↦
          subst P (sym (bind_ok (delete env receipt) (λ _. pure o) w (ap (λ r. (r, w')) e))) (
            k w' (delete-SameState env w receipt).same_db
              (s ∙ ap (λ l. delete_message receipt ∷ l) same))
      | inr (e, s) ↦
          subst P (sym (bind_raise (delete env receipt) (λ _. pure o) w (ap (λ r. (r, w')) e)))
            (elim s [
              | inl unsent ↦ inl (unsent ∙ same)
              | inr lost ↦
                  let carried = lost ∙ ap (λ l. delete_message receipt ∷ l) same in
                  deleted_anyway id receipt w0 w' o queue_unavailable carried
                    (k w' (delete-SameState env w receipt).same_db carried)
            ])
    ]

-- A change of visibility as the last step of a message.
ends_by_delay :
    (env : Env) (id : Uuid) (receipt : Text) (n : ℕ) (w0 w : World)
    → w.sent ≡ w0.sent
    → HasJob id NotProcessing w.db
    → ReportedBy id receipt w0 ((change_visibility env receipt n >> pure retry_scheduled) w)
ends_by_delay env id receipt n w0 w same left =
    let w' = (change_visibility env receipt n w).1 in
    let (e, s) = change_visibility-ok env w receipt n in
    let kept = (change_visibility-SameState env w receipt n).same_db in
    subst (ReportedBy id receipt w0)
      (sym (
        bind_ok (change_visibility env receipt n) (λ _. pure retry_scheduled) w
          (ap (λ r. (r, w')) e)))
      (
        elim s [
          | inl sent ↦ inr (n, sent ∙ ap (λ l. change_message_visibility receipt n ∷ l) same)
          | inr unsent ↦ inl (unsent ∙ same)
        ],
        subst (HasJob id NotProcessing) (sym kept) left,
      )

-- A transaction as the first step: it fails and nothing is sent, or it commits.
pub after_transaction :
    {A : Type 0} (env : Env) (id : Uuid) (receipt : Text) (body : Time → Db → Result A × Db)
    (f : A → M ProcessOutcome) (w0 w : World) (a : A) (db' : Db)
    → w.sent ≡ w0.sent
    → body (env.now w.transactions) (seen env w) ≡ (ok a, db')
    → ReportedBy id receipt w0 (f a (record w { db = db'; transactions = suc w.transactions }))
    → ReportedBy id receipt w0 ((transaction env body >>= f) w)
after_transaction env id receipt body f w0 w a db' same e k =
    transaction_ind (ReportedBy id receipt w0) env body f w a db' e (inl same) k

module _ (now : Time) (id : Uuid) (db : Db) where
  complete_job-finished :
      (o : ScoringOutcome)
      → IsKeyedDb db
      → (complete_job now id o db).0 ≡ true
      → HasJob id IsTerminal (complete_job now id o db).1
  complete_job-finished o keyed won = elim (Option-cases (get_job id db)) [
    | inl absent ↦ absurd (ground (arith, complete_job-returns now id db keyed o))
    | inr (r, e) ↦ (
      completed_row now o r,
      ground (arith, complete_job-returns now id db keyed o, complete_job-Updates now id db o id),
      refl,
    )
  ]

  complete_job-lost :
      (o : ScoringOutcome)
      → IsKeyedDb db
      → (complete_job now id o db).0 ≡ false
      → status_is (λ r. is_processing r.status) (get_job id (complete_job now id o db).1) ≡ false
  complete_job-lost o keyed lost =
      ground (arith, complete_job-returns now id db keyed o, complete_job-Updates now id db o id)

  fail_job-finished :
      (kind : ErrorType) (error : Text) (r : Conversation)
      → get_job id db ≡ some r
      → HasJob id IsTerminal (fail_job now id kind error db).1
  fail_job-finished kind error r e = (
    touch (λ r. is_open r.status) (failed_row now kind error) r,
    ground (arith, fail_job-Updates now id db kind error id),
    ground arith,
  )

  release_job-left :
      (kind : ErrorType) (error : Text) (r : Conversation)
      → get_job id db ≡ some r
      → HasJob id NotProcessing (release_job_for_retry now id kind error db).1
  release_job-left kind error r e = (
    touch (λ r. is_processing r.status) (released_row now kind error) r,
    ground (arith, release_job-Updates now id db kind error id),
    ground arith,
  )

-- The end of a scored message, by whether the result was persisted.
stored-Reported :
    (id : Uuid) (receipt : Text) (w0 w' : World) (b : Bool)
    → w'.sent ≡ delete_message receipt ∷ w0.sent
    → (b ≡ true → HasJob id IsTerminal w'.db)
    → (b ≡ false → status_is (λ r. is_processing r.status) (get_job id w'.db) ≡ false)
    → Reported id receipt w0 (ok (if b then ProcessOutcome.completed else lost_claim)) w'
stored-Reported id receipt w0 w' true s won lost = (s, won refl)
stored-Reported id receipt w0 w' false s won lost = (s, lost refl)

module _ (fl : Floats) (g : Given fl) (id : Uuid) (receipt : Text) (w0 w : World) where
  abbrev before : Db
  before = seen g.env w

  abbrev clock : Time
  clock = g.env.now w.transactions

  abbrev after_commit : Db → World
  after_commit db' = record w { db = db'; transactions = suc w.transactions }

  pub store_outcome-Reported :
      (o : ScoringOutcome)
      → w.sent ≡ w0.sent
      → IsKeyedDb before
      → ReportedBy id receipt w0 (store_outcome fl g id receipt o w)
  unfolding store_outcome persist
  store_outcome-Reported o same keyed =
      let r = complete_job clock id o before in
      after_transaction g.env id receipt _
        (λ b. delete g.env receipt >> pure (if b then ProcessOutcome.completed else lost_claim)) w0
        w r.0 r.1 same refl
        (ends_by_delete g.env id receipt (if r.0 then ProcessOutcome.completed else lost_claim) w0
          (after_commit r.1) same
          (λ w' d s.
            stored-Reported id receipt w0 w' r.0 s
              (λ won.
                subst (HasJob id IsTerminal) (sym d)
                  (complete_job-finished clock id before o keyed won))
              (λ lost.
                subst (λ db. status_is (λ r. is_processing r.status) (get_job id db) ≡ false)
                  (sym d) (complete_job-lost clock id before o keyed lost))))

  fails-Reported :
      (kind : ErrorType) (error : Text) (r : Conversation)
      → w.sent ≡ w0.sent
      → get_job id before ≡ some r
      → ReportedBy id receipt w0
          ((fail fl g id kind error >> (delete g.env receipt >> pure ProcessOutcome.failed)) w)
  unfolding fail
  fails-Reported kind error r same e =
      let p = fail_job clock id kind error before in
      after_transaction g.env id receipt _ (λ _. delete g.env receipt >> pure ProcessOutcome.failed)
        w0 w tt p.1 same refl
        (ends_by_delete g.env id receipt ProcessOutcome.failed w0 (after_commit p.1) same (λ w' d s.
          (
            s,
            subst (HasJob id IsTerminal) (sym d) (fail_job-finished clock id before kind error r e),
          )))

  retries-Reported :
      (kind : ErrorType) (error : Text) (n : ℕ) (r : Conversation)
      → w.sent ≡ w0.sent
      → get_job id before ≡ some r
      → ReportedBy id receipt w0 (
          (release fl g id kind error
              >> (change_visibility g.env receipt n >> pure retry_scheduled))
            w)
  unfolding release
  retries-Reported kind error n r same e =
      let p = release_job_for_retry clock id kind error before in
      after_transaction g.env id receipt _
        (λ _. change_visibility g.env receipt n >> pure retry_scheduled) w0 w tt p.1 same refl
        (ends_by_delay g.env id receipt n w0 (after_commit p.1) same
          (release_job-left clock id before kind error r e))

  pub act_on-retry :
      (d : RetryDecision) (error : LlmError)
      → d.retry ≡ true
      → act_on fl g d id receipt error w
        ≡ (release fl g id d.decided (message error)
              >> (change_visibility g.env receipt d.backoff >> pure retry_scheduled))
            w
  unfolding act_on
  act_on-retry d error h = rw h

  pub act_on-fail :
      (d : RetryDecision) (error : LlmError)
      → d.retry ≡ false
      → act_on fl g d id receipt error w
        ≡ (fail fl g id d.decided (message error)
              >> (delete g.env receipt >> pure ProcessOutcome.failed))
            w
  unfolding act_on
  act_on-fail d error h = rw h

  pub act_on-Reported :
      (d : RetryDecision) (error : LlmError) (r : Conversation)
      → w.sent ≡ w0.sent
      → get_job id before ≡ some r
      → ReportedBy id receipt w0 (act_on fl g d id receipt error w)
  act_on-Reported d error r same e =
      let P = ReportedBy id receipt w0 in
      elim (Bool-cases d.retry) [
        | inl again ↦
            subst P (sym (act_on-retry d error again))
              (retries-Reported d.decided (message error) d.backoff r same e)
        | inr over ↦
            subst P (sym (act_on-fail d error over))
              (fails-Reported d.decided (message error) r same e)
      ]
