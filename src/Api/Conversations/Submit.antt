-- ===== src/Api/Conversations/Submit.antt =====
-- What `POST /conversations` leaves behind, whatever fails and whatever the others do meanwhile.
use convoscore.Prelude.{
  Bool, true, false, sym, Bool-cases, ℕ, suc, ◌==◌, none, some, List, ◌∷◌, ◌≡◌, ◌⊎◌, refl, ap, ◌∙◌,
  subst, arith, inl, inr, if◌then◌else◌, Option-cases, option_map,
}
use convoscore.Models.{Uuid, Time, Conversation, Db, api}
use convoscore.Schemas.{ConversationInput}
use convoscore.Repository.Jobs.{
  get_job, new_job, create_job, mark_enqueued, mark_enqueue_failed, enqueued_row,
  enqueue_failed_row, insert_job,
}
use convoscore.Repository.Effects.{
  get_job-insert_job, insert_job-taken, mark_enqueued-Updates, mark_enqueue_failed-Updates,
}
use convoscore.Runtime.{
  Request, send_message, World, Env, Result, ok, raise, publish_error, database_error, seen, pure,
}
use convoscore.Queue.{publish}
use convoscore.Queue.Laws.{publish-SameState, publish-Sends}
use convoscore.Api.Session.{
  opened, flush_ind, commit_session_ind, commit_session-fails, commit_session-works,
}
use convoscore.Api.Conversations.{
  JobCreatedResponse, job_accepted, job_refused, Server, created, created_and_enqueued,
  created_and_failed, accept, refuse, after_publish, submit_conversation,
}

-- `db'` is `db` with one more job.
abbrev pub Adds : Uuid → Conversation → Db → Db → Type 0
Adds id row db db' = (j : Uuid) → get_job j db' ≡ (if j == id then some row else get_job j db)

module _ (s : Server) (now : Time) (id : Uuid) (c : ConversationInput) where
  -- The row as `create_job` flushes it.
  abbrev pub flushed_row : Conversation
  flushed_row = new_job s.digest now id c api s.max_attempts none

  module _ (db : Db) (fresh : get_job id db ≡ none) where
    pub created-Adds : (db' : Db) × (created s now id c db ≡ some db') × Adds id flushed_row db db'
    unfolding create_job
    created-Adds = elim (Option-cases (insert_job flushed_row db)) [
      | inl e ↦
          let (r, found) = insert_job-taken flushed_row db e in
          absurd (ground (arith, fresh, found))
      | inr (db', e) ↦ (db', e, λ j. get_job-insert_job flushed_row db j e)
    ]

    pub created_and_enqueued-Adds :
        (db' : Db) × (created_and_enqueued s now id c db ≡ some db')
        × Adds id (enqueued_row now flushed_row) db db'
    created_and_enqueued-Adds =
        let (db1, e, adds) = created-Adds in
        (
          mark_enqueued now id db1,
          ap (option_map (mark_enqueued now id)) e,
          λ j. ground (arith, adds j, mark_enqueued-Updates now id db1 j),
        )

    pub created_and_failed-Adds :
        (db' : Db) × (created_and_failed s now id c db ≡ some db')
        × Adds id (enqueue_failed_row now s.publish_error_text flushed_row) db db'
    created_and_failed-Adds =
        let (db1, e, adds) = created-Adds in
        (
          mark_enqueue_failed now id s.publish_error_text db1,
          ap (option_map (mark_enqueue_failed now id s.publish_error_text)) e,
          λ j.
              ground (arith, adds j, mark_enqueue_failed-Updates now id db1 s.publish_error_text j),
        )

-- `uuid.uuid4()` gave an id that nobody else uses.
abbrev pub Unused : Env → Uuid → World → Type 0
Unused env id w =
    (get_job id w.db ≡ none)
    × ((n : ℕ) (db : Db) → get_job id db ≡ none → get_job id (env.interfere n db) ≡ none)

-- What the commit after a 202 leaves: the job, or nothing when the commit fails.
abbrev pub Committed : Uuid → Conversation → Bool → Db → Db → Type 0
Committed id row fails db db' =
    ((fails ≡ false) × Adds id row db db') ⊎ ((fails ≡ true) × (db' ≡ db) × (get_job id db' ≡ none))

-- The message was sent or not: the call raised.
abbrev pub MaySend : Uuid → List Request → List Request → Type 0
MaySend id before after = (after ≡ before) ⊎ (after ≡ send_message id ∷ before)

-- How a submission may end: accepted, recorded as failed, or an exception and no job at all. The others
-- have left `first` by its first statement and `db` by its commit; `fails` is whether the commit does.
abbrev pub Ended :
    Server
    → Time
    → Uuid
    → ConversationInput
    → List Request
    → Db
    → Db
    → Bool
    → Result JobCreatedResponse × World
    → Type 0
Ended s now id c sent first db fails (ok r, w) =
    (r.job_id ≡ id)
    × (((r.status_code ≡ 202)
          × (w.sent ≡ send_message id ∷ sent)
          × Committed id (enqueued_row now (flushed_row s now id c)) fails db w.db)
        ⊎ ((r.status_code ≡ 503)
            × MaySend id sent w.sent
            × Adds id (enqueue_failed_row now s.publish_error_text (flushed_row s now id c)) db
                w.db))
Ended s now id c sent first db fails (raise e, w) =
    (e ≡ database_error)
    × (get_job id w.db ≡ none)
    × (((w.db ≡ first) × (w.sent ≡ sent)) ⊎ ((w.db ≡ db) × MaySend id sent w.sent))

module _ (s : Server) (now : Time) (id : Uuid) (c : ConversationInput) (first : Db) (w : World)
    (unused : Unused s.env id w) where
  abbrev EndedHere : List Request → Result JobCreatedResponse × World → Type 0
  EndedHere sent = Ended s now id c sent first (seen s.env w) (s.env.db_fails w.transactions)

  accept-Ended :
      (sent : List Request) → w.sent ≡ send_message id ∷ sent → EndedHere sent (accept s now id c w)
  unfolding accept
  accept-Ended sent e =
      let fresh : get_job id (seen s.env w) ≡ none = unused.1 w.transactions w.db unused.0 in
      let writes = created_and_enqueued s now id c in
      let (db', written, adds) = created_and_enqueued-Adds s now id c (seen s.env w) fresh in
      let P = λ (q : Result (Unit {0}) × World). EndedHere sent (ok (job_accepted id), q.1) in
      elim (Bool-cases (s.env.db_fails w.transactions)) [
        | inl fails ↦
            subst P (sym (commit_session-fails s.env writes w db' written fails))
              (refl, inl (refl, e, inr (fails, refl, fresh)))
        | inr works ↦
            subst P (sym (commit_session-works s.env writes w db' written works))
              (refl, inl (refl, e, inl (works, adds)))
      ]

  refuse-Ended :
      (sent : List Request) → MaySend id sent w.sent → EndedHere sent (refuse s now id c w)
  unfolding refuse
  refuse-Ended sent e =
      let fresh : get_job id (seen s.env w) ≡ none = unused.1 w.transactions w.db unused.0 in
      let (db', written, adds) = created_and_failed-Adds s now id c (seen s.env w) fresh in
      commit_session_ind s.env (created_and_failed s now id c) w db' written (EndedHere sent)
        (λ _. pure (job_refused id)) (refl, fresh, inr (refl, e)) (refl, inr (refl, e, adds))

  -- What follows the publication, from the world in which it left the request.
  after_publish-Ended :
      (sent : List Request) (r : Result (Unit {0}))
      → ((r ≡ ok tt) × (w.sent ≡ send_message id ∷ sent))
        ⊎ ((r ≡ raise publish_error) × MaySend id sent w.sent)
      → EndedHere sent (after_publish s now id c (r, w))
  unfolding after_publish
  after_publish-Ended sent r (inl (e, carried)) = rw e (accept-Ended sent carried)
  after_publish-Ended sent r (inr (e, may)) = rw e (refuse-Ended sent may)

seen_after-publish :
    (env : Env) (id : Uuid) (w : World)
    → seen env (publish env id (opened env w)).1 ≡ env.interfere (suc w.transactions) (seen env w)
seen_after-publish env id w =
    let same = publish-SameState env (opened env w) id in
    ap (env.interfere (publish env id (opened env w)).1.transactions) same.same_db
    ∙ ap (λ n. env.interfere n (seen env w)) same.same_transactions

pub submit_conversation-Ended :
    (s : Server) (c : ConversationInput) (w : World)
    → Unused s.env (s.uuid4 w.transactions) w
    → Ended s
        (s.env.now w.transactions)
        (s.uuid4 w.transactions)
        c
        w.sent
        (seen s.env w)
        (s.env.interfere (suc w.transactions) (seen s.env w))
        (s.env.db_fails (suc w.transactions))
        (submit_conversation s c w)
unfolding submit_conversation
submit_conversation-Ended s c w unused =
    let now = s.env.now w.transactions in
    let id = s.uuid4 w.transactions in
    let first = seen s.env w in
    let w1 = opened s.env w in
    let fresh : get_job id w1.db ≡ none = unused.1 w.transactions w.db unused.0 in
    let (db', allowed, adds) = created-Adds s now id c w1.db fresh in
    let w2 = (publish s.env id w1).1 in
    let same = publish-SameState s.env w1 id in
    let fresh_after : get_job id w2.db ≡ none = ap (get_job id) same.same_db ∙ fresh in
    let rest = after_publish s now id c (publish s.env id w1) in
    let ended =
      after_publish-Ended s now id c first w2 (fresh_after, unused.1) w.sent (publish s.env id w1).0
        (publish-Sends s.env w1 id) in
    flush_ind s.env (created s now id c) w db' allowed
      (Ended s now id c w.sent first (s.env.interfere (suc w.transactions) first)
        (s.env.db_fails (suc w.transactions)))
      (λ _ w'. after_publish s now id c (publish s.env id w')) (refl, fresh, inl (refl, refl))
      (subst
        (λ fails.
          Ended s now id c w.sent first (s.env.interfere (suc w.transactions) first) fails rest)
        (ap s.env.db_fails same.same_transactions)
        (subst (λ db. Ended s now id c w.sent first db (s.env.db_fails w2.transactions) rest)
          (seen_after-publish s.env id w) ended))
