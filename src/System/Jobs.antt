-- ===== src/System/Jobs.antt =====
-- No process loses a job or changes what it was made of.
use convoscore.Prelude.{
  ℕ, ◌≤◌, some, List, [], ◌∷◌, ◌≡◌, ◌==◌, if◌then◌else◌, arith, All, refl, subst, sym,
}
use convoscore.Prelude.Maybe.{get_or_else_ind}
use convoscore.Table.{IsKeyed, lookup, touch}
use convoscore.Models.{Uuid, Time, Db, Conversation, is_processing, is_open}
use convoscore.Repository.Jobs.{
  get_job, job_key, create_job, insert_job, new_job, is_claimable, claimed_row, completed_row,
  released_row, failed_row, enqueued_row, enqueue_failed_row,
}
use convoscore.Repository.Effects.{
  IsKeyedDb, claim_job-Updates, complete_job-Updates, release_job-Updates, fail_job-Updates,
  mark_enqueued-Updates, mark_enqueue_failed-Updates,
}
use convoscore.Runtime.{World, Env}
use convoscore.Retry.{Floats}
use convoscore.Queue.{QueueMessage, job_id}
use convoscore.Worker.{Given, process}
use convoscore.Worker.Score.{ReportedBy}
use convoscore.Worker.Process.{KeepsJobs, process-Reported}
use convoscore.Pipeline.{
  Op, create, enqueued, enqueue_failure, claim, complete, release, fail, apply,
}
use convoscore.Pipeline.Invariant.{apply-IsKeyedDb}
use convoscore.Pipeline.Finished.{kept_by_insert}
use convoscore.System.{SameJobs, Reach, Reach-ind, Others}
use convoscore.System.Whole.{
  Act, work, submit, poll, run_acts, env_of, ActOps, Allowed, run_acts-Reach, Others-run_acts,
}

-- The second row is a later state of the first: what the job was created with is the same, and no
-- attempt is forgotten.
abbrev pub Later : Conversation → Conversation → Type 0
Later r s =
    (s.id ≡ r.id)
    × (s.source ≡ r.source)
    × (s.source_ref ≡ r.source_ref)
    × (s.conversation ≡ r.conversation)
    × (s.conversation_hash ≡ r.conversation_hash)
    × (s.message_count ≡ r.message_count)
    × (s.max_attempts ≡ r.max_attempts)
    × (s.created_at ≡ r.created_at)
    × (r.attempt_count ≤ s.attempt_count)

abbrev pub HasLater : Uuid → Conversation → Db → Type 0
HasLater id r db = (s : Conversation) × (get_job id db ≡ some s) × Later r s

apply-HasLater :
    (now : Time) (op : Op) (id : Uuid) (r : Conversation) (db : Db)
    → HasLater id r db
    → HasLater id r (apply now op db)
unfolding apply create_job
apply-HasLater now (create digest j c source n ref) id r db (s, e, same) =
    let job = new_job digest now j c source n ref in
    get_or_else_ind (HasLater id r) (insert_job job db) db
      (λ d made. (s, kept_by_insert job db id s d e made, same)) (s, e, same)
apply-HasLater now (enqueued j) id r db (s, e, same) = (
  if id == j then enqueued_row now s else s,
  ground (arith, mark_enqueued-Updates now j db id),
  ground arith,
)
apply-HasLater now (enqueue_failure j error) id r db (s, e, same) = (
  if id == j then enqueue_failed_row now error s else s,
  ground (arith, mark_enqueue_failed-Updates now j db error id),
  ground arith,
)
apply-HasLater now (claim j timeout) id r db (s, e, same) = (
  if id == j then touch (is_claimable now) (claimed_row now timeout) s else s,
  ground (arith, claim_job-Updates now j db timeout id),
  ground arith,
)
apply-HasLater now (complete j o) id r db (s, e, same) = (
  if id == j then touch (λ r. is_processing r.status) (completed_row now o) s else s,
  ground (arith, complete_job-Updates now j db o id),
  ground arith,
)
apply-HasLater now (release j kind error) id r db (s, e, same) = (
  if id == j then touch (λ r. is_processing r.status) (released_row now kind error) s else s,
  ground (arith, release_job-Updates now j db kind error id),
  ground arith,
)
apply-HasLater now (fail j kind error) id r db (s, e, same) = (
  if id == j then touch (λ r. is_open r.status) (failed_row now kind error) s else s,
  ground (arith, fail_job-Updates now j db kind error id),
  ground arith,
)

HasLater-SameJobs :
    (id : Uuid) (r : Conversation) (db db' : Db)
    → SameJobs db db'
    → HasLater id r db
    → HasLater id r db'
unfolding get_job
HasLater-SameJobs id r db db' e (s, found, same) =
    (s, subst (λ rows. lookup job_key id rows ≡ some s) (sym e) found, same)

module _ {ℓ} (P : Op → Type ℓ) where
  pub Reach-HasLater :
      (id : Uuid) (r : Conversation) (db db' : Db)
      → Reach P db db'
      → HasLater id r db
      → HasLater id r db'
  Reach-HasLater id r db db' reached h =
      Reach-ind (HasLater id r) (λ now op d p f. apply-HasLater now op id r d f)
        (HasLater-SameJobs id r) reached h

  pub Reach-IsKeyedDb : (db db' : Db) → Reach P db db' → IsKeyedDb db → IsKeyedDb db'
  Reach-IsKeyedDb db db' reached h =
      Reach-ind IsKeyedDb (λ now op d p f. apply-IsKeyedDb now op d f)
        (λ d d' e k. subst (λ rows. IsKeyed job_key rows) (sym e) k) reached h

  -- What a worker relies on is true of such processes.
  pub Others-KeepsJobs : (env : Env) → Others P env → KeepsJobs env
  Others-KeepsJobs env others = record {
    keeps_keys = λ n db h. Reach-IsKeyedDb db (env.interfere n db) (others n db) h;
    keeps_jobs = λ n db id r e.
        let (s, found, _) =
          Reach-HasLater id r db (env.interfere n db) (others n db)
            (r, e, (refl, refl, refl, refl, refl, refl, refl, refl, omega arith)) in
        (s, found);
  }

abbrev pub AnyOp : Op → Type 0
AnyOp op = Unit

module _ (fl : Floats) where
  ActOps-AnyOp : (a : Act fl) → ActOps AnyOp fl a
  ActOps-AnyOp (work g _ _ _) = record {
    claims = λ id n. tt;
    completes = λ id n j o e. tt;
    releases = λ id kind error. tt;
    fails = λ id kind error. tt;
  }
  ActOps-AnyOp (submit s _ _) = record {
    creates = λ n c source most ref. tt;
    marks = λ n. tt;
    failures = λ n error. tt;
  }
  ActOps-AnyOp (poll src _ _ _ _) = record {
    creates = λ n c source most ref. tt;
    marks = λ n. tt;
    failures = λ n error. tt;
  }

  -- The act is disturbed by transactions of the pipeline only.
  abbrev pub AmongOthers : Act fl → Type 0
  AmongOthers a = Others AnyOp (env_of a)

  pub Allowed-any : (acts : List (Act fl)) → All AmongOthers acts → All (Allowed AnyOp fl) acts
  Allowed-any [] h = tt
  Allowed-any (a ∷ rest) h = ((h.0, ActOps-AnyOp a), Allowed-any rest h.1)

  -- No job is lost: whatever worker loops, submissions and ingestor loops run, with whatever messages,
  -- objects, answers and failures, every job stays in the table, with the conversation, source, hash,
  -- limit of attempts and creation time that it was created with, and with no attempt forgotten.
  -- What disturbs them is made of the same transactions and of changes of the other tables.
  pub run_acts-Later :
      (acts : List (Act fl)) (id : Uuid) (r : Conversation) (db : Db)
      → All AmongOthers acts
      → get_job id db ≡ some r
      → (s : Conversation) × (get_job id (run_acts acts db) ≡ some s) × Later r s
  run_acts-Later acts id r db h found =
      Reach-HasLater AnyOp id r db (run_acts acts db)
        (run_acts-Reach AnyOp fl acts db (Allowed-any acts h))
        (r, found, (refl, refl, refl, refl, refl, refl, refl, refl, omega arith))

  -- What a worker promises of a message, when before each of its transactions other workers, submissions
  -- and ingestors run in full.
  pub process_among-Reported :
      (g : Given fl) (acts : ℕ → List (Act fl)) (m : QueueMessage) (id : Uuid) (w : World)
      → ((n : ℕ) (db : Db) → g.env.interfere n db ≡ run_acts (acts n) db)
      → ((n : ℕ) → All AmongOthers (acts n))
      → IsKeyedDb w.db
      → job_id g.parser m ≡ some id
      → ReportedBy id m.receipt_handle w (process fl g m w)
  process_among-Reported g acts m id w same h keyed e =
      process-Reported fl g m id w
        (Others-KeepsJobs AnyOp g.env
          (Others-run_acts AnyOp fl g.env acts same (λ n. Allowed-any (acts n) (h n))))
        keyed e
