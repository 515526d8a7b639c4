-- ===== src/System/Outcomes.antt =====
-- What the running system keeps of the table of jobs.
use convoscore.Prelude.{ℕ, true, false, some, List, [], ◌∷◌, ◌≡◌, ◌==◌, All, subst, sym}
use convoscore.Json.{Json}
use convoscore.Models.{Uuid, Db, Conversation, is_terminal}
use convoscore.Scoring.Provider.{ScoringOutcome, scored}
use convoscore.Scoring.Contract.Laws.{ResultFits}
use convoscore.Repository.Jobs.{get_job, job_key}
use convoscore.Repository.Rows.{RowFits}
use convoscore.Table.{IsKeyed, lookup}
use convoscore.Retry.{Floats}
use convoscore.Pipeline.Invariant.{JobsFit, OpFits, apply-IsKeyedDb, apply-RowsFit}
use convoscore.Pipeline.Finished.{
  NoEnqueueFailure, HasOutcome, SameOutcome, SameOutcome-refl, apply-HasOutcome,
}
use convoscore.System.{SameJobs, Reach, Reach-ind, Others}
use convoscore.System.Whole.{
  Act, work, submit, poll, run_acts, env_of, ActOps, Allowed, run_acts-Reach,
}

JobsFit-SameJobs : (db db' : Db) → SameJobs db db' → JobsFit db → JobsFit db'
JobsFit-SameJobs db db' e h = record {
  keyed = subst (λ rows. IsKeyed job_key rows) (sym e) h.keyed;
  rows = subst (λ rows. All RowFits rows) (sym e) h.rows;
}

pub Reach-JobsFit : (db db' : Db) → Reach OpFits db db' → JobsFit db → JobsFit db'
Reach-JobsFit db db' r h =
    Reach-ind JobsFit
      (λ now op d p f. record {
        keyed = apply-IsKeyedDb now op d f.keyed;
        rows = apply-RowsFit now op d p f.rows;
      })
      JobsFit-SameJobs r h

HasOutcome-SameJobs :
    (id : Uuid) (r : Conversation) (db db' : Db)
    → SameJobs db db'
    → HasOutcome id r db
    → HasOutcome id r db'
unfolding get_job
HasOutcome-SameJobs id r db db' e (s, found, same) =
    (s, subst (λ rows. lookup job_key id rows ≡ some s) (sym e) found, same)

pub Reach-HasOutcome :
    (id : Uuid) (r : Conversation) (db db' : Db)
    → is_terminal r.status ≡ true
    → Reach (NoEnqueueFailure id) db db'
    → HasOutcome id r db
    → HasOutcome id r db'
Reach-HasOutcome id r db db' t reached h =
    Reach-ind (HasOutcome id r) (λ now op d p f. apply-HasOutcome now op id r d t p f)
      (HasOutcome-SameJobs id r) reached h

module _ (fl : Floats) where
  -- The provider's scores meet the contract.
  abbrev pub AnswersFit : Act fl → Type 0
  AnswersFit (work g _ _ _) =
      (n : ℕ) (j : Json) (o : ScoringOutcome) → g.answer n j ≡ scored o → ResultFits o.result
  AnswersFit _ = Unit

  abbrev pub ActFits : Act fl → Type 0
  ActFits a = Others OpFits (env_of a) × AnswersFit a

  ActOps-OpFits : (a : Act fl) → AnswersFit a → ActOps OpFits fl a
  ActOps-OpFits (work g _ _ _) h = record {
    claims = λ id n. tt;
    completes = λ id n j o e. h n j o e;
    releases = λ id kind error. tt;
    fails = λ id kind error. tt;
  }
  ActOps-OpFits (submit s _ _) h = record {
    creates = λ n c source most ref. tt;
    marks = λ n. tt;
    failures = λ n error. tt;
  }
  ActOps-OpFits (poll src _ _ _ _) h = record {
    creates = λ n c source most ref. tt;
    marks = λ n. tt;
    failures = λ n error. tt;
  }

  -- The ids that the act draws are not this one.
  abbrev pub Draws : Uuid → Act fl → Type 0
  Draws id (work _ _ _ _) = Unit
  Draws id (submit s _ _) = (n : ℕ) → (id == s.uuid4 n) ≡ false
  Draws id (poll src _ _ _ _) = (n : ℕ) → (id == src.uuid4 n) ≡ false

  abbrev pub LeavesAlone : Uuid → Act fl → Type 0
  LeavesAlone id a = Others (NoEnqueueFailure id) (env_of a) × Draws id a

  ActOps-NoEnqueueFailure :
      (id : Uuid) (a : Act fl) → Draws id a → ActOps (NoEnqueueFailure id) fl a
  ActOps-NoEnqueueFailure id (work g _ _ _) h = record {
    claims = λ id n. tt;
    completes = λ id n j o e. tt;
    releases = λ id kind error. tt;
    fails = λ id kind error. tt;
  }
  ActOps-NoEnqueueFailure id (submit s _ _) h = record {
    creates = λ n c source most ref. tt;
    marks = λ n. tt;
    failures = λ n error. h n;
  }
  ActOps-NoEnqueueFailure id (poll src _ _ _ _) h = record {
    creates = λ n c source most ref. tt;
    marks = λ n. tt;
    failures = λ n error. h n;
  }

  Allowed-fits : (acts : List (Act fl)) → All ActFits acts → All (Allowed OpFits fl) acts
  Allowed-fits [] h = tt
  Allowed-fits (a ∷ rest) h = ((h.0.0, ActOps-OpFits a h.0.1), Allowed-fits rest h.1)

  Allowed-alone :
      (id : Uuid) (acts : List (Act fl))
      → All (LeavesAlone id) acts
      → All (Allowed (NoEnqueueFailure id) fl) acts
  Allowed-alone id [] h = tt
  Allowed-alone id (a ∷ rest) h =
      ((h.0.0, ActOps-NoEnqueueFailure id a h.0.1), Allowed-alone id rest h.1)

  -- Whatever worker loops, submissions and ingestor loops run, with whatever messages, objects and
  -- failures, and disturbed before every transaction by others like them, a well-formed table of jobs
  -- stays well formed.
  -- The providers' scores meet the contract.
  pub run_acts-JobsFit :
      (acts : List (Act fl)) (db : Db) → All ActFits acts → JobsFit db → JobsFit (run_acts acts db)
  run_acts-JobsFit acts db h fit =
      Reach-JobsFit db (run_acts acts db) (run_acts-Reach OpFits fl acts db (Allowed-fits acts h))
        fit

  -- Nothing of the row of a completed or failed job changes but the times of its enqueueing and of its
  -- last update, so its status, score, attempts, costs, tokens, error with its text and completion time
  -- stay, whatever worker loops, submissions and ingestor loops run, with whatever messages, objects and
  -- failures, and disturbed before every transaction by others like them.
  -- None of them draws the job's id as a new one.
  pub run_acts-finished :
      (acts : List (Act fl)) (id : Uuid) (r : Conversation) (db : Db)
      → All (LeavesAlone id) acts
      → get_job id db ≡ some r
      → is_terminal r.status ≡ true
      → (s : Conversation) × (get_job id (run_acts acts db) ≡ some s) × SameOutcome s r
  run_acts-finished acts id r db h found t =
      Reach-HasOutcome id r db (run_acts acts db) t
        (run_acts-Reach (NoEnqueueFailure id) fl acts db (Allowed-alone id acts h))
        (r, found, SameOutcome-refl r)
