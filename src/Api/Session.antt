-- ===== src/Api/Session.antt =====
-- app/api/deps.py: the one transaction of a request, which stays open while the handler runs and
-- commits when `get_db` resumes. FastAPI resumes it after the response has been sent (uv.lock pins
-- 0.141.1; so it is from 0.118 on), so that no failure of that commit changes what the client was
-- told. What a handler has flushed is known to its own session alone; `writes` gives it as a function
-- of the database, which PostgreSQL reaches at the commit since nobody else can change the flushed
-- rows before. `none` is a violated constraint.
use convoscore.Prelude.{
  subst, true, false, Option, none, some, suc, if◌then◌else◌, ◌≡◌, refl, sym, Bool-cases, inl, inr,
}
use convoscore.Models.{Db}
use convoscore.Runtime.{
  World, Env, Result, ok, raise, database_error, integrity_error, M, ◌>>=◌, seen, bind_ok,
  bind_raise,
}

abbrev pub Writes : Type 0
Writes = Db → Option Db

-- The session's first statements: the transaction opens and nothing is visible of it yet.
unfoldable pub flush : Env → Writes → M (Unit {0})
flush env writes w =
    let before = seen env w in
    let w' = record w { db = before; transactions = suc w.transactions } in
    if env.db_fails w.transactions
    then (raise database_error, w')
    else elim (writes before) [ none ↦ (raise integrity_error, w') | some _ ↦ (ok tt, w') ]

-- `session.commit()`, with a rollback when it fails.
unfoldable pub commit_session : Env → Writes → M (Unit {0})
commit_session env writes w =
    let before = seen env w in
    let w' = record w { db = before; transactions = suc w.transactions } in
    if env.db_fails w.transactions then (raise database_error, w') else elim (writes before) [
      | none ↦ (raise integrity_error, w')
      | some db ↦ (ok tt, record w' { db = db })
    ]

-- The answer of a handler is sent, and then `get_db` resumes and commits: a failure of the commit is
-- only logged.
abbrev pub respond : {A : Type 0} → A → M (Unit {0}) → M A
respond a commits w = (ok a, (commits w).1)

-- A request that only reads.
unfoldable pub read_only : {A : Type 0} → Env → (Db → Result A) → M A
read_only env answer w =
    let before = seen env w in
    let w' = record w { db = before; transactions = suc w.transactions } in
    if env.db_fails w.transactions then (raise database_error, w') else (answer before, w')

-- The world once a session's statement or commit has let the others in.
abbrev pub opened : Env → World → World
opened env w = record w { db = seen env w; transactions = suc w.transactions }

module _ (env : Env) (writes : Writes) (w : World) (db' : Db)
    (allowed : writes (seen env w) ≡ some db') where
  flush-fails :
      env.db_fails w.transactions ≡ true → flush env writes w ≡ (raise database_error, opened env w)
  unfolding flush
  flush-fails h = rw h refl

  pub flush-works : env.db_fails w.transactions ≡ false → flush env writes w ≡ (ok tt, opened env w)
  unfolding flush
  flush-works h = rw (h, allowed) refl

  pub commit_session-fails :
      env.db_fails w.transactions ≡ true
      → commit_session env writes w ≡ (raise database_error, opened env w)
  unfolding commit_session
  commit_session-fails h = rw h refl

  pub commit_session-works :
      env.db_fails w.transactions ≡ false
      → commit_session env writes w ≡ (ok tt, record (opened env w) { db = db' })
  unfolding commit_session
  commit_session-works h = rw (h, allowed) refl

  -- What follows a statement that the constraints allow.
  pub flush_ind {κ} :
      {B : Type 0} (P : Result B × World → Type κ) (f : Unit {0} → M B)
      → P (raise database_error, opened env w)
      → P (f tt (opened env w))
      → P ((flush env writes >>= f) w)
  flush_ind P f failed worked = elim (Bool-cases (env.db_fails w.transactions)) [
    | inl fails ↦ subst P (sym (bind_raise (flush env writes) f w (flush-fails fails))) failed
    | inr works ↦ subst P (sym (bind_ok (flush env writes) f w (flush-works works))) worked
  ]

  pub commit_session_ind {κ} :
      {B : Type 0} (P : Result B × World → Type κ) (f : Unit {0} → M B)
      → P (raise database_error, opened env w)
      → P (f tt (record (opened env w) { db = db' }))
      → P ((commit_session env writes >>= f) w)
  commit_session_ind P f failed worked = elim (Bool-cases (env.db_fails w.transactions)) [
    | inl fails ↦
        subst P (sym (bind_raise (commit_session env writes) f w (commit_session-fails fails)))
          failed
    | inr works ↦
        subst P (sym (bind_ok (commit_session env writes) f w (commit_session-works works))) worked
  ]
