-- ===== src/Migrations/Runner.antt =====
-- app/migrate.py: the run of the migrations at the start of an API pod. What Alembic does is a parameter;
-- every call may raise.
use convoscore.Prelude.{
  ℕ, suc, ◌+◌, ◌*◌, ◌≤◌, ◌≡◌, ◌⊎◌, inl, inr, refl, Bool, true, false, ◌||◌, Option, some, List, [],
  ◌∷◌, ◌++◌, if◌then◌else◌, option_map, arith, Bool-cases,
}
use convoscore.Models.{Time}
use convoscore.Database.{Pace, Postgres, Waited, ready, raised, sqlalchemy_error, wait_for_database}
use convoscore.Database.Waits.{wait_until_ends}

abbrev pub migration_lock_id : ℕ
migration_lock_id = 8233517001

pub data Statement : Type 0 where
  pg_advisory_lock pg_advisory_unlock : ℕ → Statement
  upgrade_head commit_connection : Statement

abbrev pub lock_statement : Statement
lock_statement = pg_advisory_lock migration_lock_id

abbrev pub unlock_statement : Statement
unlock_statement = pg_advisory_unlock migration_lock_id

-- Whether the settings load, `engine.connect()` succeeds, and which statements raise.
pub record Migration : Type 0 where
  pub loads : Bool
  pub opens : Bool
  pub raises : Statement → Bool

-- What has been issued so far, the oldest first, and whether an exception is on its way.
pub record Ran : Type 0 where
  pub issued : List Statement
  pub is_raised : Bool

abbrev pub nothing : Bool → Ran
nothing b = record { issued = []; is_raised = b }

module _ (m : Migration) where
  unfoldable pub issue : Statement → Ran → Ran
  issue q r =
      if r.is_raised then r else record { issued = r.issued ++ q ∷ []; is_raised = m.raises q }

  -- The body of a `finally:`.
  unfoldable pub finally : Statement → Ran → Ran
  finally q r = record { issued = r.issued ++ q ∷ []; is_raised = r.is_raised || m.raises q }

  -- `with engine.connect() as connection:`
  unfoldable pub under_lock : Ran
  under_lock =
      let locked = issue lock_statement (nothing false) in
      if locked.is_raised
      then locked
      else finally unlock_statement (issue commit_connection (issue upgrade_head locked))

  abbrev pub after_wait : Waited → Ran
  after_wait (ready _ _) = if m.opens then under_lock else nothing true
  after_wait (raised _ _ _) = nothing true

  -- The fuel is that of the wait for the database.
  unfoldable pub run_migrations : ℕ → Pace → Postgres → Time → Option Ran
  run_migrations fuel p db t =
      if m.loads then option_map after_wait (wait_for_database fuel p db t) else some (nothing true)

  abbrev pub exit_status : Ran → ℕ
  exit_status r = if r.is_raised then 1 else 0

  unfoldable pub main : ℕ → Pace → Postgres → Time → Option ℕ
  main fuel p db t = option_map exit_status (run_migrations fuel p db t)

  -- No migration without the lock, and no lock that is not given back.
  abbrev pub Orderly : Ran → Type 0
  Orderly r =
      ((r.is_raised ≡ true) × ((r.issued ≡ []) ⊎ (r.issued ≡ lock_statement ∷ [])))
      ⊎ ((r.is_raised ≡ true)
          × (m.raises upgrade_head ≡ true)
          × (r.issued ≡ lock_statement ∷ upgrade_head ∷ unlock_statement ∷ []))
      ⊎ ((r.is_raised ≡ (m.raises commit_connection || m.raises unlock_statement))
          × (m.raises upgrade_head ≡ false)
          × (r.issued ≡ lock_statement ∷ upgrade_head ∷ commit_connection ∷ unlock_statement ∷ []))

  under_lock-Orderly : Orderly under_lock
  unfolding under_lock issue finally
  under_lock-Orderly = elim (Bool-cases (m.raises lock_statement)) [
    | inl refused ↦ rw refused (inl (refl, inr refl))
    | inr locked ↦ elim (Bool-cases (m.raises upgrade_head)) [
      | inl failed ↦ rw (locked, failed) (inr (inl (refl, refl, refl)))
      | inr done ↦ rw (locked, done) (inr (inr (refl, refl, refl)))
    ]
  ]

  after_wait-Orderly : (w : Waited) → Orderly (after_wait w)
  unfolding under_lock issue finally
  after_wait-Orderly (ready _ _) = elim (Bool-cases m.opens) [
    | inl reached ↦ rw reached under_lock-Orderly
    | inr closed ↦ rw closed (inl (refl, inl refl))
  ]
  after_wait-Orderly (raised _ _ _) = inl (refl, inl refl)

module _ (m : Migration) (p : Pace) (db : Postgres) (most : ℕ)
    (enough : p.timeout ≤ most * p.interval) where
  -- The run of the migrations ends, and with exit status 0 exactly when nothing was raised. Nothing is
  -- migrated before the advisory lock is granted, and once it is, giving it back is the last statement of
  -- all, whether the migration or its commit succeeded or not; the commit is tried only after a migration
  -- that succeeded.
  -- `most` sleeps are as long as the timeout of the wait for the database.
  pub main_ends :
      (t : Time)
      → (r : Ran) × (run_migrations m (suc most) p db t ≡ some r)
        × (main m (suc most) p db t ≡ some (if r.is_raised then 1 else 0))
        × Orderly m r
  unfolding run_migrations main wait_for_database
  main_ends t = elim (Bool-cases m.loads) [
    | inl loaded ↦
        let (w, e, _) =
          wait_until_ends p db.connects sqlalchemy_error (t + p.timeout) most 0 t
            (omega (arith, enough)) in
        (after_wait m w, rw (loaded, e) refl, rw (loaded, e) refl, after_wait-Orderly m w)
    | inr missing ↦ (nothing true, rw missing refl, rw missing refl, inl (refl, inl refl))
  ]
