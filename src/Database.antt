-- ===== src/Database.antt =====
-- app/db.py: the waits at start-up, and the check behind the readiness probe. `time.monotonic` is a
-- clock that each attempt and each sleep moves on; connections and their answers are parameters, by
-- the number of the attempt. The engine and its sessions are SQLAlchemy's.
pub mod Waits
use convoscore.Prelude.{
  ℕ, zero, suc, ◌+◌, Bool, true, false, ◌&&◌, Option, none, some, if◌then◌else◌, leb,
}
use convoscore.Models.{Time}

-- How long the caller waits, and how the clock moves: an attempt takes `spends`, and `time.sleep` takes
-- `oversleeps` more than `interval`.
pub record Pace : Type 0 where
  pub timeout : Time
  pub interval : Time
  pub spends : ℕ → Time
  pub oversleeps : ℕ → Time

-- PostgreSQL, by the number of the connection.
pub record Postgres : Type 0 where
  -- `SELECT 1` goes through
  pub connects : ℕ → Bool
  -- `to_regclass` finds the table
  pub exists : ℕ → Bool

pub data WaitError : Type 0 where
  sqlalchemy_error timeout_error : WaitError

-- The number of the last attempt, and the clock after it.
pub data Waited : Type 0 where
  ready : ℕ → Time → Waited
  raised : WaitError → ℕ → Time → Waited

-- `ping`.
abbrev pub ping : Postgres → ℕ → Bool
ping db n = db.connects n

abbrev pub after_attempt : Pace → ℕ → Time → Time
after_attempt p n t = t + p.spends n

abbrev pub after_sleep : Pace → ℕ → Time → Time
after_sleep p n t = after_attempt p n t + p.interval + p.oversleeps n

-- The loop of both waits: an attempt, the end of the deadline, a sleep. The first number is fuel, and
-- `none` is a loop that still runs when it is used up.
unfoldable pub wait_until : ℕ → Pace → (ℕ → Bool) → WaitError → Time → ℕ → Time → Option Waited
wait_until zero p attempt error deadline n t = none
wait_until (suc fuel) p attempt error deadline n t =
    let rest = wait_until fuel p attempt error deadline (suc n) (after_sleep p n t) in
    if attempt n
    then some (ready n (after_attempt p n t))
    else if leb deadline (after_attempt p n t)
    then some (raised error n (after_attempt p n t))
    else rest

unfoldable pub wait_for_database : ℕ → Pace → Postgres → Time → Option Waited
wait_for_database fuel p db t = wait_until fuel p db.connects sqlalchemy_error (t + p.timeout) 0 t

-- `if exists`, where a failed connection gives None.
abbrev pub finds_schema : Postgres → ℕ → Bool
finds_schema db n = db.connects n && db.exists n

-- What follows the wait for the database, with a deadline of its own.
unfoldable pub after_database : ℕ → Pace → Postgres → Waited → Option Waited
after_database fuel p db (ready n t) =
    wait_until fuel p (finds_schema db) timeout_error (t + p.timeout) (suc n) t
after_database fuel p db (raised e n t) = some (raised e n t)

abbrev pub then_schema : ℕ → Pace → Postgres → Option Waited → Option Waited
then_schema fuel p db none = none
then_schema fuel p db (some w) = after_database fuel p db w

unfoldable pub wait_for_schema : ℕ → Pace → Postgres → Time → Option Waited
wait_for_schema fuel p db t = then_schema fuel p db (wait_for_database fuel p db t)
