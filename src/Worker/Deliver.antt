-- ===== src/Worker/Deliver.antt =====
-- A message that keeps being delivered to a worker.
pub mod Advances
pub mod Finishes
use convoscore.Prelude.{ℕ, zero, suc, false, none, ◌≡◌}
use convoscore.Models.{Db, Conversation, pending}
use convoscore.Runtime.{World, Env}
use convoscore.Queue.{QueueMessage}
use convoscore.Retry.{Floats}
use convoscore.Worker.{Given, process}

-- The same message again and again, each time as SQS redelivers it, whatever the call before
-- returned or raised.
unfoldable pub deliver : (fl : Floats) (g : Given fl) → ℕ → QueueMessage → World → World
deliver fl g zero m w = w
deliver fl g (suc n) m w = deliver fl g n m (process fl g m w).1

-- A job that waits for an attempt.
abbrev pub Waits : ℕ → Conversation → Type 0
Waits a r = (r.status ≡ pending) × (r.locked_until ≡ none) × (r.attempt_count ≡ a)

-- The database answers and nobody else changes it.
pub record Alone (env : Env) : Type 0 where
  pub untouched : (n : ℕ) (db : Db) → env.interfere n db ≡ db
  pub answers : (n : ℕ) → env.db_fails n ≡ false
