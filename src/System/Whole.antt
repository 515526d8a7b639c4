-- ===== src/System/Whole.antt =====
-- The whole system: worker loops, submissions and ingestor loops on one database, one after the other,
-- and each disturbed by others before every transaction.
use convoscore.Prelude.{ℕ, Option, List, [], ◌∷◌, ◌≡◌, All}
use convoscore.Models.{Db}
use convoscore.Schemas.{ConversationInput}
use convoscore.Storage.{Item}
use convoscore.Runtime.{World, Env}
use convoscore.Queue.{RawMessage}
use convoscore.Retry.{Floats}
use convoscore.Pipeline.{Op}
use convoscore.Worker
use convoscore.Worker.{Given}
use convoscore.Api.Conversations.{Server, submit_conversation}
use convoscore.Ingestor
use convoscore.Ingestor.{Source}
use convoscore.System.{Reach, here, Reach-trans, Others}
use convoscore.System.Workers
use convoscore.System.Workers.{WorkerOps}
use convoscore.System.Sources.{SourceOps, submit_conversation-Keeps}
use convoscore.System.Polling

-- A worker until its stop request, a request to the API, or an ingestor until its stop request, each
-- in its own world.
pub data Act (fl : Floats) : Type 0 where
  work : Given fl → List (List RawMessage) → ℕ → World → Act fl
  submit : Server → ConversationInput → World → Act fl
  poll : Source → List (Option (List (List Item))) → ℕ → Option ℕ → World → Act fl

-- The database that the act leaves of the one that it finds.
unfoldable pub run_act : {fl : Floats} → Act fl → Db → Db
run_act {fl} (work g inboxes errors w) db =
    (Worker.run_forever fl g inboxes errors (record w { db = db })).db
run_act (submit s c w) db = (submit_conversation s c (record w { db = db })).1.db
run_act (poll src passes n last w) db =
    (Ingestor.run_forever src passes n last (record w { db = db })).1.db

unfoldable pub run_acts : {fl : Floats} → List (Act fl) → Db → Db
run_acts [] db = db
run_acts (a ∷ rest) db = run_acts rest (run_act a db)

abbrev pub env_of : {fl : Floats} → Act fl → Env
env_of (work g _ _ _) = g.env
env_of (submit s _ _) = s.env
env_of (poll src _ _ _ _) = src.env

module _ {ℓ} (P : Op → Type ℓ) (fl : Floats) where
  -- The operations of the act.
  abbrev pub ActOps : Act fl → Type ℓ
  ActOps (work g _ _ _) = WorkerOps P fl g
  ActOps (submit s _ _) = SourceOps P s.digest s.uuid4
  ActOps (poll src _ _ _ _) = SourceOps P src.digest src.uuid4

  -- The act does such operations, and so do all that disturb it.
  abbrev pub Allowed : Act fl → Type ℓ
  Allowed a = Others P (env_of a) × ActOps a

  pub run_act-Reach : (a : Act fl) (db : Db) → Allowed a → Reach P db (run_act a db)
  unfolding run_act
  run_act-Reach (work g inboxes errors w) db (others, ops) =
      Workers.run_forever-Keeps P fl g others ops inboxes errors (record w { db = db })
  run_act-Reach (submit s c w) db (others, ops) =
      submit_conversation-Keeps P s others ops c (record w { db = db })
  run_act-Reach (poll src passes n last w) db (others, ops) =
      Polling.run_forever-Keeps P src others ops passes n last (record w { db = db })

  pub run_acts-Reach :
      (acts : List (Act fl)) (db : Db) → All Allowed acts → Reach P db (run_acts acts db)
  unfolding run_acts
  run_acts-Reach [] db h = here
  run_acts-Reach (a ∷ rest) db h =
      Reach-trans (run_act-Reach a db h.0) (run_acts-Reach rest (run_act a db) h.1)

  -- Processes may be disturbed by processes that are run in the same way.
  pub Others-run_acts :
      (env : Env) (acts : ℕ → List (Act fl))
      → ((n : ℕ) (db : Db) → env.interfere n db ≡ run_acts (acts n) db)
      → ((n : ℕ) → All Allowed (acts n))
      → Others P env
  Others-run_acts env acts same h n db = rw (same n db) (run_acts-Reach (acts n) db (h n))
