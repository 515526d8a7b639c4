-- ===== src/System.antt =====
-- All processes on one database, as a step relation: a step is one operation of the pipeline or a change
-- of the other tables, and what a process leaves is reachable from what it found. `P` says which
-- operations there are.
pub mod Actions
pub mod Workers
pub mod Sources
pub mod Ingestion
pub mod Polling
pub mod Whole
pub mod Jobs
pub mod Outcomes
pub mod Served
use convoscore.Prelude.{ℕ, ◌≡◌, refl}
use convoscore.Models.{Time, Db}
use convoscore.Runtime.{Env}
use convoscore.Pipeline.{Op, apply}

abbrev pub SameJobs : Db → Db → Type 0
SameJobs db db' = db'.conversations ≡ db.conversations

pub data Step {ℓ} (P : Op → Type ℓ) (db db' : Db) : Type ℓ where
  transacts : (now : Time) (op : Op) → P op → SameJobs (apply now op db) db' → Step P db db'
  elsewhere : SameJobs db db' → Step P db db'

pub data Reach {ℓ} (P : Op → Type ℓ) (db : Db) : Db → Type ℓ where
  here : Reach P db db
  next : {mid last : Db} → Reach P db mid → Step P mid last → Reach P db last

pub Reach-trans {ℓ} : {P : Op → Type ℓ} {a b c : Db} → Reach P a b → Reach P b c → Reach P a c
Reach-trans r here = r
Reach-trans r (next s step) = next (Reach-trans r s) step

-- The other processes are ones of these.
abbrev pub Others {ℓ} : (Op → Type ℓ) → Env → Type ℓ
Others P env = (n : ℕ) (db : Db) → Reach P db (env.interfere n db)

-- What every operation keeps and what depends on the jobs alone holds of all that is reachable.
pub Reach-ind {ℓ κ} :
    {P : Op → Type ℓ} (Q : Db → Type κ) {db db' : Db}
    → ((now : Time) (op : Op) (d : Db) → P op → Q d → Q (apply now op d))
    → ((d d' : Db) → SameJobs d d' → Q d → Q d')
    → Reach P db db'
    → Q db
    → Q db'
Reach-ind Q keep same here q = q
Reach-ind Q keep same (next r (transacts now op p e)) q =
    same _ _ e (keep now op _ p (Reach-ind Q keep same r q))
Reach-ind Q keep same (next r (elsewhere e)) q = same _ _ e (Reach-ind Q keep same r q)
