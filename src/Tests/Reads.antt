-- ===== src/Tests/Reads.antt =====
-- The endpoints that read: pages, browsing and the overview.
use convoscore.Prelude.{none, some, [], ◌∷◌}
use convoscore.Text.{text}
use convoscore.Models.{seconds, Conversation, Db, api}
use convoscore.Repository.Jobs.{new_job}
use convoscore.Repository.Reads.{Filters}
use convoscore.Runtime.{World}
use convoscore.Tests.Data.{plain, complaint, new_row, finished_job, world_of}

-- A pending job, a younger one, and a completed one.
abbrev younger : Conversation
younger = new_job plain (seconds 3) 8 complaint api 3 none

abbrev three : Db
three = record {
  conversations = new_row ∷ younger ∷ record finished_job { id = 9 } ∷ [];
  ingested_objects = [];
  demo_failure_tokens = [];
}

abbrev from_api : Filters
from_api = record {
  status = some (text "pending");
  source = some (text "api");
  sentiment = none;
  min_risk = none;
}

abbrev world_of_new : World
world_of_new = world_of new_row
