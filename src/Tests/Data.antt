-- ===== src/Tests/Data.antt =====
-- A conversation, its job, and a worker with a provider, a queue and a clock to run it.
use convoscore.Prelude.{
  ℕ, zero, suc, ◌+◌, ◌*◌, ◌/◌, ◌≤◌, false, Option, none, some, [], ◌∷◌, refl, arith,
}
use convoscore.Prelude.Int.{ℤ, pos}
use convoscore.Text.{Text, text}
use convoscore.Json.{Json, str, int, end, field}
use convoscore.Models.{api, seconds, Conversation, Db, positive, timeout}
use convoscore.Schemas.{Coercion, ConversationInput, customer, agent, Digest}
use convoscore.Scoring.Provider.{ScoringOutcome, Attempt, scored, llm_error, transient_error}
use convoscore.Repository.Jobs.{new_job, claimed_row, completed_row}
use convoscore.Runtime.{World, Env}
use convoscore.Queue.{QueueMessage, Parser}
use convoscore.Retry.{Floats}
use convoscore.Worker.{WorkerSettings, Given}

abbrev as_str_of : Json → Option Text
as_str_of (str s) = some s
as_str_of _ = none

abbrev as_int_of : Json → Option ℤ
as_int_of (int n) = some n
as_int_of _ = none

-- No conversions at all, as pydantic in its strict mode.
abbrev pub strict : Coercion
strict = record {
  as_str = as_str_of;
  as_int = as_int_of;
  as_str-str = λ s. refl;
  as_int-int = λ n. refl;
}

abbrev pub plain : Digest
plain = record { dumps = λ j. text "json"; sha256 = λ t. t }

-- Fixed-point numbers with one binary digit after the point.
mul_mono : (c a b : ℕ) → a ≤ b → c * a ≤ c * b
mul_mono zero a b h = omega arith
mul_mono (suc c) a b h = omega (arith, mul_mono c a b h)

pub times_halves_mono : (c a b : ℕ) → a ≤ b → (2 * c) * a / 2 ≤ (2 * c) * b / 2
times_halves_mono c a b h = omega (arith, mul_mono c a b h)

abbrev pub halves : Floats
halves = record {
  Float = ℕ;
  of_int = λ c. 2 * c;
  half = 1;
  plus = λ a b. a + b;
  times = λ a b. a * b / 2;
  trunc = λ a. a / 2;
  Le = λ a b. a ≤ b;
  plus_mono = λ a b c h. omega arith;
  times_mono = times_halves_mono;
  half_mono = λ a b h. omega arith;
  trunc_mono = λ a b h. omega arith;
  half_zero = refl;
  half_one = refl;
  times_one = λ c h. omega arith;
  times_half = λ c h. omega arith;
}

abbrev pub complaint : ConversationInput
complaint = record {
  messages =
      record { role = customer; content = text "Refund!" }
      ∷ record { role = agent; content = text "Done." }
      ∷ [];
  metadata = record { channel = some (text "chat"); tags = text "vip" ∷ []; external_id = none };
}

-- The job 7 as the API creates it.
abbrev pub new_row : Conversation
new_row = new_job plain 0 7 complaint api 3 none

abbrev pub db_of : Conversation → Db
db_of r = record { conversations = r ∷ []; ingested_objects = []; demo_failure_tokens = [] }

abbrev pub good_outcome : ScoringOutcome
good_outcome = record {
  result = record { sentiment = positive; risk_score = pos 12; rationale = text "Resolved." };
  model = text "gpt-4.1-mini";
  prompt_tokens = some 10;
  completion_tokens = some 4;
  total_tokens = some 14;
  latency_ms = 900;
  estimated_cost_usd = some 1040;
  prompt_version = text "v1";
  schema_version = text "1";
  pricing_version = text "2026-09";
}

-- Claimed at 5 s for 60 s, and scored at 9 s.
abbrev pub claimed_job : Conversation
claimed_job = claimed_row (seconds 5) 60 new_row

abbrev pub finished_job : Conversation
finished_job = completed_row (seconds 9) good_outcome claimed_job

-- One second passes between two transactions, and nothing fails.
abbrev pub quiet : Env
quiet = record {
  now = λ n. seconds (n + 10);
  interfere = λ n db. db;
  db_fails = λ n. false;
  sqs_fails = λ n. false;
  arrives = λ n. false;
  resolve = λ n. some (text "queue");
}

abbrev pub message_7 : QueueMessage
message_7 = record {
  message_id = text "m";
  receipt_handle = text "r";
  body = field (text "job_id") (str (text "7")) end;
  receive_count = 1;
}

abbrev pub settings_3 : WorkerSettings
settings_3 = record {
  max_attempts = 3;
  visibility_timeout_seconds = 60;
  retry_base_backoff_seconds = 2;
  retry_max_backoff_seconds = 30;
}

abbrev pub parser_7 : Parser
parser_7 = record { loads = λ t. none; parse_uuid = λ t. some 7 }

abbrev pub worker_of : Attempt → Given halves
worker_of a = record {
  env = quiet;
  settings = settings_3;
  parser = parser_7;
  answer = λ n j. a;
  jitter = λ n. 1;
}

-- A provider that scores, and one that always times out.
abbrev pub scoring_worker : Given halves
scoring_worker = worker_of (scored good_outcome)

abbrev pub timing_out_worker : Given halves
timing_out_worker = worker_of (llm_error (transient_error (text "timed out") timeout))

abbrev pub world_of : Conversation → World
world_of r = record {
  db = db_of r;
  transactions = 0;
  requests = 0;
  scored = 0;
  queue_url = none;
  sent = [];
}
