-- ===== src/Tests/Operations.antt =====
-- Health, metrics, logs and settings on concrete data.
use convoscore.Prelude.{
  ℕ, ◌≤◌, true, false, ◌&&◌, none, some, List, [], ◌∷◌, ◌≡◌, ◌⊎◌, refl, arith, All, leb,
}
use convoscore.Text.{text, starts_with}
use convoscore.Models.{seconds, timeout}
use convoscore.Runtime.{ok, raise, database_error}
use convoscore.Api.Health.{
  Given, HealthDetails, DependencyHealth, health_details, health_details-answer, queue_up,
}
use convoscore.Observability.{route_template, put_back, replace_first}
use convoscore.Observability.Gauges.{Probe, Scrape, scrapes}
use convoscore.Observability.Gauges.Recent.{BothRecent, scrapes_recent}
use convoscore.Configuration.{Settings, openai, within_bounds}
use convoscore.Configuration.Retries.{decide_retry-within_bounds}
use convoscore.Scoring.Provider.{ScoringOutcome, transient_error}
use convoscore.Retry.{decide_retry}
use convoscore.Tests.Data.{quiet, halves, new_row, world_of, good_outcome}

-- The API in demo mode, with a queue that answers.
abbrev healthy_api : Given
healthy_api = record {
  env = quiet;
  has_queue = true;
  answer = λ n. record { number_of_messages = some 3; number_not_visible = none };
  demo_mode = true;
  str_of = λ n. text "n";
  error_text = text "down";
}

health_details-answer_example :
    ((true && false ≡ true)
      × ((health_details healthy_api (world_of new_row)).0 ≡ raise database_error))
    ⊎ ((true && false ≡ false)
        × ((v : HealthDetails healthy_api) × ((health_details healthy_api (world_of new_row)).0
              ≡ ok v)
            × ((p q : DependencyHealth) × (v.dependencies ≡ p ∷ q ∷ [])
                × ((p.name ≡ text "postgres") × (p.healthy ≡ true))
                × ((q.name ≡ text "sqs") × (q.healthy ≡ queue_up healthy_api (world_of new_row))))
            × (v.healthy ≡ (true && queue_up healthy_api (world_of new_row)))))
health_details-answer_example = health_details-answer healthy_api (world_of new_row)

-- An id that occurs earlier in the path takes the placeholder away from its own place.
route_template-misplaced :
    route_template (record {
      method = text "GET";
      path = text "/api/jobs/jobs";
      has_route = true;
      path_params = (text "job_id", text "jobs") ∷ [];
    })
    ≡ text "/api/{job_id}/jobs"
unfolding route_template put_back replace_first starts_with
route_template-misplaced = refl

-- Both queues hold as many messages as the clock shows microseconds.
abbrev growing : Probe
growing label t = some (record { visible = t; in_flight = 0 })

abbrev scrape_at : ℕ → Scrape
scrape_at n = record { now = λ label. seconds n; asks = λ label. 2; waits = λ label. 3 }

scrapes_recent_example :
    All
      (BothRecent 3 growing)
      (scrapes growing (scrape_at 1 ∷ scrape_at 6 ∷ scrape_at 20 ∷ []) (λ label. none))
scrapes_recent_example =
    scrapes_recent 3 growing (scrape_at 1 ∷ scrape_at 6 ∷ scrape_at 20 ∷ [])
      (λ label. omega arith, (λ label. omega arith, (λ label. omega arith, tt)))

abbrev two_outcomes : List ScoringOutcome
two_outcomes = good_outcome ∷ record good_outcome { estimated_cost_usd = none } ∷ []

-- The defaults.
abbrev defaults : Settings
defaults = record {
  environment = text "local";
  component = text "worker";
  log_level = text "INFO";
  log_json = true;
  database_url = none;
  postgres_host = text "localhost";
  postgres_port = 5432;
  postgres_db = text "convoscore";
  postgres_user = text "convoscore";
  postgres_password = text "convoscore";
  db_pool_size = 5;
  db_max_overflow = 5;
  db_statement_timeout_ms = 10000;
  max_attempts = 3;
  visibility_timeout_seconds = 90;
  worker_wait_time_seconds = 20;
  retry_base_backoff_seconds = 5;
  retry_max_backoff_seconds = 60;
  aws_endpoint_url = none;
  aws_region = text "us-east-1";
  aws_access_key_id = none;
  aws_secret_access_key = none;
  sqs_queue_name = text "convoscore-scoring";
  sqs_dlq_name = text "convoscore-scoring-dlq";
  s3_bucket = text "convoscore-conversations";
  s3_prefix = text "incoming/";
  ingest_poll_interval_seconds = 10;
  llm_provider = openai;
  openai_api_key = none;
  openai_model = text "gpt-4.1-mini";
  openai_base_url = none;
  openai_timeout = seconds 30;
  metrics_port = 9100;
  demo_mode = false;
}

decide_retry-within_bounds_example :
    let d = decide_retry halves (transient_error (text "429") timeout) 2 3 5 60 1 in
    (1 ≤ d.backoff) × (d.backoff ≤ 60) × (d.backoff ≤ 900) × ((d.retry && leb 10 2) ≡ false)
unfolding within_bounds
decide_retry-within_bounds_example =
    decide_retry-within_bounds halves defaults (transient_error (text "429") timeout) 2 1 refl
      (omega arith) (omega arith)
