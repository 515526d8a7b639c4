-- ===== src/Configuration.antt =====
-- app/config.py: the settings that the processes read, with the bounds of pydantic's `Field`, and
-- app/factories.py: the choice of the provider. The environment's parsing is the library's. The
-- temperature is left out.
pub mod Retries
use convoscore.Prelude.{
  ℕ, Bool, true, false, not, ◌&&◌, ◌||◌, Option, none, some, List, [], ◌∷◌, ◌++◌, leb,
  if◌then◌else◌, get_or_else,
}
use convoscore.Text.{Text, text, ◌is◌}

pub data LlmProvider : Type 0 where
  openai fake : LlmProvider

pub record Settings : Type 0 where
  pub environment : Text
  pub component : Text
  pub log_level : Text
  pub log_json : Bool
  pub database_url : Option Text
  pub postgres_host : Text
  pub postgres_port : ℕ
  pub postgres_db : Text
  pub postgres_user : Text
  pub postgres_password : Text
  pub db_pool_size : ℕ
  pub db_max_overflow : ℕ
  pub db_statement_timeout_ms : ℕ
  pub max_attempts : ℕ
  pub visibility_timeout_seconds : ℕ
  pub worker_wait_time_seconds : ℕ
  pub retry_base_backoff_seconds : ℕ
  pub retry_max_backoff_seconds : ℕ
  pub aws_endpoint_url : Option Text
  pub aws_region : Text
  pub aws_access_key_id : Option Text
  pub aws_secret_access_key : Option Text
  pub sqs_queue_name : Text
  pub sqs_dlq_name : Text
  pub s3_bucket : Text
  pub s3_prefix : Text
  pub ingest_poll_interval_seconds : ℕ
  pub llm_provider : LlmProvider
  pub openai_api_key : Option Text
  pub openai_model : Text
  pub openai_base_url : Option Text
  -- in microseconds
  pub openai_timeout : ℕ
  pub metrics_port : ℕ
  pub demo_mode : Bool

abbrev pub between : ℕ → ℕ → ℕ → Bool
between low high n = leb low n && leb n high

-- The bounds of the fields; settings outside them are a ValidationError at start-up.
unfoldable pub within_bounds : Settings → Bool
within_bounds s =
    between 1 10 s.max_attempts
    && (between 10 900 s.visibility_timeout_seconds
        && (leb s.worker_wait_time_seconds 20
            && (between 1 60 s.retry_base_backoff_seconds
                && (between 1 900 s.retry_max_backoff_seconds
                    && (between 1 3600 s.ingest_poll_interval_seconds && leb 1 s.openai_timeout)))))

abbrev pub url_of_parts : (ℕ → Text) → Settings → Text
url_of_parts str_of s =
    text "postgresql+psycopg://"
    ++ s.postgres_user
    ++ text ":"
    ++ s.postgres_password
    ++ text "@"
    ++ s.postgres_host
    ++ text ":"
    ++ str_of s.postgres_port
    ++ text "/"
    ++ s.postgres_db

-- `sqlalchemy_url`: an empty `database_url` counts as none. `str_of` prints a number.
abbrev pub url_or_parts : (ℕ → Text) → Settings → Option Text → Text
url_or_parts str_of s (some (c ∷ url)) = c ∷ url
url_or_parts str_of s _ = url_of_parts str_of s

unfoldable pub sqlalchemy_url : (ℕ → Text) → Settings → Text
sqlalchemy_url str_of s = url_or_parts str_of s s.database_url

pub data Setting : Type 0 where
  word : Text → Setting
  flag : Bool → Setting
  number : ℕ → Setting

abbrev pub shown_model : LlmProvider → Text → Text
shown_model openai model = model
shown_model fake model = text "fake-model"

abbrev pub provider_name : LlmProvider → Text
provider_name openai = text "openai"
provider_name fake = text "fake"

unfoldable pub safe_summary : Settings → List (Text × Setting)
safe_summary s =
    (text "environment", word s.environment)
    ∷ (text "component", word s.component)
    ∷ (text "demo_mode", flag s.demo_mode)
    ∷ (text "max_attempts", number s.max_attempts)
    ∷ (text "llm_provider", word (provider_name s.llm_provider))
    ∷ (text "model", word (shown_model s.llm_provider s.openai_model))
    ∷ (text "queue", word s.sqs_queue_name)
    ∷ (text "bucket", word s.s3_bucket)
    ∷ (text "prefix", word s.s3_prefix)
    ∷ []

-- `bool(key.strip())`: some character is no white space.
unfoldable pub not_blank : (ℕ → Bool) → Text → Bool
not_blank is_space [] = false
not_blank is_space (c ∷ s) = not (is_space c) || not_blank is_space s

unfoldable pub openai_key_configured : (ℕ → Bool) → Settings → Bool
openai_key_configured is_space s = not_blank is_space (get_or_else s.openai_api_key [])

pub data Provider : Type 0 where
  fake_provider : Provider
  openai_provider : Text → Text → ℕ → Option Text → Provider

-- `build_provider`; `none` is the RuntimeError of a missing key, or the failed assertion after it.
abbrev pub with_key : Settings → Option Text → Option Provider
with_key s none = none
with_key s (some key) = some (openai_provider key s.openai_model s.openai_timeout s.openai_base_url)

abbrev pub build_for : LlmProvider → (ℕ → Bool) → Settings → Option Provider
build_for fake is_space s = some fake_provider
build_for openai is_space s =
    if openai_key_configured is_space s then with_key s s.openai_api_key else none

unfoldable pub build_provider : (ℕ → Bool) → Settings → Option Provider
build_provider is_space s = build_for s.llm_provider is_space s
