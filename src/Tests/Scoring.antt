-- ===== src/Tests/Scoring.antt =====
-- Input validation, the scoring contract, the providers and the failures of the demo.
use convoscore.Prelude.{
  ◌-◌, min, Bool, true, false, none, some, [], ◌∷◌, ◌≡◌, ◌≢◌, ◌↔◌, refl, arith,
}
use convoscore.Prelude.Int.{pos}
use convoscore.Table.{lookup}
use convoscore.Text.{text, ◌is◌}
use convoscore.Json.{Json, str, int, obj, end, field, get_field}
use convoscore.Models.{FailureMode, malformed}
use convoscore.Schemas.{model_validate, normalized, validate_str, total_chars, only_known}
use convoscore.Schemas.Laws.{InputFits, model_validate-fits, model_validate-normalized}
use convoscore.Scoring.Contract.{
  RiskBand, band, risk_band, validate_result, validate_sentiment, validate_risk,
}
use convoscore.Scoring.Contract.Laws.{ResultFits, validate_result-fits}
use convoscore.Scoring.Pricing.{price_for, estimate_cost, exact_price, token_cost, round_half_up}
use convoscore.Scoring.Pricing.Laws.{Estimated, estimate_cost_iff}
use convoscore.Scoring.Provider.{
  ScoringOutcome, scored, llm_error, crashed, SdkClass, rate_limit_error, api_status_error,
  SdkError, Response, response, sdk, OpenAi, classify_provider_error, served_model, usage_of,
  read_response, openai_score,
}
use convoscore.Scoring.Provider.Laws.{
  by_status, classify-status, read_response-scored, openai_score-ne-crashed,
}
use convoscore.Scoring.Fake.{FakeProvider, fake_score}
use convoscore.Scoring.Fake.Laws.{FakeFits, fake_score-normalized}
use convoscore.Demo.{Tokens, state, total, fault_injecting_score}
use convoscore.Demo.Laws.{
  consume_times, consume_times-total, first_armed, mode_error, attempt_of,
  fault_injecting_score_lem,
}
use convoscore.Tests.Data.{strict, complaint, good_outcome}

complaint-InputFits : InputFits complaint
unfolding total_chars
complaint-InputFits = ground arith

model_validate-normalized_example : model_validate strict (normalized complaint) ≡ some complaint
model_validate-normalized_example = model_validate-normalized strict complaint complaint-InputFits

model_validate-fits_example : InputFits complaint
model_validate-fits_example =
    model_validate-fits strict (normalized complaint) {c = complaint}
      model_validate-normalized_example

abbrev reply_json : Json
reply_json = obj (
    field (text "sentiment") (str (text "positive")) (
      field (text "risk_score") (int (pos 12))
        (field (text "rationale") (str (text "Resolved.")) end)))

validate_result-fits_example :
    ResultFits good_outcome.result × ((b : RiskBand) × (risk_band (some (pos 12)) ≡ band b))
unfolding validate_result validate_sentiment validate_risk validate_str only_known get_field ◌is◌
validate_result-fits_example = validate_result-fits strict reply_json {s = good_outcome.result} refl

estimate_cost_iff_example :
    (estimate_cost (text "gpt-4.1-mini") (some 10) (some 4) ≡ some 1040)
    ↔ Estimated (text "gpt-4.1-mini") (some 10) (some 4) 1040
estimate_cost_iff_example = estimate_cost_iff (text "gpt-4.1-mini") (some 10) (some 4) 1040

-- The cost of `good_outcome`.
estimate_cost-good_outcome : estimate_cost (text "gpt-4.1-mini") (some 10) (some 4) ≡ some 1040
unfolding estimate_cost price_for exact_price token_cost round_half_up ◌is◌
estimate_cost-good_outcome = refl

abbrev is_instance_429 : SdkClass → Bool
is_instance_429 rate_limit_error = true
is_instance_429 api_status_error = true
is_instance_429 _ = false

abbrev too_many_requests : SdkError
too_many_requests = record {
  is_instance = is_instance_429;
  status_code = some 429;
  as_str = text "slow down";
  type_name = text "RateLimitError";
}

classify-status_example :
    classify_provider_error true (sdk too_many_requests) ≡ by_status 429 (text "slow down")
classify-status_example = classify-status too_many_requests 429 (record {
  carries = refl;
  status_class = refl;
  no_timeout = refl;
  no_connection = refl;
  is_429 = refl;
  is_5xx = refl;
  is_401 = refl;
  is_403 = refl;
  is_400 = refl;
  is_404 = refl;
})

abbrev good_response : Response
good_response = record {
  output_parsed = some reply_json;
  status = text "completed";
  model = some (text "gpt-4.1-mini");
  usage = some (record { input_tokens = some 10; output_tokens = some 4; total_tokens = none });
}

abbrev openai : OpenAi
openai = record {
  py = strict;
  upper = λ t. t;
  parse = λ t. response good_response;
  importable = true;
  explain = λ j. [];
  configured_model = text "gpt-4.1-mini";
  latency_ms = 900;
}

read_response-scored_example :
    ResultFits good_outcome.result
    × (good_outcome.estimated_cost_usd ≡ estimate_cost (text "gpt-4.1-mini") (some 10) (some 4))
unfolding read_response validate_result only_known ◌is◌ get_field validate_sentiment validate_risk
    validate_str served_model usage_of estimate_cost price_for exact_price token_cost round_half_up
read_response-scored_example = read_response-scored openai good_response {o = good_outcome} refl

openai_score-ne-crashed_example : openai_score openai (normalized complaint) ≢ crashed
openai_score-ne-crashed_example = openai_score-ne-crashed openai complaint

abbrev fake : FakeProvider
fake = record {
  upper = λ t. t;
  lower = λ t. t;
  digest = λ t n. n;
  model = text "fake";
  latency_ms = 1;
}

fake_score-normalized_example :
    (o : ScoringOutcome) × (fake_score fake (normalized complaint) ≡ scored o) × FakeFits o.result
fake_score-normalized_example = fake_score-normalized fake complaint

-- Two timeouts and one malformed answer are armed.
abbrev three_tokens : Tokens
three_tokens =
    record { mode = malformed; remaining = 1; armed_at = none }
    ∷ record { mode = FailureMode.timeout; remaining = 2; armed_at = none }
    ∷ []

consume_times-total_example :
    ((consume_times 5 three_tokens).0 ≡ min 5 (total (state three_tokens)))
    × (total (state (consume_times 5 three_tokens).1) ≡ total (state three_tokens) - 5)
unfolding lookup
consume_times-total_example = consume_times-total 5 three_tokens (refl, (refl, tt))

fault_injecting_score_lem_example :
    (fault_injecting_score strict [] (λ j. scored good_outcome) false reply_json three_tokens).0
    ≡ attempt_of
        (λ m. llm_error (mode_error [] m))
        (λ j. scored good_outcome)
        reply_json
        (first_armed three_tokens)
unfolding lookup
fault_injecting_score_lem_example =
    fault_injecting_score_lem strict [] (λ j. scored good_outcome) false reply_json three_tokens
      (refl, (refl, tt))
