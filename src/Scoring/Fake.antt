-- ===== src/Scoring/Fake.antt =====
-- `FakeProvider` of app/scoring/provider.py. `str.lower` and the SHA-256 digest of a text, as a
-- function from the index of a byte, are parameters.
pub mod Laws
use convoscore.Prelude.{
  ℕ, ◌+◌, ◌/◌, ◌%◌, max, Bool, true, false, Option, none, some, List, [], ◌∷◌, any, length, leb,
  ◌==◌, if◌then◌else◌,
}
use convoscore.Prelude.Int.{ℤ, pos}
use convoscore.Text.{Text, text, is_in}
use convoscore.Json.{Json}
use convoscore.Models.{Sentiment, positive, neutral, negative}
use convoscore.Scoring.Contract.{ScoringResult, new_result, prompt_version, schema_version}
use convoscore.Scoring.Pricing.{pricing_version}
use convoscore.Scoring.Prompt.{build_user_input}
use convoscore.Scoring.Provider.{ScoringOutcome, Attempt, scored, crashed}

pub record FakeProvider : Type 0 where
  pub upper : Text → Text
  pub lower : Text → Text
  pub digest : Text → ℕ → ℕ
  pub model : Text
  pub latency_ms : ℕ

abbrev pub urgent_words : List Text
urgent_words = text "cancel" ∷ text "lawyer" ∷ text "legal" ∷ text "breach" ∷ text "sue" ∷ []

abbrev pub high_words : List Text
high_words = text "refund" ∷ text "manager" ∷ text "supervisor" ∷ text "unacceptable" ∷ []

abbrev pub moderate_words : List Text
moderate_words = text "still" ∷ text "again" ∷ text "third time" ∷ text "waiting" ∷ []

-- `any(word in lowered for word in words)`.
unfoldable pub mentions : List Text → Text → Bool
mentions words lowered = any (λ w. is_in w lowered) words

unfoldable pub fake_risk : Text → ℕ → ℕ → ℕ
fake_risk lowered d0 d1 =
    if mentions urgent_words lowered
    then 76 + d1 % 24
    else if mentions high_words lowered
    then 51 + d1 % 25
    else if mentions moderate_words lowered
    then 26 + d1 % 25
    else d0 % 40

unfoldable pub fake_sentiment : ℕ → ℕ → Sentiment
fake_sentiment risk d2 =
    if leb 51 risk
    then negative
    else if leb 26 risk
    then neutral
    else if d2 % 2 == 0
    then neutral
    else positive

abbrev pub fake_rationale : Text
fake_rationale =
    text "Deterministic fake score derived from the conversation content (no model was called)."

-- The `ScoringOutcome` that is returned.
abbrev pub fake_outcome : FakeProvider → Text → ScoringResult → ScoringOutcome
fake_outcome p transcript result =
    let prompt = max 1 (length transcript / 4) in
    record {
      result = result;
      model = p.model;
      prompt_tokens = some prompt;
      completion_tokens = some 40;
      total_tokens = some (prompt + 40);
      latency_ms = p.latency_ms;
      estimated_cost_usd = some 0;
      prompt_version = prompt_version;
      schema_version = schema_version;
      pricing_version = pricing_version;
    }

unfoldable pub fake_score : FakeProvider → Json → Attempt
fake_score p conversation = elim (build_user_input p.upper conversation) [
  | none ↦ crashed
  | some transcript ↦
      let risk = fake_risk (p.lower transcript) (p.digest transcript 0) (p.digest transcript 1) in
      let mood = fake_sentiment risk (p.digest transcript 2) in
      elim (new_result mood (pos risk) fake_rationale) [
        | none ↦ crashed
        | some result ↦ scored (fake_outcome p transcript result)
      ]
]
