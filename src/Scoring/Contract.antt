-- ===== src/Scoring/Contract.antt =====
-- app/scoring/contract.py: risk bands and the structured output that the model must return.
pub mod Laws
use convoscore.Prelude.{
  ℕ, ◌≤◌, Bool, true, false, ◌&&◌, Option, none, some, List, [], ◌∷◌, length, leb, if◌then◌else◌,
}
use convoscore.Prelude.Int.{ℤ, pos, leb_ℤ}
use convoscore.Prelude.Maybe.{◌>>=◌, ◌>>◌, guard}
use convoscore.Text.{Text, text, ◌is◌}
use convoscore.Json.{Json, str, obj, Fields, get_field}
use convoscore.Models.{Sentiment, positive, neutral, negative}
use convoscore.Schemas.{Coercion, only_known, validate_str}

abbrev pub prompt_version : Text
prompt_version = text "v1"

abbrev pub schema_version : Text
schema_version = text "1"

abbrev pub rationale_max_chars : ℕ
rationale_max_chars = 300

pub data RiskBand : Type 0 where
  low moderate high urgent : RiskBand

abbrev pub band_value : RiskBand → Text
band_value low = text "low_concern"
band_value moderate = text "moderate_concern"
band_value high = text "high_concern"
band_value urgent = text "urgent_escalation"

abbrev pub band_label : RiskBand → Text
band_label low = text "Low concern"
band_label moderate = text "Moderate concern"
band_label high = text "High concern"
band_label urgent = text "Urgent / escalation"

abbrev pub band_upper_bounds : List (ℕ × RiskBand)
band_upper_bounds = (25, low) ∷ (50, moderate) ∷ (75, high) ∷ (100, urgent) ∷ []

-- `risk_band` returns a band or `None`, or raises one of its two exceptions.
pub data BandResult : Type 0 where
  band : RiskBand → BandResult
  no_band value_error assertion_error : BandResult

-- The `for` loop of `risk_band`.
unfoldable pub find_band : List (ℕ × RiskBand) → ℤ → BandResult
find_band [] r = assertion_error
find_band ((upper, b) ∷ rest) r = if leb_ℤ r (pos upper) then band b else find_band rest r

unfoldable pub risk_band : Option ℤ → BandResult
unfolding find_band
risk_band none = no_band
risk_band (some r) =
    if leb_ℤ (pos 0) r && leb_ℤ r (pos 100) then find_band band_upper_bounds r else value_error

pub record ScoringResult : Type 0 where
  pub sentiment : Sentiment
  pub risk_score : ℤ
  pub rationale : Text

-- `Literal["positive", "neutral", "negative"]`.
unfoldable pub validate_sentiment : Json → Option Sentiment
validate_sentiment (str s) =
    if s is text "positive"
    then some positive
    else if s is text "neutral"
    then some neutral
    else if s is text "negative"
    then some negative
    else none
validate_sentiment _ = none

-- `int = Field(ge=0, le=100)`.
unfoldable pub validate_risk : Coercion → Json → Option ℤ
validate_risk py j = do r ← py.as_int j; guard (leb_ℤ (pos 0) r && leb_ℤ r (pos 100)); some r

-- `ScoringResult.model_validate`.
unfoldable pub validate_result : Coercion → Json → Option ScoringResult
validate_result py (obj fs) = do
  guard (only_known (text "sentiment" ∷ text "risk_score" ∷ text "rationale" ∷ []) fs)
  sentiment ← get_field (text "sentiment") fs >>= validate_sentiment
  risk_score ← get_field (text "risk_score") fs >>= validate_risk py
  rationale ← get_field (text "rationale") fs >>= validate_str py 1 rationale_max_chars
  some (record { sentiment = sentiment; risk_score = risk_score; rationale = rationale })
validate_result py _ = none

-- `ScoringResult(sentiment=..., risk_score=..., rationale=...)`: the same checks on typed values.
unfoldable pub new_result : Sentiment → ℤ → Text → Option ScoringResult
new_result sentiment risk rationale = do
  guard (leb_ℤ (pos 0) risk && leb_ℤ risk (pos 100))
  guard (leb 1 (length rationale) && leb (length rationale) rationale_max_chars)
  some (record { sentiment = sentiment; risk_score = risk; rationale = rationale })
