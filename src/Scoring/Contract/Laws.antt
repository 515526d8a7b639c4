-- ===== src/Scoring/Contract/Laws.antt =====
-- The risk bands, and what an accepted scoring result guarantees.
use convoscore.Prelude.{
  ℕ, ◌≤◌, some, List, [], ◌∷◌, length, if◌then◌else◌, ◌≡◌, ◌↔◌, arith, ◌≢◌, subst,
}
use convoscore.Prelude.Int.{ℤ, pos, leb_ℤ, ◌≤ℤ◌}
use convoscore.Prelude.Maybe.{◌>>=◌, guard, >>=-eq-some, some_inj}
use convoscore.Text.{Text, text}
use convoscore.Json.{Json, obj, get_field}
use convoscore.Models.{Sentiment}
use convoscore.Schemas.{Coercion, only_known, validate_str}
use convoscore.Schemas.Laws.{validate_str-fits}
use convoscore.Scoring.Contract.{
  RiskBand, low, moderate, high, urgent, band, value_error, assertion_error, risk_band,
  ScoringResult, validate_sentiment, validate_risk, validate_result, new_result,
  rationale_max_chars,
}

abbrev pub InRange : ℤ → Type 0
InRange r = (pos 0 ≤ℤ r) × (r ≤ℤ pos 100)

-- The lowest and the highest score of a band, as the rubric gives them.
abbrev pub band_low : RiskBand → ℕ
band_low low = 0
band_low moderate = 26
band_low high = 51
band_low urgent = 76

abbrev pub band_high : RiskBand → ℕ
band_high low = 25
band_high moderate = 50
band_high high = 75
band_high urgent = 100

-- A score gets a band exactly when it lies between the band's two ends.
pub risk_band_iff :
    (r : ℤ) (b : RiskBand)
    → (risk_band (some r) ≡ band b) ↔ ((pos (band_low b) ≤ℤ r) × (r ≤ℤ pos (band_high b)))
unfolding risk_band
risk_band_iff r low = ground arith
risk_band_iff r moderate = ground arith
risk_band_iff r high = ground arith
risk_band_iff r urgent = ground arith

abbrev nearest_band : ℤ → RiskBand
nearest_band r =
    if leb_ℤ r (pos 25)
    then low
    else if leb_ℤ r (pos 50)
    then moderate
    else if leb_ℤ r (pos 75)
    then high
    else urgent

pub risk_band-InRange : (r : ℤ) → InRange r → (b : RiskBand) × (risk_band (some r) ≡ band b)
unfolding risk_band
risk_band-InRange r h = (nearest_band r, ground arith)

-- `ValueError` is raised exactly for the scores outside 0 to 100, and the `AssertionError` at the
-- end of the loop never.
pub risk_band_raises :
    (r : ℤ)
    → ((risk_band (some r) ≡ value_error) ↔ (¬ InRange r)) × (risk_band (some r) ≢ assertion_error)
unfolding risk_band
risk_band_raises r = (ground arith, ground arith)

abbrev result_names : List Text
result_names = text "sentiment" ∷ text "risk_score" ∷ text "rationale" ∷ []

pub record ResultFits (s : ScoringResult) : Type 0 where
  pub risk_fits : InRange s.risk_score
  pub some_rationale : 1 ≤ length s.rationale
  pub rationale_fits : length s.rationale ≤ rationale_max_chars

validate_risk-fits : (py : Coercion) (j : Json) {r : ℤ} → validate_risk py j ≡ some r → InRange r
unfolding validate_risk
validate_risk-fits py j h = ground arith

-- A response that passes validation has a risk score from 0 to 100 and a rationale of 1 to 300
-- characters, and its `band` property cannot raise.
pub validate_result-fits :
    (py : Coercion) (j : Json) {s : ScoringResult}
    → validate_result py j ≡ some s
    → ResultFits s × ((b : RiskBand) × (risk_band (some s.risk_score) ≡ band b))
unfolding validate_result
validate_result-fits py (obj fs) {s} h =
    let (_, _, h₁) = >>=-eq-some (guard (only_known result_names fs)) _ h in
    let (mood, _, h₂) = >>=-eq-some (get_field (text "sentiment") fs >>= validate_sentiment) _ h₁ in
    let (risk, e₁, h₃) = >>=-eq-some (get_field (text "risk_score") fs >>= validate_risk py) _ h₂ in
    let (why, e₂, h₄) =
      >>=-eq-some (get_field (text "rationale") fs >>= validate_str py 1 rationale_max_chars)
        (λ x. some (record { sentiment = mood; risk_score = risk; rationale = x })) h₃ in
    let (j₁, _, e₃) = >>=-eq-some (get_field (text "risk_score") fs) (validate_risk py) e₁ in
    let (j₂, _, e₄) =
      >>=-eq-some (get_field (text "rationale") fs) (validate_str py 1 rationale_max_chars) e₂ in
    let (lo, hi) = validate_str-fits py 1 rationale_max_chars j₂ e₄ in
    let fits : ResultFits s = subst ResultFits (some_inj h₄) (record {
      risk_fits = validate_risk-fits py j₁ e₃;
      some_rationale = lo;
      rationale_fits = hi;
    }) in
    (fits, risk_band-InRange s.risk_score fits.risk_fits)
validate_result-fits py _ h = cc

pub new_result-fits :
    (m : Sentiment) (r : ℤ) (why : Text) {s : ScoringResult}
    → new_result m r why ≡ some s
    → ResultFits s
unfolding new_result
new_result-fits m r why h = ground arith
