-- ===== src/Scoring/Pricing.antt =====
-- app/scoring/pricing.py. A price is in cents per million tokens, a cost in units of 1e-8 USD, so
-- Python's `Decimal` is exact on both as long as a sum stays within its 28 digits.
pub mod Laws
use convoscore.Prelude.{
  ℕ, ◌+◌, ◌*◌, ◌/◌, Bool, true, false, Option, none, some, List, [], ◌∷◌, if◌then◌else◌,
}
use convoscore.Text.{Text, text, ◌is◌, starts_with}

abbrev pub pricing_version : Text
pricing_version = text "2026-09"

pub record ModelPrice : Type 0 where
  pub input_per_million : ℕ
  pub output_per_million : ℕ

abbrev price : ℕ → ℕ → ModelPrice
price i o = record { input_per_million = i; output_per_million = o }

abbrev pub prices : List (Text × ModelPrice)
prices =
    (text "gpt-4.1-mini", price 40 160)
    ∷ (text "gpt-4.1-nano", price 10 40)
    ∷ (text "gpt-4o-mini", price 15 60)
    ∷ (text "gpt-5-mini", price 25 200)
    ∷ (text "gpt-5-nano", price 5 40)
    ∷ []

-- `PRICES[model]` where `model in PRICES`.
unfoldable pub exact_price : Text → List (Text × ModelPrice) → Option ModelPrice
exact_price model [] = none
exact_price model ((name, p) ∷ rest) = if name is model then some p else exact_price model rest

-- The loop over `PRICES.items()`.
unfoldable pub prefix_price : Text → List (Text × ModelPrice) → Option ModelPrice
prefix_price model [] = none
prefix_price model ((name, p) ∷ rest) =
    if starts_with name model then some p else prefix_price model rest

unfoldable pub price_for : Text → Option ModelPrice
price_for model = elim (exact_price model prices) [
  | some p ↦ some p
  | none ↦ prefix_price model prices
]

-- `Decimal.quantize(..., rounding=ROUND_HALF_UP)` of num / den to a whole number of units.
unfoldable pub round_half_up : ℕ → ℕ → ℕ
round_half_up num den = (2 * num + den) / (2 * den)

-- `cost` is the sum in cents divided by `_PER_MILLION`; a unit is 1e-8 USD, or 1e-6 cents.
unfoldable pub token_cost : ModelPrice → ℕ → ℕ → ℕ
token_cost p prompt completion =
    round_half_up ((prompt * p.input_per_million + completion * p.output_per_million) * 1000000)
      1000000

unfoldable pub estimate_cost : Text → Option ℕ → Option ℕ → Option ℕ
estimate_cost model (some prompt) (some completion) = elim (price_for model) [
  | none ↦ none
  | some p ↦ some (token_cost p prompt completion)
]
estimate_cost model _ _ = none
