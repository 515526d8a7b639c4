-- ===== src/Scoring/Pricing/Laws.antt =====
-- Prices of dated snapshots, and the exactness of an estimate.
use convoscore.Prelude.{
  ℕ, ◌+◌, ◌*◌, Option, none, some, ◌++◌, ◌≡◌, refl, arith, ◌↔◌, All, inl, inr, Option-cases,
}
use convoscore.Text.{Text, ◌is◌, starts_with}
use convoscore.Scoring.Pricing.{
  ModelPrice, prices, exact_price, prefix_price, price_for, round_half_up, token_cost,
  estimate_cost,
}

-- A dated snapshot of a listed model, such as "gpt-4.1-mini-2025-04-14", has that model's
-- price, and so has the bare name.
pub price_for-snapshot : (suffix : Text) → All (λ e. price_for (e.0 ++ suffix) ≡ some e.1) prices
unfolding price_for exact_price prefix_price starts_with ◌is◌
price_for-snapshot suffix = ground arith

-- An estimate is the exact price of the tokens: rounding to eight decimals loses nothing.
pub token_cost-exact :
    (p : ModelPrice) (prompt completion : ℕ)
    → token_cost p prompt completion
      ≡ prompt * p.input_per_million + completion * p.output_per_million
unfolding token_cost round_half_up
token_cost-exact p prompt completion = omega arith

-- What an estimate of `cost` rests on.
abbrev pub Estimated : Text → Option ℕ → Option ℕ → ℕ → Type 0
Estimated model prompt completion cost =
    (p : ModelPrice) × (i : ℕ) × (o : ℕ) × (price_for model ≡ some p)
    × (prompt ≡ some i)
    × (completion ≡ some o)
    × (cost ≡ i * p.input_per_million + o * p.output_per_million)

estimate_cost-Estimated :
    (model : Text) (prompt completion : Option ℕ) (cost : ℕ)
    → estimate_cost model prompt completion ≡ some cost
    → Estimated model prompt completion cost
unfolding estimate_cost
estimate_cost-Estimated model (some i) (some o) cost h = elim (Option-cases (price_for model)) [
  | inl unknown ↦ ground arith
  | inr (p, e) ↦ (p, i, o, e, refl, refl, ground (arith, token_cost-exact p i o))
]
estimate_cost-Estimated model (some i) none cost h = cc
estimate_cost-Estimated model none (some o) cost h = cc
estimate_cost-Estimated model none none cost h = cc

Estimated-estimate_cost :
    (model : Text) (prompt completion : Option ℕ) (cost : ℕ)
    → Estimated model prompt completion cost
    → estimate_cost model prompt completion ≡ some cost
unfolding estimate_cost
Estimated-estimate_cost model prompt completion cost (p, i, o, e, a, b, c) =
    ground (arith, token_cost-exact p i o)

-- There is an estimate exactly when the model has a price and both token counts are known, and it
-- is then the price of the tokens, with nothing lost to rounding.
pub estimate_cost_iff :
    (model : Text) (prompt completion : Option ℕ) (cost : ℕ)
    → (estimate_cost model prompt completion ≡ some cost) ↔ Estimated model prompt completion cost
estimate_cost_iff model prompt completion cost = (
  estimate_cost-Estimated model prompt completion cost,
  Estimated-estimate_cost model prompt completion cost,
)
