-- ===== src/Observability/Spend.antt =====
-- app/worker.py: `_record_success_metrics`. A counter with the label `model` is a function of it; the
-- histogram of latencies is left out.
use convoscore.Prelude.{
  ℕ, ◌+◌, true, Option, none, some, List, [], ◌∷◌, ◌≡◌, refl, arith, if◌then◌else◌, get_or_else,
  sum_of, count, filter, is_some, not,
}
use convoscore.Text.{Text, ◌is◌}
use convoscore.Scoring.Provider.{ScoringOutcome}

abbrev pub Counter : Type 0
Counter = Text → ℕ

-- `counter.labels(model=model).inc(n)`.
abbrev pub inc : Text → ℕ → Counter → Counter
inc model n c m = if model is m then c m + n else c m

abbrev pub inc_known : Text → Option ℕ → Counter → Counter
inc_known model none c = c
inc_known model (some n) c = inc model n c

pub record LlmMetrics : Type 0 where
  pub calls : Counter
  pub prompt_tokens : Counter
  pub completion_tokens : Counter
  pub estimated_cost : Counter
  pub pricing_unknown : Counter

abbrev pub inc_unknown : Text → Option ℕ → Counter → Counter
inc_unknown model none c = inc model 1 c
inc_unknown model (some cost) c = c

unfoldable pub record_success_metrics : ScoringOutcome → LlmMetrics → LlmMetrics
record_success_metrics o m = record {
  calls = inc o.model 1 m.calls;
  prompt_tokens = inc_known o.model o.prompt_tokens m.prompt_tokens;
  completion_tokens = inc_known o.model o.completion_tokens m.completion_tokens;
  estimated_cost = inc_known o.model o.estimated_cost_usd m.estimated_cost;
  pricing_unknown = inc_unknown o.model o.estimated_cost_usd m.pricing_unknown;
}

-- The counters of a process after its successful calls.
unfoldable pub record_all : List ScoringOutcome → LlmMetrics
record_all [] = record {
  calls = λ m. 0;
  prompt_tokens = λ m. 0;
  completion_tokens = λ m. 0;
  estimated_cost = λ m. 0;
  pricing_unknown = λ m. 0;
}
record_all (o ∷ os) = record_success_metrics o (record_all os)

abbrev pub of_model : Text → List ScoringOutcome → List ScoringOutcome
of_model model os = filter (λ o. o.model is model) os

-- The metrics account for every successful call: for each model the number of its calls, the sum of
-- the costs that are known, and the number of the calls whose cost is not known.
pub record_all-accounts :
    (os : List ScoringOutcome) (model : Text)
    → let m = record_all os in
      let mine = of_model model os in
      (m.calls model ≡ count (λ o. true) mine)
      × (m.estimated_cost model ≡ sum_of (λ o. get_or_else o.estimated_cost_usd 0) mine)
      × (m.pricing_unknown model ≡ count (λ o. not (is_some o.estimated_cost_usd)) mine)
      × (m.prompt_tokens model ≡ sum_of (λ o. get_or_else o.prompt_tokens 0) mine)
      × (m.completion_tokens model ≡ sum_of (λ o. get_or_else o.completion_tokens 0) mine)
unfolding record_all record_success_metrics
record_all-accounts [] model = (refl, refl, refl, refl, refl)
record_all-accounts (o ∷ os) model = ground (arith, record_all-accounts os model)
