-- ===== src/Scoring/Fake/Laws.antt =====
-- The deterministic scorer meets the same contract as the real one.
use convoscore.Prelude.{ℕ, ◌≤◌, some, ◌≡◌, ◌↔◌, arith, Option-cases, inl, inr}
use convoscore.Prelude.Int.{pos, ◌≤ℤ◌}
use convoscore.Text.{Text}
use convoscore.Json.{Json}
use convoscore.Models.{Sentiment, negative}
use convoscore.Schemas.{ConversationInput, normalized}
use convoscore.Scoring.Contract.{ScoringResult, new_result}
use convoscore.Scoring.Contract.Laws.{ResultFits, new_result-fits}
use convoscore.Scoring.Prompt.{build_user_input}
use convoscore.Scoring.Provider.{ScoringOutcome, scored}
use convoscore.Scoring.Provider.Laws.{build_user_input-normalized}
use convoscore.Scoring.Fake.{
  FakeProvider, fake_risk, fake_sentiment, fake_rationale, fake_outcome, fake_score,
}

pub fake_risk-le : (t : Text) (d0 d1 : ℕ) → fake_risk t d0 d1 ≤ 99
unfolding fake_risk
fake_risk-le t d0 d1 = ground arith

new_result_fake :
    (m : Sentiment) (r : ℕ)
    → r ≤ 99
    → new_result m (pos r) fake_rationale
      ≡ some (record { sentiment = m; risk_score = pos r; rationale = fake_rationale })
unfolding new_result
new_result_fake m r h = ground arith

fake_sentiment-negative : (risk d2 : ℕ) → (fake_sentiment risk d2 ≡ negative) ↔ (pos 51 ≤ℤ pos risk)
unfolding fake_sentiment
fake_sentiment-negative risk d2 = ground arith

-- A result that the fake provider may give: it meets the contract, and is negative exactly when
-- the score is 51 or more.
pub record FakeFits (s : ScoringResult) : Type 0 where
  pub fits : ResultFits s
  pub mood : (s.sentiment ≡ negative) ↔ (pos 51 ≤ℤ s.risk_score)

module _ (p : FakeProvider) (transcript : Text) where
  abbrev risk_of : ℕ
  risk_of = fake_risk (p.lower transcript) (p.digest transcript 0) (p.digest transcript 1)

  abbrev result_of : ScoringResult
  result_of = record {
    sentiment = fake_sentiment risk_of (p.digest transcript 2);
    risk_score = pos risk_of;
    rationale = fake_rationale;
  }

  result_of-new : new_result result_of.sentiment (pos risk_of) fake_rationale ≡ some result_of
  result_of-new =
      new_result_fake result_of.sentiment risk_of
        (fake_risk-le (p.lower transcript) (p.digest transcript 0) (p.digest transcript 1))

  result_of-FakeFits : FakeFits result_of
  result_of-FakeFits = record {
    fits = new_result-fits result_of.sentiment (pos risk_of) fake_rationale result_of-new;
    mood = fake_sentiment-negative risk_of (p.digest transcript 2);
  }

  fake_score-transcript :
      (j : Json)
      → build_user_input p.upper j ≡ some transcript
      → (o : ScoringOutcome) × (fake_score p j ≡ scored o) × FakeFits o.result
  unfolding fake_score
  fake_score-transcript j h = (
    fake_outcome p transcript result_of,
    rw (h, fake_score) (rw result_of-new),
    result_of-FakeFits,
  )

-- The fake provider scores every stored conversation: it raises nothing, its result meets the
-- contract, and the sentiment is negative exactly when the score is 51 or more.
pub fake_score-normalized :
    (p : FakeProvider) (c : ConversationInput)
    → (o : ScoringOutcome) × (fake_score p (normalized c) ≡ scored o) × FakeFits o.result
fake_score-normalized p c = elim (Option-cases (build_user_input p.upper (normalized c))) [
  | inl missing ↦ absurd (build_user_input-normalized p.upper c missing)
  | inr (transcript, e) ↦ fake_score-transcript p transcript (normalized c) e
]
