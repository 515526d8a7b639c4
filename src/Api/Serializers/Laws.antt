-- ===== src/Api/Serializers/Laws.antt =====
-- The serializers never raise on a well-formed row, so never on a row that the pipeline makes.
use convoscore.Prelude.{
  true, Option, none, some, ◌≡◌, refl, arith, is_some, Option-cases, inl, inr, option_map, subst,
  sym, ap, ◌∙◌,
}
use convoscore.Prelude.Int.{ℤ}
use convoscore.Text.{Text}
use convoscore.Models.{
  Uuid, Conversation, completed, sentiment_value, Sentiment, risk_in_range, empty_db,
}
use convoscore.Table.{All-lookup}
use convoscore.Scoring.Contract.{RiskBand, band, risk_band, band_value, band_label}
use convoscore.Scoring.Contract.Laws.{InRange, risk_band-InRange}
use convoscore.Repository.Jobs.{get_job, job_key}
use convoscore.Repository.Rows.{RowFits, StateFits}
use convoscore.Pipeline.{History, run}
use convoscore.Pipeline.Invariant.{HistoryFits, run-JobsFit}
use convoscore.Runtime.{Result, ok}
use convoscore.Api.Serializers.{
  ScoreResult, JobStatusResponse, ◌>>=◌, band_returned, job_band, score_result, scored_result,
  job_status_of, to_result, to_error, to_job_status, to_summary, to_detail,
}

-- The call returned.
abbrev pub Returns : {A : Type 0} → Result A → Type 0
Returns {A} r = (a : A) × (r ≡ ok a)

Returns-bind :
    {A B : Type 0} (m : Result A) (f : A → Result B)
    → Returns m
    → ((a : A) → Returns (f a))
    → Returns (m >>= f)
Returns-bind m f (a, e) k = subst (λ n. Returns (n >>= f)) (sym e) (k a)

in_range : (x : ℤ) → risk_in_range (some x) ≡ true → InRange x
in_range x h = ground arith

job_band-band :
    (r : Conversation) (x : ℤ)
    → risk_in_range r.risk_score ≡ true
    → r.risk_score ≡ some x
    → (b : RiskBand) × (job_band r ≡ ok (some b)) × (risk_band (some x) ≡ band b)
unfolding job_band
job_band-band r x h e =
    let (b, found) = risk_band-InRange x (in_range x (subst (λ o. risk_in_range o ≡ true) e h)) in
    (b, ap band_returned (ap risk_band e ∙ found), found)

pub job_band-Returns : (r : Conversation) → risk_in_range r.risk_score ≡ true → Returns (job_band r)
unfolding job_band risk_band
job_band-Returns r h = elim (Option-cases r.risk_score) [
  | inl absent ↦ (none, ap band_returned (ap risk_band absent))
  | inr (x, e) ↦ let (b, found, _) = job_band-band r x h e in (some b, found)
]

-- The result that a complete row shows.
abbrev shown : Sentiment → ℤ → Text → RiskBand → ScoreResult
shown mood x why b = record {
  sentiment = sentiment_value mood;
  risk_score = x;
  risk_band = band_value b;
  risk_band_label = band_label b;
  rationale = why;
}

scored_result-shown :
    (r : Conversation) (mood : Sentiment) (x : ℤ) (why : Text)
    → risk_in_range r.risk_score ≡ true
    → r.risk_score ≡ some x
    → (b : RiskBand) × (scored_result (some mood) (some x) (some why) r
        ≡ ok (some (shown mood x why b)))
      × (risk_band (some x) ≡ band b)
unfolding scored_result score_result
scored_result-shown r mood x why h e =
    let (b, found, named) = job_band-band r x h e in (b, rw found, named)

to_result-Returns : (r : Conversation) → risk_in_range r.risk_score ≡ true → Returns (to_result r)
unfolding to_result scored_result
to_result-Returns r h = go r.sentiment r.risk_score r.rationale refl
  where
    go :
        (m : Option Sentiment) (x : Option ℤ) (y : Option Text)
        → r.risk_score ≡ x
        → Returns (scored_result m x y r)
    go (some m) (some x) (some y) e =
        let (b, found, _) = scored_result-shown r m x y h e in (some (shown m x y b), found)
    go none x y e = (none, refl)
    go (some m) none y e = (none, refl)
    go (some m) (some x) none e = (none, refl)

-- On a well-formed row no endpoint raises: the status, the summary and the detail of the job are all
-- returned.
pub serializers-RowFits :
    (r : Conversation)
    → RowFits r
    → Returns (to_job_status r) × Returns (to_summary r) × Returns (to_detail r)
unfolding to_job_status to_summary to_detail
serializers-RowFits r fits =
    let result = to_result-Returns r fits.risk_fits in
    let found = job_band-Returns r fits.risk_fits in
    (
      Returns-bind (to_result r) _ result (λ _. (_, refl)),
      Returns-bind (job_band r) _ found (λ _. (_, refl)),
      Returns-bind (to_result r) _ result (λ _. (_, refl)),
    )

is_some_value {ℓ} : {A : Type ℓ} (o : Option A) → is_some o ≡ true → (a : A) × (o ≡ some a)
is_some_value none h = absurd (ground (arith, h))
is_some_value (some a) h = (a, refl)

-- A completed job is shown with its result and without an error: the stored risk score, rationale
-- and sentiment, and the label of the band of that score. Its row is taken to be well formed.
pub to_job_status-completed :
    (r : Conversation)
    → RowFits r
    → r.status ≡ completed
    → (v : JobStatusResponse) × (s : ScoreResult) × (b : RiskBand) × (to_job_status r ≡ ok v)
      × (v.result ≡ some s)
      × (v.error ≡ none)
      × (r.risk_score ≡ some s.risk_score)
      × (r.rationale ≡ some s.rationale)
      × (option_map sentiment_value r.sentiment ≡ some s.sentiment)
      × (risk_band (some s.risk_score) ≡ band b)
      × (s.risk_band_label ≡ band_label b)
unfolding to_job_status to_result to_error
to_job_status-completed r fits e =
    let (_, _, _, clean, m, x, y, _) = subst (λ s. StateFits s r) e fits.state_fits in
    let (mood, em) = is_some_value r.sentiment m in
    let (risk, ex) = is_some_value r.risk_score x in
    let (why, ey) = is_some_value r.rationale y in
    let (b, found, named) = scored_result-shown r mood risk why fits.risk_fits ex in
    let result = shown mood risk why b in
    let got : to_result r ≡ ok (some result) =
      ap (λ m. scored_result m r.risk_score r.rationale r) em
      ∙ ap (λ x. scored_result (some mood) x r.rationale r) ex
      ∙ ap (λ y. scored_result (some mood) (some risk) y r) ey
      ∙ found in
    (
      job_status_of r (some result),
      result,
      b,
      ap (λ m. m >>= λ o. ok (job_status_of r o)) got,
      refl,
      rw clean,
      ex,
      ey,
      ap (option_map sentiment_value) em,
      named,
      refl,
    )

-- Whatever the processes do, every job that they leave in a database that was empty at first can be
-- shown: no endpoint raises on it. The results that workers store are taken to meet the contract.
pub run-Returns :
    (h : History) (id : Uuid) (r : Conversation)
    → HistoryFits h
    → get_job id (run h empty_db) ≡ some r
    → Returns (to_job_status r) × Returns (to_summary r) × Returns (to_detail r)
unfolding get_job
run-Returns h id r fits found = serializers-RowFits r (
    All-lookup RowFits job_key id (run h empty_db).conversations r
      (run-JobsFit h empty_db fits (record { keyed = tt; rows = tt })).rows found)
