-- ===== src/Tests/Api.antt =====
-- Rows as the API shows them.
use convoscore.Prelude.{none, some, [], ◌∷◌, ◌≡◌, refl, arith, option_map}
use convoscore.Table.{lookup, update_where}
use convoscore.Models.{seconds, api, sentiment_value}
use convoscore.Scoring.Contract.{RiskBand, band, band_label, risk_band}
use convoscore.Repository.Jobs.{
  get_job, create_job, insert_job, update_job, claim_job, complete_job,
}
use convoscore.Repository.Rows.{RowFits}
use convoscore.Pipeline.{History, create, claim, complete, apply, run}
use convoscore.Runtime.{ok}
use convoscore.Api.Serializers.{
  ScoreResult, JobStatusResponse, to_job_status, to_summary, to_detail,
}
use convoscore.Api.Serializers.Laws.{Returns, to_job_status-completed, run-Returns}
use convoscore.Tests.Data.{plain, complaint, good_outcome, finished_job}

finished_job-RowFits : RowFits finished_job
finished_job-RowFits = record { state_fits = ground arith; risk_fits = refl }

to_job_status-completed_example :
    (v : JobStatusResponse) × (s : ScoreResult) × (b : RiskBand) × (to_job_status finished_job
      ≡ ok v)
    × (v.result ≡ some s)
    × (v.error ≡ none)
    × (finished_job.risk_score ≡ some s.risk_score)
    × (finished_job.rationale ≡ some s.rationale)
    × (option_map sentiment_value finished_job.sentiment ≡ some s.sentiment)
    × (risk_band (some s.risk_score) ≡ band b)
    × (s.risk_band_label ≡ band_label b)
to_job_status-completed_example = to_job_status-completed finished_job finished_job-RowFits refl

abbrev one_attempt : History
one_attempt =
    (seconds 0, create plain 7 complaint api 3 none)
    ∷ (seconds 5, claim 7 60)
    ∷ (seconds 9, complete 7 good_outcome)
    ∷ []

run-Returns_example :
    Returns (to_job_status finished_job)
    × Returns (to_summary finished_job)
    × Returns (to_detail finished_job)
unfolding run apply create_job insert_job claim_job complete_job update_job get_job lookup
    update_where
run-Returns_example =
    run-Returns one_attempt 7 finished_job
      (
        tt,
        (
          tt,
          (
            record {
              risk_fits = ground arith;
              some_rationale = ground arith;
              rationale_fits = ground arith;
            },
            tt,
          ),
        ),
      )
      refl
