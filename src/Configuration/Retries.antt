-- ===== src/Configuration/Retries.antt =====
-- What accepted settings mean for the retries of the workers.
use convoscore.Prelude.{
  ℕ, ◌≤◌, Bool, true, false, ◌&&◌, ◌≡◌, refl, arith, leb, Bool-cases, inl, inr,
}
use convoscore.Scoring.Provider.{LlmError, permanent_error, invalid_response, transient_error}
use convoscore.Retry.{Floats, decide_retry, backoff_seconds}
use convoscore.Retry.Laws.{backoff_seconds_bounds}
use convoscore.Configuration.{Settings, within_bounds}

bounds_hold :
    (s : Settings)
    → within_bounds s ≡ true
    → (s.max_attempts ≤ 10)
      × (1 ≤ s.retry_max_backoff_seconds)
      × (s.retry_max_backoff_seconds ≤ 900)
unfolding within_bounds
bounds_hold s h = ground arith

and_false : (b : Bool) → (b && false) ≡ false
and_false true = refl
and_false false = refl

backoff_of_decision :
    (fl : Floats) (e : LlmError) (attempt max_attempts base maximum : ℕ) (j : fl.Float)
    → (decide_retry fl e attempt max_attempts base maximum j).backoff
      ≡ backoff_seconds fl attempt base maximum j
unfolding decide_retry
backoff_of_decision fl (permanent_error m) attempt max_attempts base maximum j = refl
backoff_of_decision fl (invalid_response m) attempt max_attempts base maximum j = refl
backoff_of_decision fl (transient_error m t) attempt max_attempts base maximum j = ground arith

not_after :
    (fl : Floats) (e : LlmError) (attempt max_attempts base maximum : ℕ) (j : fl.Float)
    → max_attempts ≤ attempt
    → (decide_retry fl e attempt max_attempts base maximum j).retry ≡ false
unfolding decide_retry
not_after fl (permanent_error m) attempt max_attempts base maximum j h = refl
not_after fl (invalid_response m) attempt max_attempts base maximum j h = ground arith
not_after fl (transient_error m t) attempt max_attempts base maximum j h = ground arith

-- With settings that start a worker every failed attempt is followed by a delay from 1 second to 15
-- minutes and at most the configured maximum, and the tenth attempt by no other.
-- The jitter is from 0 to 1.
pub decide_retry-within_bounds :
    (fl : Floats) (s : Settings) (e : LlmError) (attempt : ℕ) (j : fl.Float)
    → within_bounds s ≡ true
    → fl.Le (fl.of_int 0) j
    → fl.Le j (fl.of_int 1)
    → let d =
        decide_retry fl e attempt s.max_attempts s.retry_base_backoff_seconds
          s.retry_max_backoff_seconds j in
      (1 ≤ d.backoff)
      × (d.backoff ≤ s.retry_max_backoff_seconds)
      × (d.backoff ≤ 900)
      × ((d.retry && leb 10 attempt) ≡ false)
decide_retry-within_bounds fl s e attempt j h lo hi =
    let (few, positive, short) = bounds_hold s h in
    let base = s.retry_base_backoff_seconds in
    let maximum = s.retry_max_backoff_seconds in
    let d = decide_retry fl e attempt s.max_attempts base maximum j in
    let delay = backoff_of_decision fl e attempt s.max_attempts base maximum j in
    let bounds =
      backoff_seconds_bounds fl attempt base maximum j positive (omega (arith, short)) lo hi in
    let at_last : (d.retry && leb 10 attempt) ≡ false = elim (Bool-cases (leb 10 attempt)) [
      | inl late ↦
          let over : s.max_attempts ≤ attempt = ground (arith, late, few) in
          rw (not_after fl e attempt s.max_attempts base maximum j over) refl
      | inr early ↦ rw early (and_false d.retry)
    ] in
    (
      omega (arith, delay, bounds.0),
      omega (arith, delay, bounds.2),
      omega (arith, delay, bounds.2, short),
      at_last,
    )
