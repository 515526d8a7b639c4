-- ===== src/Retry/Laws.antt =====
-- The retry policy terminates and its delays are bounded.
use convoscore.Prelude.{ℕ, ◌-◌, ◌*◌, ◌/◌, ◌^◌, ◌≤◌, ◌<◌, min, true, ◌≡◌, ◌↔◌, arith}
use convoscore.Scoring.Provider.{LlmError, transient_error, permanent_error, invalid_response}
use convoscore.Retry.{Floats, exact_int_max, jittered, backoff_seconds, decide_retry}

-- How often an error may be tried in all.
abbrev pub allowance : LlmError → ℕ → ℕ
allowance (permanent_error _) max_attempts = 0
allowance (invalid_response _) max_attempts = min 2 max_attempts
allowance (transient_error _ _) max_attempts = max_attempts

module _ (fl : Floats) where
  open fl use {Float, of_int, half, plus, times, trunc, Le}

  jittered_bounds :
      (c : ℕ) (j : Float)
      → c ≤ exact_int_max
      → Le (of_int 0) j
      → Le j (of_int 1)
      → (c / 2 ≤ jittered fl c j) × (jittered fl c j ≤ c)
  unfolding jittered
  jittered_bounds c j small lo hi =
      let f = plus half (times half j) in
      let above : Le half f =
        rw fl.half_zero at (fl.plus_mono half _ _ (fl.half_mono (of_int 0) j lo)) in
      let below : Le f (of_int 1) =
        rw fl.half_one at (fl.plus_mono half _ _ (fl.half_mono j (of_int 1) hi)) in
      (
        rw (fl.times_half c small) at (fl.trunc_mono _ _ (fl.times_mono c half f above)),
        rw (fl.times_one c small) at (fl.trunc_mono _ _ (fl.times_mono c f (of_int 1) below)),
      )

  -- Every delay is at least one second and at least half of the capped exponential, and at most the
  -- configured maximum, for whatever jitter between 0 and 1.
  -- The maximum is from 1 to 2 ^ 53.
  pub backoff_seconds_bounds :
      (attempt base maximum : ℕ) (j : Float)
      → 1 ≤ maximum
      → maximum ≤ exact_int_max
      → Le (of_int 0) j
      → Le j (of_int 1)
      → (1 ≤ backoff_seconds fl attempt base maximum j)
        × (min maximum (base * 2 ^ (attempt - 1)) / 2 ≤ backoff_seconds fl attempt base maximum j)
        × (backoff_seconds fl attempt base maximum j ≤ maximum)
  unfolding backoff_seconds
  backoff_seconds_bounds attempt base maximum j pos small lo hi =
      omega (arith, jittered_bounds (min maximum (base * 2 ^ (attempt - 1))) j (omega arith) lo hi)

  -- An attempt is followed by another exactly while the attempts so far are fewer than the error's
  -- allowance: none for a permanent error, two (or the maximum) for an invalid response, and the
  -- maximum for a transient one.
  pub decide_retry_iff :
      (e : LlmError) (attempt max_attempts base maximum : ℕ) (j : Float)
      → ((decide_retry fl e attempt max_attempts base maximum j).retry ≡ true)
        ↔ (attempt < allowance e max_attempts)
  unfolding decide_retry
  decide_retry_iff (permanent_error m) attempt max_attempts base maximum j = ground arith
  decide_retry_iff (invalid_response m) attempt max_attempts base maximum j = ground arith
  decide_retry_iff (transient_error m t) attempt max_attempts base maximum j = ground arith
