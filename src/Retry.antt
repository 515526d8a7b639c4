-- ===== src/Retry.antt =====
-- The retry policy of app/worker.py. Python's floats are a parameter: IEEE 754 operations of which
-- only the order, the exactness of small integers and truncation are used.
pub mod Laws
use convoscore.Prelude.{
  ℕ, ◌+◌, ◌-◌, ◌*◌, ◌/◌, ◌^◌, ◌≤◌, min, max, Bool, true, false, ◌≡◌, if◌then◌else◌, ltb, leb,
}
use convoscore.Models.{ErrorType, max_attempts_exhausted}
use convoscore.Scoring.Provider.{
  LlmError, transient_error, permanent_error, invalid_response, error_type,
}

-- Doubles hold every integer up to 2 ^ 53.
abbrev pub exact_int_max : ℕ
exact_int_max = 2 ^ 53

pub record Floats : Type 1 where
  pub Float : Type 0
  pub of_int : ℕ → Float
  pub half : Float
  pub plus : Float → Float → Float
  pub times : Float → Float → Float
  -- `int(x)` of a float that is not negative
  pub trunc : Float → ℕ
  pub Le : Float → Float → Type 0
  -- Rounding is monotone, and exact where the result is a float.
  pub plus_mono : (a b c : Float) → Le b c → Le (plus a b) (plus a c)
  pub times_mono : (c : ℕ) (a b : Float) → Le a b → Le (times (of_int c) a) (times (of_int c) b)
  pub half_mono : (a b : Float) → Le a b → Le (times half a) (times half b)
  pub trunc_mono : (a b : Float) → Le a b → trunc a ≤ trunc b
  pub half_zero : plus half (times half (of_int 0)) ≡ half
  pub half_one : plus half (times half (of_int 1)) ≡ of_int 1
  pub times_one : (c : ℕ) → c ≤ exact_int_max → trunc (times (of_int c) (of_int 1)) ≡ c
  pub times_half : (c : ℕ) → c ≤ exact_int_max → trunc (times (of_int c) half) ≡ c / 2

pub record RetryDecision : Type 0 where
  pub retry : Bool
  pub decided : ErrorType
  pub backoff : ℕ

module _ (fl : Floats) where
  open fl use {Float, of_int, half, plus, times, trunc}

  -- `int(capped * (0.5 + 0.5 * jitter()))`, with the value that `jitter()` returned.
  unfoldable pub jittered : ℕ → Float → ℕ
  jittered capped jitter = trunc (times (of_int capped) (plus half (times half jitter)))

  -- `max(0, attempt - 1)` is the truncated difference.
  unfoldable pub backoff_seconds : ℕ → ℕ → ℕ → Float → ℕ
  backoff_seconds attempt base maximum jitter =
      max 1 (jittered (min maximum (base * 2 ^ (attempt - 1))) jitter)

  unfoldable pub decide_retry : LlmError → ℕ → ℕ → ℕ → ℕ → Float → RetryDecision
  decide_retry (permanent_error m) attempt_count max_attempts base maximum jitter = record {
    retry = false;
    decided = error_type (permanent_error m);
    backoff = backoff_seconds attempt_count base maximum jitter;
  }
  decide_retry (invalid_response m) attempt_count max_attempts base maximum jitter = record {
    retry = ltb attempt_count (min 2 max_attempts);
    decided = error_type (invalid_response m);
    backoff = backoff_seconds attempt_count base maximum jitter;
  }
  decide_retry (transient_error m t) attempt_count max_attempts base maximum jitter =
      if leb max_attempts attempt_count
      then record {
        retry = false;
        decided = max_attempts_exhausted;
        backoff = backoff_seconds attempt_count base maximum jitter;
      }
      else record {
        retry = true;
        decided = error_type (transient_error m t);
        backoff = backoff_seconds attempt_count base maximum jitter;
      }
