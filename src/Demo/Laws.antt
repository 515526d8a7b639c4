-- ===== src/Demo/Laws.antt =====
-- The tokens are counted exactly: arming sets one counter, each scoring call spends at most one
-- token, and it fails exactly when one was left.
use convoscore.Prelude.{
  ℕ, zero, suc, ◌+◌, ◌-◌, min, Bool, true, false, Option, none, some, ◌++◌, ltb, if◌then◌else◌,
  is_some, ◌≡◌, refl, arith, ◌==◌,
}
use convoscore.Table.{
  IsKeyed, lookup-update_where, lookup-update_all, IsKeyed-update_where, count-at_key,
  lookup-append,
}
use convoscore.Text.{Text, text, ◌is◌}
use convoscore.Json.{Json, get_field}
use convoscore.Schemas.{Coercion, only_known}
use convoscore.Scoring.Contract.{validate_result, validate_sentiment}
use convoscore.Scoring.Provider.{Attempt, LlmError, llm_error, transient_error, invalid_response}
use convoscore.Models.{
  Time, FailureMode, http_500, malformed, mode_key, DemoFailureToken, timeout, server_error,
}
use convoscore.Demo.{
  Tokens, token_key, arm, clear, armed, state, total, has_tokens, spend_one, try_mode, consume_from,
  consume, next_failure, fault_injecting_score, injected, malformed_response,
}

abbrev set_to : Time → ℕ → DemoFailureToken → DemoFailureToken
set_to now n t = record t { remaining = n; armed_at = some now }

-- Arming a mode replaces its own count and leaves the counts of the other modes alone.
pub armed-arm :
    (now : Time) (m j : FailureMode) (n : ℕ) (ts : Tokens)
    → armed (arm now m n ts) j ≡ (if mode_key j == mode_key m then n else armed ts j)
unfolding armed arm
armed-arm now m j n ts = ground (
  arith,
  lookup-update_where token_key (set_to now n) (λ t. refl) (mode_key m) (mode_key j) (λ t. true) ts,
  lookup-append token_key (mode_key j) (record { mode = m; remaining = n; armed_at = some now }) ts,
)

pub armed-clear : (m : FailureMode) (ts : Tokens) → armed (clear ts) m ≡ 0
unfolding armed clear
armed-clear m ts = ground (
  arith,
  lookup-update_all token_key (λ (t : DemoFailureToken). record t { remaining = 0 }) (λ t. refl)
      (mode_key m) ts,
)

module _ (m : FailureMode) (ts : Tokens) (keyed : IsKeyed token_key ts) where
  try_mode-claimed : (try_mode m ts).0 ≡ ltb 0 (armed ts m)
  unfolding try_mode armed
  try_mode-claimed = rw (count-at_key token_key (mode_key m) has_tokens ts keyed) (ground arith)

  armed-try_mode :
      (j : FailureMode)
      → armed (try_mode m ts).1 j
        ≡ (if mode_key j == mode_key m then armed ts j - 1 else armed ts j)
  unfolding try_mode armed
  armed-try_mode j = ground (
    arith,
    lookup-update_where token_key spend_one (λ t. refl) (mode_key m) (mode_key j) has_tokens ts,
  )

  IsKeyed-try_mode : IsKeyed token_key (try_mode m ts).1
  unfolding try_mode
  IsKeyed-try_mode =
      IsKeyed-update_where token_key spend_one (λ t. refl) (mode_key m) has_tokens ts keyed

abbrev all_armed : Tokens → ℕ
all_armed ts = armed ts FailureMode.timeout + armed ts http_500 + armed ts malformed

total-state : (ts : Tokens) → total (state ts) ≡ all_armed ts
unfolding total state
total-state ts = omega arith

module _ (ts : Tokens) (keyed : IsKeyed token_key ts) where
  abbrev after1 : Tokens
  after1 = (try_mode FailureMode.timeout ts).1

  abbrev after2 : Tokens
  after2 = (try_mode http_500 after1).1

  abbrev keyed1 : IsKeyed token_key after1
  keyed1 = IsKeyed-try_mode FailureMode.timeout ts keyed

  abbrev keyed2 : IsKeyed token_key after2
  keyed2 = IsKeyed-try_mode http_500 after1 keyed1

  IsKeyed-consume : IsKeyed token_key (consume ts).1
  unfolding consume consume_from
  IsKeyed-consume = ground (arith, keyed1, keyed2, IsKeyed-try_mode malformed after2 keyed2)

  -- A consumption fails the call exactly when a token is left, and takes exactly one.
  consume-total :
      (is_some (consume ts).0 ≡ ltb 0 (all_armed ts))
      × (all_armed (consume ts).1 ≡ all_armed ts - 1)
  unfolding consume consume_from
  consume-total = ground (
    arith,
    try_mode-claimed FailureMode.timeout ts keyed,
    try_mode-claimed http_500 after1 keyed1,
    try_mode-claimed malformed after2 keyed2,
    armed-try_mode FailureMode.timeout ts keyed FailureMode.timeout,
    armed-try_mode FailureMode.timeout ts keyed http_500,
    armed-try_mode FailureMode.timeout ts keyed malformed,
    armed-try_mode http_500 after1 keyed1 FailureMode.timeout,
    armed-try_mode http_500 after1 keyed1 http_500,
    armed-try_mode http_500 after1 keyed1 malformed,
    armed-try_mode malformed after2 keyed2 FailureMode.timeout,
    armed-try_mode malformed after2 keyed2 http_500,
    armed-try_mode malformed after2 keyed2 malformed,
  )

-- How many of `k` scoring calls in a row consume a token, and what is left.
pub consume_times : ℕ → Tokens → ℕ × Tokens
consume_times zero ts = (0, ts)
consume_times (suc k) ts =
    let (r, ts') = consume ts in
    let (n, rest) = consume_times k ts' in ((if is_some r then suc n else n), rest)

consume_times-min :
    (k : ℕ) (ts : Tokens)
    → IsKeyed token_key ts
    → ((consume_times k ts).0 ≡ min k (all_armed ts))
      × (all_armed (consume_times k ts).1 ≡ all_armed ts - k)
unfolding consume_times
consume_times-min zero ts keyed = omega arith
consume_times-min (suc k) ts keyed =
    ground
      (arith, consume-total ts keyed, consume_times-min k (consume ts).1 (IsKeyed-consume ts keyed))

-- Of any number of scoring calls, exactly as many fail on purpose as there were tokens, up to the
-- number of calls, and the total that `state` reports falls by exactly that number.
-- The table has unique keys.
pub consume_times-total :
    (k : ℕ) (ts : Tokens)
    → IsKeyed token_key ts
    → ((consume_times k ts).0 ≡ min k (total (state ts)))
      × (total (state (consume_times k ts).1) ≡ total (state ts) - k)
consume_times-total k ts keyed = simp total-state (consume_times-min k ts keyed)

-- The mode that the fixed order of the enumeration selects.
abbrev pub first_armed : Tokens → Option FailureMode
first_armed ts =
    if ltb 0 (armed ts FailureMode.timeout)
    then some FailureMode.timeout
    else if ltb 0 (armed ts http_500)
    then some http_500
    else if ltb 0 (armed ts malformed)
    then some malformed
    else none

consume-first_armed : (ts : Tokens) → IsKeyed token_key ts → (consume ts).0 ≡ first_armed ts
unfolding consume consume_from
consume-first_armed ts keyed = ground (
  arith,
  try_mode-claimed FailureMode.timeout ts keyed,
  try_mode-claimed http_500 (after1 ts keyed) (keyed1 ts keyed),
  try_mode-claimed malformed (after2 ts keyed) (keyed2 ts keyed),
  armed-try_mode FailureMode.timeout ts keyed http_500,
  armed-try_mode FailureMode.timeout ts keyed malformed,
  armed-try_mode http_500 (after1 ts keyed) (keyed1 ts keyed) malformed,
)

-- The `LLMError` that each mode stands for.
abbrev pub mode_error : Text → FailureMode → LlmError
mode_error explain FailureMode.timeout =
    transient_error (text "simulated provider timeout (demo mode)") timeout
mode_error explain http_500 =
    transient_error (text "simulated provider 500 Internal Server Error (demo mode)") server_error
mode_error explain malformed =
    invalid_response (text "simulated malformed response (demo mode): " ++ explain)

validate_result-malformed : (py : Coercion) → validate_result py malformed_response ≡ none
unfolding validate_result validate_sentiment only_known get_field ◌is◌
validate_result-malformed py = refl

injected-mode_error :
    (py : Coercion) (explain : Text) (m : FailureMode)
    → injected py explain m ≡ llm_error (mode_error explain m)
unfolding injected
injected-mode_error py explain FailureMode.timeout = refl
injected-mode_error py explain http_500 = refl
injected-mode_error py explain malformed = rw (validate_result-malformed py, injected)

abbrev pub attempt_of :
    (FailureMode → Attempt) → (Json → Attempt) → Json → Option FailureMode → Attempt
attempt_of fail inner j none = inner j
attempt_of fail inner j (some m) = fail m

attempt_of-injected :
    (py : Coercion) (explain : Text) (inner : Json → Attempt) (j : Json) (o : Option FailureMode)
    → attempt_of (injected py explain) inner j o
      ≡ attempt_of (λ m. llm_error (mode_error explain m)) inner j o
attempt_of-injected py explain inner j none = refl
attempt_of-injected py explain inner j (some m) = injected-mode_error py explain m

-- A scoring call fails on purpose exactly when the database answers and some mode is armed: then
-- with the error of the first armed mode, the final `AssertionError` being unreachable. Otherwise
-- it is the inner provider's own answer.
-- The table has unique keys.
pub fault_injecting_score_lem :
    (py : Coercion) (explain : Text) (inner : Json → Attempt) (fails : Bool) (j : Json)
    (ts : Tokens)
    → IsKeyed token_key ts
    → (fault_injecting_score py explain inner fails j ts).0
      ≡ attempt_of
          (λ m. llm_error (mode_error explain m))
          inner
          j
          (if fails then none else first_armed ts)
unfolding fault_injecting_score next_failure
fault_injecting_score_lem py explain inner true j ts keyed = refl
fault_injecting_score_lem py explain inner false j ts keyed =
    rw (consume-first_armed ts keyed, fault_injecting_score)
      (attempt_of-injected py explain inner j (first_armed ts))
