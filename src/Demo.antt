-- ===== src/Demo.antt =====
-- app/demo.py: the tokens that make scoring calls fail on purpose, and the provider that spends
-- them. The functions act on the table `demo_failure_tokens`; `now` is the database's clock.
pub mod Laws
use convoscore.Prelude.{
  ℕ, suc, ◌+◌, ◌-◌, Bool, true, false, Option, none, some, List, [], ◌∷◌, ◌++◌, ltb, if◌then◌else◌,
  map, sum_of, is_some, count,
}
use convoscore.Prelude.Int.{pos}
use convoscore.Table.{lookup, update_where, at_key}
use convoscore.Text.{Text, text}
use convoscore.Json.{Json, str, int, obj, field, end}
use convoscore.Models.{
  Time, FailureMode, http_500, malformed, mode_key, DemoFailureToken, server_error, timeout,
}
use convoscore.Schemas.{Coercion}
use convoscore.Scoring.Contract.{validate_result}
use convoscore.Scoring.Provider.{Attempt, llm_error, crashed, transient_error, invalid_response}

abbrev pub Tokens : Type 0
Tokens = List DemoFailureToken

abbrev pub token_key : DemoFailureToken → ℕ
token_key t = mode_key t.mode

abbrev pub modes : List FailureMode
modes = FailureMode.timeout ∷ http_500 ∷ malformed ∷ []

-- `INSERT ... ON CONFLICT (mode) DO UPDATE`.
unfoldable pub arm : Time → FailureMode → ℕ → Tokens → Tokens
arm now mode n tokens =
    if is_some (lookup token_key (mode_key mode) tokens)
    then update_where (at_key token_key (mode_key mode) (λ t. true))
        (λ t. record t { remaining = n; armed_at = some now }) tokens
    else tokens ++ record { mode = mode; remaining = n; armed_at = some now } ∷ []

unfoldable pub clear : Tokens → Tokens
clear tokens = update_where (λ t. true) (λ t. record t { remaining = 0 }) tokens

-- The entry of `state` for a mode: 0 unless there is a row.
unfoldable pub armed : Tokens → FailureMode → ℕ
armed tokens mode = elim (lookup token_key (mode_key mode) tokens) [
  | none ↦ 0
  | some t ↦ t.remaining
]

unfoldable pub state : Tokens → List (FailureMode × ℕ)
state tokens = map (λ m. (m, armed tokens m)) modes

-- `ArmedFailures.total`.
unfoldable pub total : List (FailureMode × ℕ) → ℕ
total = sum_of (λ e. e.1)

abbrev pub has_tokens : DemoFailureToken → Bool
has_tokens t = ltb 0 t.remaining

abbrev pub spend_one : DemoFailureToken → DemoFailureToken
spend_one t = record t { remaining = t.remaining - 1 }

-- One round of the loop of `consume`: the UPDATE that is guarded by `remaining > 0`, and whether it
-- returned a row.
unfoldable pub try_mode : FailureMode → Tokens → Bool × Tokens
try_mode mode tokens =
    let guarded = at_key token_key (mode_key mode) has_tokens in
    (ltb 0 (count guarded tokens), update_where guarded spend_one tokens)

unfoldable pub consume_from : List FailureMode → Tokens → Option FailureMode × Tokens
consume_from [] tokens = (none, tokens)
consume_from (mode ∷ rest) tokens =
    let (claimed, tokens') = try_mode mode tokens in
    let later = consume_from rest tokens' in if claimed then (some mode, tokens') else later

unfoldable pub consume : Tokens → Option FailureMode × Tokens
consume = consume_from modes

-- MALFORMED_RESPONSE.
abbrev pub malformed_response : Json
malformed_response = obj (
    field (text "sentiment") (str (text "furious")) (
      field (text "risk_score") (int (pos 250)) (
        field (text "rationale")
          (str (text "Deliberately malformed response, injected for the demo.")) end)))

-- What `FaultInjectingProvider.score` raises for a mode. `explain` is the text of pydantic's error;
-- `crashed` stands for the final `AssertionError`.
unfoldable pub injected : Coercion → Text → FailureMode → Attempt
injected py explain FailureMode.timeout =
    llm_error (transient_error (text "simulated provider timeout (demo mode)") timeout)
injected py explain http_500 =
    llm_error (
      transient_error (text "simulated provider 500 Internal Server Error (demo mode)")
        server_error)
injected py explain malformed = elim (validate_result py malformed_response) [
  | none ↦
      llm_error (invalid_response (text "simulated malformed response (demo mode): " ++ explain))
  | some _ ↦ crashed
]

-- `_next_failure`: a database failure counts as "no failure armed", and rolls back.
unfoldable pub next_failure : Bool → Tokens → Option FailureMode × Tokens
next_failure db_fails tokens = if db_fails then (none, tokens) else consume tokens

-- `FaultInjectingProvider.score` around an inner provider.
unfoldable pub fault_injecting_score :
    Coercion → Text → (Json → Attempt) → Bool → Json → Tokens → Attempt × Tokens
fault_injecting_score py explain inner db_fails conversation tokens =
    let (mode, tokens') = next_failure db_fails tokens in
    (elim mode [ none ↦ inner conversation | some m ↦ injected py explain m ], tokens')
