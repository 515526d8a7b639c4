-- ===== src/Api/Demo.antt =====
-- app/api/demo.py, which is mounted only in demo mode, and its schemas in app/schemas.py.
use convoscore.Prelude.{ℕ, Option, none, some, List, [], ◌∷◌, map, if◌then◌else◌, leb}
use convoscore.Prelude.Int.{ℤ, pos, negsuc}
use convoscore.Text.{Text, ◌is◌}
use convoscore.Models.{Time, FailureMode, mode_value, Db}
use convoscore.Demo.{Tokens, modes, arm, clear, state, total}
use convoscore.Runtime.{Env, ok, M, ◌>>=◌, ◌>>◌, pure}
use convoscore.Api.Conversations.{Answer, answered, http_exception}
use convoscore.Api.Session.{flush, commit_session, read_only, respond}

pub record DemoStateResponse : Type 0 where
  pub armed : List (FailureMode × ℕ)
  pub total_armed : ℕ
  pub known_modes : List Text

-- `_state`.
unfoldable pub state_response : Tokens → DemoStateResponse
state_response tokens = record {
  armed = state tokens;
  total_armed = total (state tokens);
  known_modes = map mode_value modes;
}

pub record DemoArmRequest : Type 0 where
  pub mode : FailureMode
  pub count : ℕ

abbrev pub mode_of : List FailureMode → Text → Option FailureMode
mode_of [] t = none
mode_of (m ∷ ms) t = if t is mode_value m then some m else mode_of ms t

abbrev pub count_in_bounds : ℤ → Option ℕ
count_in_bounds (pos n) = if leb n 20 then some n else none
count_in_bounds (negsuc n) = none

-- pydantic's validation of the body; `none` is the status 422. A count that is left out is 1.
abbrev pub arm_request : Option FailureMode → Option ℕ → Option DemoArmRequest
arm_request (some m) (some n) = some (record { mode = m; count = n })
arm_request _ _ = none

abbrev pub given_count : Option ℤ → ℤ
given_count none = pos 1
given_count (some n) = n

unfoldable pub validate_arm : Text → Option ℤ → Option DemoArmRequest
validate_arm mode count = arm_request (mode_of modes mode) (count_in_bounds (given_count count))

abbrev pub with_tokens : (Tokens → Tokens) → Db → Db
with_tokens f db = record db { demo_failure_tokens = f db.demo_failure_tokens }

unfoldable pub get_state : Env → M DemoStateResponse
get_state env = read_only env (λ db. ok (state_response db.demo_failure_tokens))

-- The flushed change and the state that the same session then reads; the commit follows the response.
abbrev pub change_tokens : Env → (Time → Tokens → Tokens) → M DemoStateResponse
change_tokens env f w =
    let change : Db → Db = with_tokens (f (env.now w.transactions)) in
    (flush env (λ db. some (change db)) >> λ w'.
    respond (state_response (change w'.db).demo_failure_tokens)
      (commit_session env (λ db. some (change db))) w')
      w

abbrev pub arm_valid : Env → Option DemoArmRequest → M (Answer DemoStateResponse)
arm_valid env none = pure (http_exception 422)
arm_valid env (some r) = do s ← change_tokens env (λ now. arm now r.mode r.count); pure (answered s)

unfoldable pub arm_failure : Env → Text → Option ℤ → M (Answer DemoStateResponse)
arm_failure env mode count = arm_valid env (validate_arm mode count)

unfoldable pub clear_failures : Env → M DemoStateResponse
clear_failures env = change_tokens env (λ now. clear)
