-- ===== src/Repository/Jobs.antt =====
-- app/repository.py: creation, claiming and finishing. Every function takes the database as the
-- transaction sees it and the database's clock at that time, `now()`.
use convoscore.Prelude.{
  ℕ, ◌+◌, ◌-◌, Bool, true, ◌&&◌, Option, none, some, [], ◌∷◌, ◌++◌, length, take, leb, ltb,
  if◌then◌else◌, is_some, get_or_else, count, ◌==◌,
}
use convoscore.Table.{lookup, update_where, at_key}
use convoscore.Text.{Text, text}
use convoscore.Models.{
  Uuid, Time, seconds, pending, processing, completed, failed, is_terminal, is_processing, is_open,
  JobSource, ErrorType, enqueue_failed, last_error_max_chars, Conversation, Db,
}
use convoscore.Schemas.{ConversationInput, normalized, content_hash, Digest}
use convoscore.Scoring.Provider.{ScoringOutcome}

abbrev pub job_key : Conversation → Uuid
job_key r = r.id

-- `session.get(Conversation, job_id, populate_existing=True)`.
unfoldable pub get_job : Uuid → Db → Option Conversation
get_job job_id db = lookup job_key job_id db.conversations

-- `_truncate`.
unfoldable pub truncate : Text → Text
truncate t =
    if leb (length t) last_error_max_chars then t else take (last_error_max_chars - 1) t ++ text "…"

-- UPDATE conversations SET f WHERE id = job_id AND g, with the number of rows it matched.
unfoldable pub update_job :
    Uuid → (Conversation → Bool) → (Conversation → Conversation) → Db → ℕ × Db
update_job job_id g f db = (
  count (at_key job_key job_id g) db.conversations,
  record db { conversations = update_where (at_key job_key job_id g) f db.conversations },
)

-- `create_job`: `id` is the value of `uuid.uuid4()`. The flush fails when the key is taken.
abbrev pub new_job :
    Digest → Time → Uuid → ConversationInput → JobSource → ℕ → Option Text → Conversation
new_job digest now id c source max_attempts source_ref = record {
  id = id;
  source = source;
  source_ref = source_ref;
  conversation = normalized c;
  conversation_hash = content_hash digest c;
  message_count = length c.messages;
  status = pending;
  attempt_count = 0;
  max_attempts = max_attempts;
  locked_until = none;
  last_error_type = none;
  last_error = none;
  sentiment = none;
  risk_score = none;
  rationale = none;
  model = none;
  prompt_version = none;
  schema_version = none;
  prompt_tokens = none;
  completion_tokens = none;
  total_tokens = none;
  llm_latency_ms = none;
  estimated_cost_usd = none;
  pricing_version = none;
  created_at = now;
  enqueued_at = none;
  started_at = none;
  completed_at = none;
  updated_at = now;
}

-- INSERT INTO conversations; `none` is an IntegrityError.
unfoldable pub insert_job : Conversation → Db → Option Db
insert_job job db =
    if is_some (lookup job_key job.id db.conversations)
    then none
    else some (record db { conversations = db.conversations ++ job ∷ [] })

unfoldable pub create_job :
    Digest → Time → Uuid → ConversationInput → JobSource → ℕ → Option Text → Db → Option Db
create_job digest now id c source max_attempts source_ref =
    insert_job (new_job digest now id c source max_attempts source_ref)

abbrev pub enqueued_row : Time → Conversation → Conversation
enqueued_row now r = record r { enqueued_at = some now; updated_at = now }

unfoldable pub mark_enqueued : Time → Uuid → Db → Db
mark_enqueued now job_id db = (update_job job_id (λ r. true) (enqueued_row now) db).1

abbrev pub enqueue_failed_row : Time → Text → Conversation → Conversation
enqueue_failed_row now error r = record r {
  status = failed;
  last_error_type = some enqueue_failed;
  last_error = some (truncate error);
  completed_at = some now;
  updated_at = now;
}

unfoldable pub mark_enqueue_failed : Time → Uuid → Text → Db → Db
mark_enqueue_failed now job_id error db =
    (update_job job_id (λ r. true) (enqueue_failed_row now error) db).1

pub data ClaimOutcome : Type 0 where
  claimed already_finished held_by_another_worker not_found : ClaimOutcome

-- `locked_until IS NULL OR locked_until < now()`.
abbrev pub lock_is_free : Time → Option Time → Bool
lock_is_free now none = true
lock_is_free now (some t) = ltb t now

abbrev pub is_claimable : Time → Conversation → Bool
is_claimable now r = is_open r.status && lock_is_free now r.locked_until

abbrev pub claimed_row : Time → ℕ → Conversation → Conversation
claimed_row now timeout r = record r {
  status = processing;
  attempt_count = r.attempt_count + 1;
  started_at = some (get_or_else r.started_at now);
  locked_until = some (now + seconds timeout);
  updated_at = now;
}

-- Why nothing was claimed.
abbrev pub refusal : Option Conversation → ClaimOutcome
refusal none = not_found
refusal (some r) = if is_terminal r.status then already_finished else held_by_another_worker

-- `claim_job`, with the outcome and the row of its `ClaimResult`. `claimed_id is not None` exactly
-- when the UPDATE matched a row.
unfoldable pub claim_job : Time → Uuid → ℕ → Db → (ClaimOutcome × Option Conversation) × Db
claim_job now job_id timeout db =
    let (matched, db') = update_job job_id (is_claimable now) (claimed_row now timeout) db in
    let job = get_job job_id db' in
    if ltb 0 matched then ((claimed, job), db') else ((refusal job, job), db')

abbrev pub completed_row : Time → ScoringOutcome → Conversation → Conversation
completed_row now o r = record r {
  status = completed;
  sentiment = some o.result.sentiment;
  risk_score = some o.result.risk_score;
  rationale = some o.result.rationale;
  model = some o.model;
  prompt_version = some o.prompt_version;
  schema_version = some o.schema_version;
  prompt_tokens = o.prompt_tokens;
  completion_tokens = o.completion_tokens;
  total_tokens = o.total_tokens;
  llm_latency_ms = some o.latency_ms;
  estimated_cost_usd = o.estimated_cost_usd;
  pricing_version = some o.pricing_version;
  last_error_type = none;
  last_error = none;
  locked_until = none;
  completed_at = some now;
  updated_at = now;
}

-- `complete_job`, on the values that the worker passes.
unfoldable pub complete_job : Time → Uuid → ScoringOutcome → Db → Bool × Db
complete_job now job_id o db =
    let (matched, db') = update_job job_id (λ r. is_processing r.status) (completed_row now o) db in
    (matched == 1, db')

abbrev pub released_row : Time → ErrorType → Text → Conversation → Conversation
released_row now kind error r = record r {
  status = pending;
  last_error_type = some kind;
  last_error = some (truncate error);
  locked_until = none;
  updated_at = now;
}

unfoldable pub release_job_for_retry : Time → Uuid → ErrorType → Text → Db → Bool × Db
release_job_for_retry now job_id kind error db =
    let (matched, db') =
      update_job job_id (λ r. is_processing r.status) (released_row now kind error) db in
    (matched == 1, db')

abbrev pub failed_row : Time → ErrorType → Text → Conversation → Conversation
failed_row now kind error r = record r {
  status = failed;
  last_error_type = some kind;
  last_error = some (truncate error);
  locked_until = none;
  completed_at = some now;
  updated_at = now;
}

unfoldable pub fail_job : Time → Uuid → ErrorType → Text → Db → Bool × Db
fail_job now job_id kind error db =
    let (matched, db') = update_job job_id (λ r. is_open r.status) (failed_row now kind error) db in
    (matched == 1, db')
