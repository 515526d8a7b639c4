-- ===== src/Api/Stats.antt =====
-- app/api/stats.py and its responses in app/schemas.py: the aggregates of the overview page.
use convoscore.Prelude.{
  ℕ, ◌+◌, ◌≤◌, Bool, true, false, Option, List, [], ◌∷◌, ◌≡◌, refl, ◌∙◌, arith, length, map, count,
  length-map,
}
use convoscore.Prelude.Int.{ℤ}
use convoscore.Text.{Text, text, ◌is◌}
use convoscore.Models.{
  Conversation, Db, JobStatus, pending, processing, completed, failed, status_value, source_value,
  sentiment_value, Sentiment,
}
use convoscore.Repository.Reads.{
  Groups, group_by, group_count, present, count_by_status, Stats, stats,
}
use convoscore.Repository.Reads.Totals.{group_count-group_by, group_total, group_total-group_by}

pub record StatusCounts : Type 0 where
  pub pending : ℕ
  pub processing : ℕ
  pub completed : ℕ
  pub failed : ℕ

-- The property `total`.
abbrev pub status_total : StatusCounts → ℕ
status_total c = c.pending + c.processing + c.completed + c.failed

pub record StatsResponse (Float : Type 0) : Type 0 where
  pub total_jobs : ℕ
  pub by_status : StatusCounts
  pub by_source : Groups
  pub by_sentiment : Groups
  pub average_risk_score : Option Float
  pub max_risk_score : Option ℤ
  pub prompt_tokens : ℕ
  pub completion_tokens : ℕ
  pub total_tokens : ℕ
  pub estimated_cost_usd : ℕ
  pub average_llm_latency_ms : Option Float

unfoldable pub status_counts : Groups → StatusCounts
status_counts counts = record {
  pending = group_count (text "pending") counts;
  processing = group_count (text "processing") counts;
  completed = group_count (text "completed") counts;
  failed = group_count (text "failed") counts;
}

abbrev pub stats_response : {Float : Type 0} → Stats Float → StatsResponse Float
stats_response totals = record {
  total_jobs = totals.total_jobs;
  by_status = status_counts totals.by_status;
  by_source = totals.by_source;
  by_sentiment = totals.by_sentiment;
  average_risk_score = totals.average_risk_score;
  max_risk_score = totals.max_risk_score;
  prompt_tokens = totals.prompt_tokens;
  completion_tokens = totals.completion_tokens;
  total_tokens = totals.total_tokens;
  estimated_cost_usd = totals.estimated_cost_usd;
  average_llm_latency_ms = totals.average_llm_latency_ms;
}

-- `get_stats`, on the database that its session reads.
unfoldable pub get_stats :
    {Float : Type 0} → (List ℤ → Float) → (List ℕ → Float) → Db → StatsResponse Float
get_stats average_ℤ average_ℕ db = stats_response (stats average_ℤ average_ℕ db)

abbrev status_text : Conversation → Text
status_text r = status_value r.status

abbrev pub same_status : JobStatus → JobStatus → Bool
same_status pending pending = true
same_status processing processing = true
same_status completed completed = true
same_status failed failed = true
same_status _ _ = false

-- The count that the response has for a status.
abbrev pub count_of : JobStatus → StatusCounts → ℕ
count_of pending c = c.pending
count_of processing c = c.processing
count_of completed c = c.completed
count_of failed c = c.failed

value_same : (s t : JobStatus) → (status_value t is status_value s) ≡ same_status s t
unfolding ◌is◌
value_same s t = ground arith

count-status :
    (s : JobStatus) (rs : List Conversation)
    → count (λ j. j is status_value s) (map status_text rs) ≡ count (λ r. same_status s r.status) rs
count-status s [] = refl
count-status s (r ∷ rs) = ground (arith, value_same s r.status, count-status s rs)

count_of-status_counts :
    (s : JobStatus) (counts : Groups)
    → count_of s (status_counts counts) ≡ group_count (status_value s) counts
unfolding status_counts
count_of-status_counts pending counts = refl
count_of-status_counts processing counts = refl
count_of-status_counts completed counts = refl
count_of-status_counts failed counts = refl

counts-total :
    (rs : List Conversation)
    → count (λ r. same_status pending r.status) rs
        + count (λ r. same_status processing r.status) rs
        + count (λ r. same_status completed r.status) rs
        + count (λ r. same_status failed r.status) rs
      ≡ length rs
counts-total [] = refl
counts-total (r ∷ rs) = ground (arith, counts-total rs)

length-present :
    (f : Conversation → Option Sentiment) (rs : List Conversation)
    → length (present f rs) ≤ length rs
unfolding present
length-present f [] = omega arith
length-present f (r ∷ rs) = ground (arith, length-present f rs)

-- The overview adds up on one state of the table: each status has the number of jobs with that status, the four of them and the
-- sources add up to all jobs, and the sentiments to no more.
pub get_stats-totals :
    {Float : Type 0} (average_ℤ : List ℤ → Float) (average_ℕ : List ℕ → Float) (db : Db)
    (s : JobStatus)
    → let v = get_stats average_ℤ average_ℕ db in
      (count_of s v.by_status ≡ count (λ r. same_status s r.status) db.conversations)
      × (status_total v.by_status ≡ v.total_jobs)
      × (group_total v.by_source ≡ v.total_jobs)
      × (group_total v.by_sentiment ≤ v.total_jobs)
unfolding get_stats stats count_by_status
get_stats-totals average_ℤ average_ℕ db s =
    let rows = db.conversations in
    let counts = group_by (map status_text rows) in
    let each : (t : JobStatus)
        → count_of t (status_counts counts) ≡ count (λ r. same_status t r.status) rows =
      λ t.
        count_of-status_counts t counts
        ∙ group_count-group_by (status_value t) (map status_text rows)
        ∙ count-status t rows in
    (
      each s,
      omega (arith, each pending, each processing, each completed, each failed, counts-total rows),
      group_total-group_by (map (λ r. source_value r.source) rows)
          ∙ length-map (λ (r : Conversation). source_value r.source) rows,
      omega (
        arith,
        group_total-group_by
            (map sentiment_value (present (λ (r : Conversation). r.sentiment) rows)),
        length-map sentiment_value (present (λ (r : Conversation). r.sentiment) rows),
        length-present (λ (r : Conversation). r.sentiment) rows,
      ),
    )
