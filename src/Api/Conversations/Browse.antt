-- ===== src/Api/Conversations/Browse.antt =====
-- What the reading endpoints answer on a well-formed table.
use mathlib.Core.List.{Perm}
use convoscore.Prelude.{ℕ, Option, List, [], ◌∷◌, ◌≡◌, length, filter, All, take, drop, option_map}
use convoscore.Models.{Conversation, Db, status_value, source_value, sentiment_value}
use convoscore.Repository.Reads.{Filters, apply_filters, newer}
use convoscore.Repository.Reads.Pages.{SelectsMatches}
use convoscore.Sort.{IsOrdered}
use convoscore.Scoring.Contract.{RiskBand, band_value}
use convoscore.Runtime.{Result, ok}
use convoscore.Api.Serializers.{ConversationSummary, job_band}
use convoscore.Api.Conversations.{Answer, answered, ConversationListResponse}

-- A summary shows what its row says.
pub record Summarizes (r : Conversation) (t : ConversationSummary) : Type 0 where
  pub same_id : t.id ≡ r.id
  pub same_source : (t.source ≡ source_value r.source) × (t.source_ref ≡ r.source_ref)
  pub same_status : t.status ≡ status_value r.status
  pub same_sentiment : t.sentiment ≡ option_map sentiment_value r.sentiment
  pub same_risk : t.risk_score ≡ r.risk_score
  pub same_band :
      (b : Option RiskBand) × (job_band r ≡ ok b) × (t.risk_band ≡ option_map band_value b)
  pub same_counts : (t.message_count ≡ r.message_count) × (t.attempt_count ≡ r.attempt_count)
  pub same_times : (t.created_at ≡ r.created_at) × (t.completed_at ≡ r.completed_at)

-- One by one, and as many.
abbrev pub Summaries : List Conversation → List ConversationSummary → Type 0
Summaries [] [] = Unit
Summaries (r ∷ rs) (t ∷ ts) = Summarizes r t × Summaries rs ts
Summaries _ _ = ⊥

-- `rows` are all jobs that match, the newest first.
pub record AllMatches (f : Filters) (db : Db) (rows : List Conversation) : Type 0 where
  pub selected : Perm rows (filter (apply_filters f) db.conversations)
  pub matching : All (SelectsMatches f) db.conversations
  pub ordered : IsOrdered newer rows

-- The answer shows the page of these rows that starts at the offset, with their number.
abbrev pub Answers : Filters → ℕ → ℕ → Db → Result (Answer ConversationListResponse) → Type 0
Answers f limit offset db answer =
    (v : ConversationListResponse) × (rows : List Conversation) × (answer ≡ ok (answered v))
    × AllMatches f db rows
    × Summaries (take limit (drop offset rows)) v.items
    × (v.total ≡ length rows)
