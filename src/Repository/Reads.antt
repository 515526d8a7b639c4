-- ===== src/Repository/Reads.antt =====
-- app/repository.py: browsing and the aggregates. NULL is `none`; a comparison with NULL does not
-- pass.
pub mod Pages
pub mod Totals
use convoscore.Prelude.{
  ℕ, ◌+◌, ◌-◌, Bool, true, false, ◌&&◌, ◌||◌, Option, none, some, List, [], ◌∷◌, ltb, leb, ◌==◌,
  if◌then◌else◌, length, filter, count, sum_of, get_or_else, map, max, min, option_map,
}
use convoscore.Prelude.Int.{ℤ, pos, leb_ℤ}
use convoscore.Sort.{order_by, page_of}
use convoscore.Text.{Text, ◌is◌}
use convoscore.Models.{
  Uuid, Time, Conversation, Db, status_value, source_value, sentiment_value, is_open,
}

-- The keyword arguments that filter.
pub record Filters : Type 0 where
  pub status : Option Text
  pub source : Option Text
  pub sentiment : Option Text
  pub min_risk : Option ℕ

-- `if value: statement.where(column == value)`: None and the empty text filter nothing.
abbrev pub passes : Option Text → Option Text → Bool
passes none column = true
passes (some []) column = true
passes (some (c ∷ s)) none = false
passes (some (c ∷ s)) (some v) = v is (c ∷ s)

abbrev pub at_least : Option ℕ → Option ℤ → Bool
at_least none risk = true
at_least (some m) none = false
at_least (some m) (some r) = leb_ℤ (pos m) r

unfoldable pub apply_filters : Filters → Conversation → Bool
apply_filters f r =
    passes f.status (some (status_value r.status))
    && (passes f.source (some (source_value r.source))
        && (passes f.sentiment (option_map sentiment_value r.sentiment)
            && at_least f.min_risk r.risk_score))

-- ORDER BY created_at DESC, id DESC.
abbrev pub newer : Conversation → Conversation → Bool
newer r s = ltb s.created_at r.created_at || (r.created_at == s.created_at && leb s.id r.id)

unfoldable pub list_conversations : Filters → ℕ → ℕ → Db → List Conversation × ℕ
list_conversations f limit offset db =
    let matching = filter (apply_filters f) db.conversations in
    (page_of limit offset (order_by newer matching), count (apply_filters f) db.conversations)

-- SELECT key, count(*) ... GROUP BY key: the groups that occur, with their sizes.
abbrev pub Groups : Type 0
Groups = List (Text × ℕ)

unfoldable pub add_to_group : Text → Groups → Groups
add_to_group k [] = (k, 1) ∷ []
add_to_group k ((j, n) ∷ rest) = if j is k then (j, n + 1) ∷ rest else (j, n) ∷ add_to_group k rest

unfoldable pub group_by : List Text → Groups
group_by [] = []
group_by (k ∷ ks) = add_to_group k (group_by ks)

-- `counts.get(key, 0)`.
unfoldable pub group_count : Text → Groups → ℕ
group_count k [] = 0
group_count k ((j, n) ∷ rest) = if j is k then n else group_count k rest

-- The values of a column that are not NULL.
unfoldable pub present {ℓ κ} : {A : Type ℓ} {B : Type κ} → (A → Option B) → List A → List B
present f [] = []
present f (x ∷ xs) = elim (f x) [ none ↦ present f xs | some v ↦ v ∷ present f xs ]

unfoldable pub count_by_status : Db → Groups
count_by_status db = group_by (map (λ r. status_value r.status) db.conversations)

-- SELECT min(created_at).
unfoldable pub oldest : List Time → Option Time
oldest [] = none
oldest (t ∷ ts) = elim (oldest ts) [ none ↦ some t | some u ↦ some (min t u) ]

-- In microseconds; the truncated difference is `max(0.0, now - oldest)`.
unfoldable pub oldest_pending_age_seconds : Time → Db → Time
oldest_pending_age_seconds now db =
    elim (oldest (
      map (λ (r : Conversation). r.created_at) (filter (λ r. is_open r.status) db.conversations))) [
        | none ↦ 0
        | some t ↦ now - t
      ]

-- SELECT max(risk_score).
abbrev pub larger : ℤ → ℤ → ℤ
larger a b = if leb_ℤ a b then b else a

unfoldable pub largest : List ℤ → Option ℤ
largest [] = none
largest (x ∷ xs) = elim (largest xs) [ none ↦ some x | some y ↦ some (larger x y) ]

pub record Stats (Float : Type 0) : Type 0 where
  pub total_jobs : ℕ
  pub by_status : Groups
  pub by_source : Groups
  pub by_sentiment : Groups
  pub average_risk_score : Option Float
  pub max_risk_score : Option ℤ
  pub prompt_tokens : ℕ
  pub completion_tokens : ℕ
  pub total_tokens : ℕ
  pub estimated_cost_usd : ℕ
  pub average_llm_latency_ms : Option Float

-- `stats`. `average` is `float(avg(...))` of the values that are not NULL, which is NULL of none.
abbrev pub average_of {κ} : {Float : Type 0} {V : Type κ} → (List V → Float) → List V → Option Float
average_of average [] = none
average_of average (x ∷ xs) = some (average (x ∷ xs))

unfoldable pub stats : {Float : Type 0} → (List ℤ → Float) → (List ℕ → Float) → Db → Stats Float
stats average_ℤ average_ℕ db =
    let rows = db.conversations in
    record {
      total_jobs = length rows;
      by_status = count_by_status db;
      by_source = group_by (map (λ r. source_value r.source) rows);
      by_sentiment =
          group_by (map sentiment_value (present (λ (r : Conversation). r.sentiment) rows));
      average_risk_score = average_of average_ℤ (present (λ (r : Conversation). r.risk_score) rows);
      max_risk_score = largest (present (λ (r : Conversation). r.risk_score) rows);
      prompt_tokens = sum_of (λ n. n) (present (λ (r : Conversation). r.prompt_tokens) rows);
      completion_tokens =
          sum_of (λ n. n) (present (λ (r : Conversation). r.completion_tokens) rows);
      total_tokens = sum_of (λ n. n) (present (λ (r : Conversation). r.total_tokens) rows);
      estimated_cost_usd =
          sum_of (λ n. n) (present (λ (r : Conversation). r.estimated_cost_usd) rows);
      average_llm_latency_ms =
          average_of average_ℕ (present (λ (r : Conversation). r.llm_latency_ms) rows);
    }
