-- ===== src/Repository/Reads/Pages.antt =====
-- A client that turns the pages sees every matching job once, the newest first.
use convoscore.Prelude.{
  ℕ, zero, suc, ◌+◌, Bool, true, false, ◌&&◌, Option, none, some, List, [], ◌∷◌, ◌++◌, ◌≡◌, ◌↔◌,
  refl, arith, length, filter, count-eq-length-filter, All, ap, ◌∙◌, sym, option_map,
}
use convoscore.Prelude.Maybe.{some_inj}
use convoscore.Prelude.Int.{ℤ, pos, ◌≤ℤ◌}
use convoscore.Sort.{order_by, length-order_by}
use convoscore.Text.{Text, is_iff}
use convoscore.Models.{Conversation, Db, status_value, source_value, sentiment_value}
use convoscore.Repository.Reads.{
  Filters, passes, at_least, apply_filters, newer, list_conversations,
}

-- The pages from an offset on, as `k` requests return them.
pub all_pages : ℕ → ℕ → ℕ → Filters → Db → List Conversation
all_pages zero limit offset f db = []
all_pages (suc k) limit offset f db =
    (list_conversations f limit offset db).0 ++ all_pages k limit (offset + limit) f db

-- What a client asks for.
abbrev pub Wants : Option Text → Option Text → Type 0
Wants none column = Unit
Wants (some []) column = Unit
Wants (some (c ∷ s)) column = column ≡ some (c ∷ s)

abbrev pub WantsRisk : Option ℕ → Option ℤ → Type 0
WantsRisk none risk = Unit
WantsRisk (some m) risk = (x : ℤ) × (risk ≡ some x) × (pos m ≤ℤ x)

pub record Matches (f : Filters) (r : Conversation) : Type 0 where
  pub by_status : Wants f.status (some (status_value r.status))
  pub by_source : Wants f.source (some (source_value r.source))
  pub by_sentiment : Wants f.sentiment (option_map sentiment_value r.sentiment)
  pub by_risk : WantsRisk f.min_risk r.risk_score

passes-Wants : (w c : Option Text) → passes w c ≡ true → Wants w c
passes-Wants none c h = tt
passes-Wants (some []) c h = tt
passes-Wants (some (x ∷ s)) none h = cc
passes-Wants (some (x ∷ s)) (some v) h = ap some ((is_iff v (x ∷ s)).0 h)

at_least-WantsRisk : (m : Option ℕ) (r : Option ℤ) → at_least m r ≡ true → WantsRisk m r
at_least-WantsRisk none r h = tt
at_least-WantsRisk (some m) none h = cc
at_least-WantsRisk (some m) (some x) h = (x, refl, ground arith)

and_split : (a b : Bool) → (a && b) ≡ true → (a ≡ true) × (b ≡ true)
and_split a b h = ground arith

apply_filters-Matches : (f : Filters) (r : Conversation) → apply_filters f r ≡ true → Matches f r
unfolding apply_filters
apply_filters-Matches f r h =
    let (a, h₁) = and_split _ _ h in
    let (b, h₂) = and_split _ _ h₁ in
    let (c, d) = and_split _ _ h₂ in
    record {
      by_status = passes-Wants f.status _ a;
      by_source = passes-Wants f.source _ b;
      by_sentiment = passes-Wants f.sentiment _ c;
      by_risk = at_least-WantsRisk f.min_risk r.risk_score d;
    }

Wants-passes : (w c : Option Text) → Wants w c → passes w c ≡ true
Wants-passes none c h = refl
Wants-passes (some []) c h = refl
Wants-passes (some (x ∷ s)) none h = cc
Wants-passes (some (x ∷ s)) (some v) h = (is_iff v (x ∷ s)).1 (some_inj h)

WantsRisk-at_least : (m : Option ℕ) (r : Option ℤ) → WantsRisk m r → at_least m r ≡ true
WantsRisk-at_least none r h = refl
WantsRisk-at_least (some m) none (x, e, h) = cc
WantsRisk-at_least (some m) (some y) (x, e, h) = ground (arith, some_inj e)

Matches-apply_filters : (f : Filters) (r : Conversation) → Matches f r → apply_filters f r ≡ true
unfolding apply_filters
Matches-apply_filters f r h =
    let a = Wants-passes f.status _ h.by_status in
    let b = Wants-passes f.source _ h.by_source in
    let c = Wants-passes f.sentiment _ h.by_sentiment in
    let d = WantsRisk-at_least f.min_risk r.risk_score h.by_risk in rw (a, b, c, d) refl

-- The WHERE clause of the query selects the rows that the client asks for, and no others.
abbrev pub SelectsMatches : Filters → Conversation → Type 0
SelectsMatches f r = (apply_filters f r ≡ true) ↔ Matches f r

pub apply_filters-SelectsMatches :
    (f : Filters) (rs : List Conversation) → All (SelectsMatches f) rs
apply_filters-SelectsMatches f [] = tt
apply_filters-SelectsMatches f (r ∷ rs) =
    ((apply_filters-Matches f r, Matches-apply_filters f r), apply_filters-SelectsMatches f rs)

pub newer_total : (r s : Conversation) → newer r s ≡ false → newer s r ≡ true
newer_total r s h = ground arith

pub newer_trans : (r s t : Conversation) → newer r s ≡ true → newer s t ≡ true → newer r t ≡ true
newer_trans r s t h k = ground arith

module _ (f : Filters) (db : Db) where
  abbrev pub sorted : List Conversation
  sorted = order_by newer (filter (apply_filters f) db.conversations)

  pub total-sorted : (limit offset : ℕ) → (list_conversations f limit offset db).1 ≡ length sorted
  unfolding list_conversations
  total-sorted limit offset =
      count-eq-length-filter (apply_filters f) db.conversations
      ∙ sym (length-order_by newer (filter (apply_filters f) db.conversations))
