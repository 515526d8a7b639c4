-- ===== src/Api/Conversations/Query.antt =====
-- The `Query` parameters of `GET /conversations` and the three calls of `_validate_enum`, said without
-- the handler's tests.
use convoscore.Prelude.{
  ℕ, ◌≤◌, Bool, true, Option, none, some, List, [], ◌∷◌, ◌≡◌, ◌↔◌, refl, arith, map, Bool-cases,
  inl, inr, subst, sym, ◌&&◌,
}
use convoscore.Text.{Text, ◌is◌, is_iff}
use convoscore.Models.{
  JobStatus, pending, processing, completed, failed, status_value, JobSource, api, s3, source_value,
  Sentiment, positive, neutral, negative, sentiment_value,
}
use convoscore.Repository.Reads.{Filters}
use convoscore.Api.Conversations.{
  is_member, validate_enum, statuses, sources, sentiments, in_bounds, accepts_query,
}

-- Not given, or the value of a member of the enumeration.
abbrev pub ValueOf : {A : Type 0} → (A → Text) → Option Text → Type 0
ValueOf value none = Unit
ValueOf {A} value (some t) = (a : A) × (t ≡ value a)

abbrev pub AtMost : ℕ → Option ℕ → Type 0
AtMost bound none = Unit
AtMost bound (some n) = n ≤ bound

-- The limit is from 1 to 200, the least risk score at most 100, and every word is one of its
-- enumeration.
pub record ValidQuery (f : Filters) (limit : ℕ) : Type 0 where
  pub some_rows : 1 ≤ limit
  pub bounded_rows : limit ≤ 200
  pub bounded_risk : AtMost 100 f.min_risk
  pub known_status : ValueOf status_value f.status
  pub known_source : ValueOf source_value f.source
  pub known_sentiment : ValueOf sentiment_value f.sentiment

is_member-map :
    {A : Type 0}
    → (value : A → Text) (members : List A) (v : Text) → is_member v (map value members) ≡ true
    → (a : A) × (v ≡ value a)
unfolding is_member
is_member-map value [] v h = cc
is_member-map value (a ∷ members) v h = elim (Bool-cases (v is value a)) [
  | inl same ↦ (a, (is_iff v (value a)).0 same)
  | inr other ↦ is_member-map value members v (rw other at h)
]

ValueOf-validate_enum :
    {A : Type 0}
    → (value : A → Text) (members : List A) (w : Option Text)
    → ((a : A) → is_member (value a) (map value members) ≡ true)
    → (validate_enum w (map value members) ≡ true) ↔ ValueOf value w
ValueOf-validate_enum value members none whole = (λ h. tt, λ h. refl)
ValueOf-validate_enum value members (some t) whole = (
  is_member-map value members t,
  λ (a, e). subst (λ v. is_member v (map value members) ≡ true) (sym e) (whole a),
)

status_is_member : (s : JobStatus) → is_member (status_value s) statuses ≡ true
unfolding is_member ◌is◌
status_is_member pending = refl
status_is_member processing = refl
status_is_member completed = refl
status_is_member failed = refl

source_is_member : (s : JobSource) → is_member (source_value s) sources ≡ true
unfolding is_member ◌is◌
source_is_member api = refl
source_is_member s3 = refl

sentiment_is_member : (s : Sentiment) → is_member (sentiment_value s) sentiments ≡ true
unfolding is_member ◌is◌
sentiment_is_member positive = refl
sentiment_is_member neutral = refl
sentiment_is_member negative = refl

status_words : (w : Option Text) → (validate_enum w statuses ≡ true) ↔ ValueOf status_value w
status_words w =
    ValueOf-validate_enum status_value (pending ∷ processing ∷ completed ∷ failed ∷ []) w
      status_is_member

source_words : (w : Option Text) → (validate_enum w sources ≡ true) ↔ ValueOf source_value w
source_words w = ValueOf-validate_enum source_value (api ∷ s3 ∷ []) w source_is_member

sentiment_words :
    (w : Option Text) → (validate_enum w sentiments ≡ true) ↔ ValueOf sentiment_value w
sentiment_words w =
    ValueOf-validate_enum sentiment_value (positive ∷ neutral ∷ negative ∷ []) w sentiment_is_member

in_bounds_iff :
    (risk : Option ℕ) (limit : ℕ)
    → (in_bounds risk limit ≡ true) ↔ ((1 ≤ limit) × (limit ≤ 200) × AtMost 100 risk)
in_bounds_iff none limit =
    (λ h. (ground (arith, h), ground (arith, h), tt), λ h. ground (arith, h.0, h.1))
in_bounds_iff (some risk) limit =
    (λ h. (ground (arith, h), ground (arith, h), ground (arith, h)), λ h. ground (arith, h.0, h.1))

and_split : (a b : Bool) → (a && b) ≡ true → (a ≡ true) × (b ≡ true)
and_split a b h = ground arith

pub accepts_query_iff :
    (f : Filters) (limit : ℕ) → (accepts_query f limit ≡ true) ↔ ValidQuery f limit
accepts_query_iff f limit = (forth, back)
  where
    forth : accepts_query f limit ≡ true → ValidQuery f limit
    forth h =
        let (a, h₁) = and_split _ _ h in
        let (b, h₂) = and_split _ _ h₁ in
        let (c, d) = and_split _ _ h₂ in
        let (low, high, risk) = (in_bounds_iff f.min_risk limit).0 a in
        record {
          some_rows = low;
          bounded_rows = high;
          bounded_risk = risk;
          known_status = (status_words f.status).0 b;
          known_source = (source_words f.source).0 c;
          known_sentiment = (sentiment_words f.sentiment).0 d;
        }

    back : ValidQuery f limit → accepts_query f limit ≡ true
    back q =
        let a = (in_bounds_iff f.min_risk limit).1 (q.some_rows, q.bounded_rows, q.bounded_risk) in
        let b = (status_words f.status).1 q.known_status in
        let c = (source_words f.source).1 q.known_source in
        let d = (sentiment_words f.sentiment).1 q.known_sentiment in rw (a, b, c, d) refl
