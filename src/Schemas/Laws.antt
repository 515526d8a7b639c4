-- ===== src/Schemas/Laws.antt =====
-- What validation guarantees of an accepted input, and that a stored payload is accepted again.

use convoscore.Prelude.{
  leb→le, le→leb, option_map, ℕ, subst, get_or_else, ◌≤◌, Bool, true, false, Option, none, some,
  List, [], ◌∷◌, ◌≡◌, refl, length, any, All, arith, leb,
}
use convoscore.Prelude.Maybe.{◌>>=◌, guard, >>=-eq-some, some_inj}
use convoscore.Text.{Text, text, ◌is◌}
use convoscore.Json.{Json, null, str, arr, obj, Items, nil, cons, get_field}
use convoscore.Schemas.{
  Coercion, Message, ConversationMetadata, ConversationInput, max_messages, max_total_chars,
  max_message_chars, is_customer, total_chars, validate_role, validate_str, validate_message,
  validate_items, validate_messages, validate_optional, validate_tag_items, validate_tags,
  validate_metadata, check_total_size, model_validate, dump_message, dump_messages, dump_tags,
  dump_metadata, normalized, only_known,
}

abbrev pub MessageFits : Message → Type 0
MessageFits m = (1 ≤ length m.content) × (length m.content ≤ max_message_chars)

abbrev pub OptionFits : ℕ → Option Text → Type 0
OptionFits hi none = Unit
OptionFits hi (some s) = length s ≤ hi

abbrev pub TagFits : Text → Type 0
TagFits t = length t ≤ 64

pub record MetadataFits (m : ConversationMetadata) : Type 0 where
  pub channel_fits : OptionFits 64 m.channel
  pub tags_fit : All TagFits m.tags
  pub tags_few : length m.tags ≤ 10
  pub external_id_fits : OptionFits 128 m.external_id

pub record InputFits (c : ConversationInput) : Type 0 where
  pub some_message : 1 ≤ length c.messages
  pub messages_few : length c.messages ≤ max_messages
  pub messages_fit : All MessageFits c.messages
  pub total_fits : total_chars c.messages ≤ max_total_chars
  pub has_customer : any is_customer c.messages ≡ true
  pub metadata_fits : MetadataFits c.metadata

abbrev metadata_names : List Text
metadata_names = text "channel" ∷ text "tags" ∷ text "external_id" ∷ []

abbrev input_names : List Text
input_names = text "messages" ∷ text "metadata" ∷ []

guard-true : (b : Bool) {u : Unit {0}} → guard b ≡ some u → b ≡ true
guard-true true h = refl
guard-true false h = cc

module _ (py : Coercion) where
  pub validate_str-fits :
      (lo hi : ℕ) (j : Json) {s : Text}
      → validate_str py lo hi j ≡ some s
      → (lo ≤ length s) × (length s ≤ hi)
  unfolding validate_str
  validate_str-fits lo hi j h = ground arith

  validate_str_str :
      (lo hi : ℕ) (s : Text)
      → lo ≤ length s
      → length s ≤ hi
      → validate_str py lo hi (str s) ≡ some s
  unfolding validate_str
  validate_str_str lo hi s p q = ground (arith, py.as_str-str s)

  validate_message-fits : (j : Json) {m : Message} → validate_message py j ≡ some m → MessageFits m
  unfolding validate_message
  validate_message-fits (obj fs) h =
      let (_, _, h₁) =
        >>=-eq-some (guard (only_known (text "role" ∷ text "content" ∷ []) fs)) _ h in
      let (role, _, h₂) = >>=-eq-some (get_field (text "role") fs >>= validate_role) _ h₁ in
      let (content, at, h₃) =
        >>=-eq-some (get_field (text "content") fs >>= validate_str py 1 max_message_chars) _ h₂ in
      let (_, _, e) =
        >>=-eq-some (get_field (text "content") fs) (validate_str py 1 max_message_chars) at in
      ground (arith, validate_str-fits 1 max_message_chars _ e)
  validate_message-fits _ h = cc

  validate_message_dump :
      (m : Message) → MessageFits m → validate_message py (dump_message m) ≡ some m
  unfolding validate_message dump_message get_field only_known ◌is◌ validate_role
  validate_message_dump m h = ground (arith, validate_str_str 1 max_message_chars m.content h.0 h.1)

  validate_items-fits :
      (items : Items) {ms : List Message} → validate_items py items ≡ some ms → All MessageFits ms
  unfolding validate_items
  validate_items-fits nil h = subst (λ o. All MessageFits (get_or_else o [])) h tt
  validate_items-fits (cons j rest) {ms} h =
      let (m, e, h₁) = >>=-eq-some (validate_message py j) _ h in
      let (ms', e', h₂) = >>=-eq-some (validate_items py rest) (λ ms'. some (m ∷ ms')) h₁ in
      subst (λ o. All MessageFits (get_or_else o [])) h₂
        (validate_message-fits j e, validate_items-fits rest e')

  validate_items_dump :
      (ms : List Message) → All MessageFits ms → validate_items py (dump_messages ms) ≡ some ms
  unfolding validate_items dump_messages
  validate_items_dump [] h = refl
  validate_items_dump (m ∷ ms) h = rw (validate_message_dump m h.0, validate_items_dump ms h.1)

  validate_messages-fits :
      (j : Json) {ms : List Message}
      → validate_messages py j ≡ some ms
      → (1 ≤ length ms) × (length ms ≤ max_messages) × All MessageFits ms
  unfolding validate_messages
  validate_messages-fits (arr items) {ms} h =
      let (ms', e, h₁) = >>=-eq-some (validate_items py items) _ h in
      let same : ms' ≡ ms = ground arith in
      let bounds : (1 ≤ length ms') × (length ms' ≤ max_messages) = ground arith in
      subst (λ l. (1 ≤ length l) × (length l ≤ max_messages) × All MessageFits l) same
        (bounds.0, bounds.1, validate_items-fits items e)
  validate_messages-fits _ h = cc

  option_map-some-fits :
      (hi : ℕ) (o : Option Text) {r : Option Text}
      → ((t : Text) → o ≡ some t → length t ≤ hi)
      → option_map some o ≡ some r
      → OptionFits hi r
  option_map-some-fits hi none k h = cc
  option_map-some-fits hi (some t) k h =
      subst (λ o. OptionFits hi (get_or_else o none)) h (k t refl)

  validate_optional-fits :
      (hi : ℕ) (o : Option Json) {r : Option Text}
      → validate_optional py hi o ≡ some r
      → OptionFits hi r
  unfolding validate_optional
  validate_optional-fits hi none h = subst (λ o. OptionFits hi (get_or_else o none)) h tt
  validate_optional-fits hi (some null) h = subst (λ o. OptionFits hi (get_or_else o none)) h tt
  validate_optional-fits hi (some j) h =
      option_map-some-fits hi (validate_str py 0 hi j) (λ t e. (validate_str-fits 0 hi j e).1) h

  validate_optional_str :
      (hi : ℕ) (s : Text) → length s ≤ hi → validate_optional py hi (some (str s)) ≡ some (some s)
  unfolding validate_optional
  validate_optional_str hi s h = ground (arith, validate_str_str 0 hi s)

  validate_tag_items-fits :
      (items : Items) {ts : List Text} → validate_tag_items py items ≡ some ts → All TagFits ts
  unfolding validate_tag_items
  validate_tag_items-fits nil h = subst (λ o. All TagFits (get_or_else o [])) h tt
  validate_tag_items-fits (cons j rest) {ts} h =
      let (t, e, h₁) = >>=-eq-some (validate_str py 0 64 j) _ h in
      let (ts', e', h₂) = >>=-eq-some (validate_tag_items py rest) (λ ts'. some (t ∷ ts')) h₁ in
      subst (λ o. All TagFits (get_or_else o [])) h₂
        ((validate_str-fits 0 64 j e).1, validate_tag_items-fits rest e')

  validate_tag_items_dump :
      (ts : List Text) → All TagFits ts → validate_tag_items py (dump_tags ts) ≡ some ts
  unfolding validate_tag_items dump_tags
  validate_tag_items_dump [] h = refl
  validate_tag_items_dump (t ∷ ts) h =
      rw (validate_str_str 0 64 t (omega arith) h.0, validate_tag_items_dump ts h.1)

  validate_tags-fits :
      (o : Option Json) {ts : List Text}
      → validate_tags py o ≡ some ts
      → All TagFits ts × (length ts ≤ 10)
  unfolding validate_tags
  validate_tags-fits none h =
      subst (λ o. All TagFits (get_or_else o []) × (length (get_or_else o []) ≤ 10)) h
        (tt, omega arith)
  validate_tags-fits (some (arr items)) {ts} h =
      let (ts', e, h₁) = >>=-eq-some (validate_tag_items py items) _ h in
      let same : ts' ≡ ts = ground arith in
      let few : length ts' ≤ 10 = ground arith in
      subst (λ l. All TagFits l × (length l ≤ 10)) same (validate_tag_items-fits items e, few)
  validate_tags-fits (some _) h = cc

  validate_metadata-fits :
      (o : Option Json) {m : ConversationMetadata}
      → validate_metadata py o ≡ some m
      → MetadataFits m
  unfolding validate_metadata
  validate_metadata-fits none h =
      subst MetadataFits (some_inj h)
        (record { channel_fits = tt; tags_fit = tt; tags_few = omega arith; external_id_fits = tt })
  validate_metadata-fits (some (obj fs)) h =
      let (_, _, h₁) = >>=-eq-some (guard (only_known metadata_names fs)) _ h in
      let (channel, e₁, h₂) =
        >>=-eq-some (validate_optional py 64 (get_field (text "channel") fs)) _ h₁ in
      let (tags, e₂, h₃) = >>=-eq-some (validate_tags py (get_field (text "tags") fs)) _ h₂ in
      let (external_id, e₃, h₄) =
        >>=-eq-some (validate_optional py 128 (get_field (text "external_id") fs))
          (λ x. some (record { channel = channel; tags = tags; external_id = x })) h₃ in
      let (fit, few) = validate_tags-fits (get_field (text "tags") fs) e₂ in
      subst MetadataFits (some_inj h₄) (record {
        channel_fits = validate_optional-fits 64 (get_field (text "channel") fs) e₁;
        tags_fit = fit;
        tags_few = few;
        external_id_fits = validate_optional-fits 128 (get_field (text "external_id") fs) e₃;
      })
  validate_metadata-fits (some _) h = cc

  validate_tags_dump :
      (ts : List Text)
      → All TagFits ts
      → length ts ≤ 10
      → validate_tags py (some (arr (dump_tags ts))) ≡ some ts
  unfolding validate_tags
  validate_tags_dump ts h few = rw (validate_tag_items_dump ts h) (ground arith)

  validate_fields_dump :
      (c e : Option Text) (ts : List Text)
      → OptionFits 64 c
      → All TagFits ts
      → length ts ≤ 10
      → OptionFits 128 e
      → let m : ConversationMetadata = record { channel = c; tags = ts; external_id = e } in
        validate_metadata py (some (dump_metadata m)) ≡ some m
  unfolding validate_metadata dump_metadata only_known get_field ◌is◌ validate_optional
  validate_fields_dump none none ts hc ht few he = rw (validate_tags_dump ts ht few)
  validate_fields_dump none (some e) ts hc ht few he =
      rw (validate_tags_dump ts ht few, validate_optional_str 128 e he)
  validate_fields_dump (some c) none ts hc ht few he =
      rw (validate_optional_str 64 c hc, validate_tags_dump ts ht few)
  validate_fields_dump (some c) (some e) ts hc ht few he =
      rw (
        validate_optional_str 64 c hc,
        validate_tags_dump ts ht few,
        validate_optional_str 128 e he,
      )

  validate_metadata_dump :
      (m : ConversationMetadata)
      → MetadataFits m
      → validate_metadata py (some (dump_metadata m)) ≡ some m
  validate_metadata_dump m h =
      validate_fields_dump m.channel m.external_id m.tags h.channel_fits h.tags_fit h.tags_few
        h.external_id_fits

  validate_messages_dump :
      (ms : List Message)
      → All MessageFits ms
      → 1 ≤ length ms
      → length ms ≤ max_messages
      → validate_messages py (arr (dump_messages ms)) ≡ some ms
  unfolding validate_messages
  validate_messages_dump ms h lo hi = rw (validate_items_dump ms h) (ground arith)

check_total_size-fits :
    (c : ConversationInput) {c' : ConversationInput}
    → 1 ≤ length c.messages
    → length c.messages ≤ max_messages
    → All MessageFits c.messages
    → MetadataFits c.metadata
    → check_total_size c ≡ some c'
    → InputFits c'
unfolding check_total_size
check_total_size-fits c lo hi fit meta h =
    let (_, e₁, h₁) = >>=-eq-some (guard (leb (total_chars c.messages) max_total_chars)) _ h in
    let (_, e₂, h₂) = >>=-eq-some (guard (any is_customer c.messages)) (λ _. some c) h₁ in
    subst InputFits (some_inj h₂) (record {
      some_message = lo;
      messages_few = hi;
      messages_fit = fit;
      total_fits = leb→le _ _ (guard-true _ e₁);
      has_customer = guard-true _ e₂;
      metadata_fits = meta;
    })

-- An accepted input, from either ingestion path, meets every bound of the schema.
pub model_validate-fits :
    (py : Coercion) (j : Json) {c : ConversationInput} → model_validate py j ≡ some c → InputFits c
unfolding model_validate
model_validate-fits py (obj fs) h =
    let (_, _, h₁) = >>=-eq-some (guard (only_known input_names fs)) _ h in
    let (messages, e₁, h₂) =
      >>=-eq-some (get_field (text "messages") fs >>= validate_messages py) _ h₁ in
    let (j, _, e₂) = >>=-eq-some (get_field (text "messages") fs) (validate_messages py) e₁ in
    let (metadata, e₃, h₃) =
      >>=-eq-some (validate_metadata py (get_field (text "metadata") fs))
        (λ m. check_total_size (record { messages = messages; metadata = m })) h₂ in
    let (lo, hi, fit) = validate_messages-fits py j e₂ in
    check_total_size-fits (record { messages = messages; metadata = metadata }) lo hi fit
      (validate_metadata-fits py (get_field (text "metadata") fs) e₃) h₃
model_validate-fits py _ h = cc

-- The stored payload of a valid input is accepted again, and gives back the same input.
pub model_validate-normalized :
    (py : Coercion) (c : ConversationInput)
    → InputFits c
    → model_validate py (normalized c) ≡ some c
unfolding model_validate normalized check_total_size get_field only_known ◌is◌
model_validate-normalized py c h = rw (
  validate_messages_dump py c.messages h.messages_fit h.some_message h.messages_few,
  validate_metadata_dump py c.metadata h.metadata_fits,
  le→leb _ _ h.total_fits,
  h.has_customer,
)
