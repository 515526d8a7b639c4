-- ===== src/Schemas.antt =====
-- app/schemas.py: the conversation input and its validation. Pydantic's own conversions of a JSON
-- value to a `str` or an `int` are a parameter.
pub mod Laws
use convoscore.Prelude.{
  ℕ, ◌≤◌, Bool, true, false, not, ◌&&◌, ◌||◌, Option, none, some, List, [], ◌∷◌, ◌≡◌, length, any,
  sum_of, leb, if◌then◌else◌, option_map,
}
use convoscore.Prelude.Int.{ℤ}
use convoscore.Prelude.Maybe.{◌>>=◌, ◌>>◌, guard}
use convoscore.Text.{Text, text, ◌is◌}
use convoscore.Json.{
  Json, null, str, int, arr, obj, Items, nil, cons, Fields, end, field, get_field,
}

-- Pydantic in its default (lax) mode. A value that has the type already is left alone.
pub record Coercion : Type 0 where
  pub as_str : Json → Option Text
  pub as_int : Json → Option ℤ
  pub as_str-str : (s : Text) → as_str (str s) ≡ some s
  pub as_int-int : (n : ℤ) → as_int (int n) ≡ some n

abbrev pub max_messages : ℕ
max_messages = 50

abbrev pub max_total_chars : ℕ
max_total_chars = 8000

abbrev pub max_message_chars : ℕ
max_message_chars = 4000

pub data Role : Type 0 where
  customer agent : Role

abbrev pub role_value : Role → Text
role_value customer = text "customer"
role_value agent = text "agent"

pub record Message : Type 0 where
  pub role : Role
  pub content : Text

pub record ConversationMetadata : Type 0 where
  pub channel : Option Text
  pub tags : List Text
  pub external_id : Option Text

pub record ConversationInput : Type 0 where
  pub messages : List Message
  pub metadata : ConversationMetadata

-- `extra="forbid"`: every key is one of the model's fields.
unfoldable pub only_known : List Text → Fields → Bool
only_known names end = true
only_known names (field k v rest) = any (λ n. k is n) names && only_known names rest

-- `Literal["customer", "agent"]`.
unfoldable pub validate_role : Json → Option Role
validate_role (str s) =
    if s is text "customer" then some customer else if s is text "agent" then some agent else none
validate_role _ = none

module _ (py : Coercion) where
  -- `Field(min_length=lo, max_length=hi)` on a `str`.
  unfoldable pub validate_str : ℕ → ℕ → Json → Option Text
  validate_str lo hi j = do s ← py.as_str j; guard (leb lo (length s) && leb (length s) hi); some s

  unfoldable pub validate_message : Json → Option Message
  validate_message (obj fs) = do
    guard (only_known (text "role" ∷ text "content" ∷ []) fs)
    role ← get_field (text "role") fs >>= validate_role
    content ← get_field (text "content") fs >>= validate_str 1 max_message_chars
    some (record { role = role; content = content })
  validate_message _ = none

  unfoldable pub validate_items : Items → Option (List Message)
  validate_items nil = some []
  validate_items (cons j rest) = do m ← validate_message j; ms ← validate_items rest; some (m ∷ ms)

  -- `Annotated[list[Message], Field(min_length=1, max_length=MAX_MESSAGES)]`.
  unfoldable pub validate_messages : Json → Option (List Message)
  validate_messages (arr items) = do
    ms ← validate_items items
    guard (leb 1 (length ms) && leb (length ms) max_messages)
    some ms
  validate_messages _ = none

  -- `str | None = Field(default=None, max_length=hi)`: an absent key is the default.
  unfoldable pub validate_optional : ℕ → Option Json → Option (Option Text)
  validate_optional hi none = some none
  validate_optional hi (some null) = some none
  validate_optional hi (some j) = option_map some (validate_str 0 hi j)

  unfoldable pub validate_tag_items : Items → Option (List Text)
  validate_tag_items nil = some []
  validate_tag_items (cons j rest) = do
    t ← validate_str 0 64 j
    ts ← validate_tag_items rest
    some (t ∷ ts)

  unfoldable pub validate_tags : Option Json → Option (List Text)
  validate_tags none = some []
  validate_tags (some (arr items)) = do
    ts ← validate_tag_items items
    guard (leb (length ts) 10)
    some ts
  validate_tags (some _) = none

  unfoldable pub validate_metadata : Option Json → Option ConversationMetadata
  validate_metadata none = some (record { channel = none; tags = []; external_id = none })
  validate_metadata (some (obj fs)) = do
    guard (only_known (text "channel" ∷ text "tags" ∷ text "external_id" ∷ []) fs)
    channel ← validate_optional 64 (get_field (text "channel") fs)
    tags ← validate_tags (get_field (text "tags") fs)
    external_id ← validate_optional 128 (get_field (text "external_id") fs)
    some (record { channel = channel; tags = tags; external_id = external_id })
  validate_metadata (some _) = none

abbrev pub is_customer : Message → Bool
is_customer m = elim m.role [ customer ↦ true | agent ↦ false ]

unfoldable pub total_chars : List Message → ℕ
total_chars = sum_of (λ m. length m.content)

-- `ConversationInput.check_total_size`.
unfoldable pub check_total_size : ConversationInput → Option ConversationInput
check_total_size c = do
  guard (leb (total_chars c.messages) max_total_chars)
  guard (any is_customer c.messages)
  some c

-- `ConversationInput.model_validate`.
unfoldable pub model_validate : Coercion → Json → Option ConversationInput
model_validate py (obj fs) = do
  guard (only_known (text "messages" ∷ text "metadata" ∷ []) fs)
  messages ← get_field (text "messages") fs >>= validate_messages py
  metadata ← validate_metadata py (get_field (text "metadata") fs)
  check_total_size (record { messages = messages; metadata = metadata })
model_validate py _ = none

-- `{"role": m.role, "content": m.content}`.
unfoldable pub dump_message : Message → Json
dump_message m =
    obj (field (text "role") (str (role_value m.role)) (field (text "content") (str m.content) end))

unfoldable pub dump_messages : List Message → Items
dump_messages [] = nil
dump_messages (m ∷ ms) = cons (dump_message m) (dump_messages ms)

unfoldable pub dump_tags : List Text → Items
dump_tags [] = nil
dump_tags (t ∷ ts) = cons (str t) (dump_tags ts)

abbrev pub dump_optional : Text → Option Text → Fields → Fields
dump_optional name none rest = rest
dump_optional name (some s) rest = field name (str s) rest

-- `metadata.model_dump(exclude_none=True)`.
unfoldable pub dump_metadata : ConversationMetadata → Json
dump_metadata m = obj (
    dump_optional (text "channel") m.channel (
      field (text "tags") (arr (dump_tags m.tags))
        (dump_optional (text "external_id") m.external_id end)))

-- `ConversationInput.normalized`.
unfoldable pub normalized : ConversationInput → Json
normalized c = obj (
    field (text "messages") (arr (dump_messages c.messages))
      (field (text "metadata") (dump_metadata c.metadata) end))

-- `json.dumps(..., separators=(",", ":"), ensure_ascii=False)` and the hexadecimal SHA-256 of the
-- UTF-8 bytes of a text.
pub record Digest : Type 0 where
  pub dumps : Json → Text
  pub sha256 : Text → Text

-- `ConversationInput.content_hash`.
unfoldable pub content_hash : Digest → ConversationInput → Text
content_hash d c = d.sha256 (d.dumps (arr (dump_messages c.messages)))
