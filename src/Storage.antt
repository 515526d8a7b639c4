-- ===== src/Storage.antt =====
-- app/storage.py: which objects under the prefix are candidates. The S3 client is a parameter.
use convoscore.Prelude.{
  ℕ, Bool, false, ◌||◌, Option, List, [], ◌∷◌, ◌++◌, ◌==◌, if◌then◌else◌, get_or_else,
}
use convoscore.Text.{Text, text}

pub record StoredObject : Type 0 where
  pub key : Text
  pub etag : Text
  pub size_bytes : ℕ

-- An entry of `Contents` in a page of `list_objects_v2`.
pub record Item : Type 0 where
  pub item_key : Text
  pub item_size : Option ℕ
  pub item_etag : Option Text

-- `key.endswith("/")`.
unfoldable pub ends_with_slash : Text → Bool
ends_with_slash [] = false
ends_with_slash (c ∷ []) = c == b'/'
ends_with_slash (c ∷ d ∷ s) = ends_with_slash (d ∷ s)

abbrev is_quote : ℕ → Bool
is_quote c = c == 34

unfoldable pub strip_left : Text → Text
strip_left [] = []
strip_left (c ∷ s) = if is_quote c then strip_left s else c ∷ s

unfoldable pub strip_right : Text → Text
strip_right [] = []
strip_right (c ∷ s) = elim (strip_right s) [
  | [] ↦ if is_quote c then [] else c ∷ []
  | d ∷ t ↦ c ∷ d ∷ t
]

-- `str(...).strip('"')`.
unfoldable pub strip_quotes : Text → Text
strip_quotes s = strip_right (strip_left s)

unfoldable pub list_items : List Item → List StoredObject
list_items [] = []
list_items (i ∷ rest) =
    let others = list_items rest in
    let size = get_or_else i.item_size 0 in
    if ends_with_slash i.item_key || size == 0
    then others
    else record {
      key = i.item_key;
      etag = strip_quotes (get_or_else i.item_etag []);
      size_bytes = size;
    }
      ∷ others

-- `list_objects`, page by page.
unfoldable pub list_pages : List (List Item) → List StoredObject
list_pages [] = []
list_pages (page ∷ rest) = list_items page ++ list_pages rest

-- `uri`.
unfoldable pub uri : Text → Text → Text
uri bucket key = text "s3://" ++ bucket ++ text "/" ++ key
