-- ===== src/Scoring/Prompt.antt =====
-- app/scoring/prompt.py: the transcript that the model is shown. `str.upper` is a parameter.
pub mod Laws
use convoscore.Prelude.{Bool, true, false, Option, none, some, List, [], ◌∷◌, ◌++◌, if◌then◌else◌}
use convoscore.Prelude.Maybe.{◌>>=◌}
use convoscore.Text.{Text, text}
use convoscore.Json.{Json, str, arr, obj, Items, nil, cons, get_field}

-- `"\n".join(lines)`.
unfoldable pub join_lines : List Text → Text
join_lines [] = []
join_lines (l ∷ []) = l
join_lines (l ∷ m ∷ rest) = l ++ (10 ∷ join_lines (m ∷ rest))

-- What `str` yields of a value that is one; the payload of a job holds nothing else there.
abbrev pub as_text : Json → Option Text
as_text (str s) = some s
as_text _ = none

module _ (upper : Text → Text) where
  -- `f"{message['role'].upper()}: {message['content']}"`; `none` is an exception.
  unfoldable pub render_message : Json → Option Text
  render_message (obj fs) = do
    role ← get_field (text "role") fs >>= as_text
    content ← get_field (text "content") fs >>= as_text
    some (upper role ++ text ": " ++ content)
  render_message _ = none

  unfoldable pub render_items : Items → Option (List Text)
  render_items nil = some []
  render_items (cons m rest) = do l ← render_message m; ls ← render_items rest; some (l ∷ ls)

  unfoldable pub render_messages : Option Json → Option (List Text)
  render_messages none = some []
  render_messages (some (arr items)) = render_items items
  render_messages (some _) = none

  unfoldable pub render_transcript : Json → Option Text
  render_transcript (obj fs) = do
    lines ← render_messages (get_field (text "messages") fs)
    some (join_lines lines)
  render_transcript _ = none

  unfoldable pub build_user_input : Json → Option Text
  build_user_input conversation = do
    transcript ← render_transcript conversation
    some (
        text "Score the following customer-support conversation."
        ++ (10 ∷ 10 ∷ [])
        ++ text "<conversation>"
        ++ (10 ∷ transcript)
        ++ (10 ∷ [])
        ++ text "</conversation>")
