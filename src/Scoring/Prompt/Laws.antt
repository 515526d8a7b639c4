-- ===== src/Scoring/Prompt/Laws.antt =====
-- What of a stored conversation reaches the model.
use convoscore.Prelude.{some, List, [], ◌∷◌, ◌++◌, map, ◌≡◌, refl}
use convoscore.Text.{Text, text, ◌is◌}
use convoscore.Json.{get_field}
use convoscore.Schemas.{
  Message, ConversationInput, role_value, dump_message, dump_messages, normalized,
}
use convoscore.Scoring.Prompt.{
  join_lines, render_message, render_items, render_messages, render_transcript,
}

module _ (upper : Text → Text) where
  abbrev pub line : Message → Text
  line m = upper (role_value m.role) ++ text ": " ++ m.content

  render_items-dump_messages :
      (ms : List Message) → render_items upper (dump_messages ms) ≡ some (map line ms)
  unfolding render_items render_message dump_messages dump_message get_field ◌is◌
  render_items-dump_messages [] = refl
  render_items-dump_messages (m ∷ ms) = rw (render_items-dump_messages ms)

  -- The transcript of a stored payload never raises, and is one line for each message, in order,
  -- with its role and its content and nothing of the metadata.
  pub render_transcript-normalized :
      (c : ConversationInput)
      → render_transcript upper (normalized c) ≡ some (join_lines (map line c.messages))
  unfolding render_transcript render_messages normalized get_field ◌is◌
  render_transcript-normalized c = rw (render_items-dump_messages c.messages)
