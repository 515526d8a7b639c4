-- ===== src/Migrations/Checks.antt =====
-- What the columns and the CHECK constraints of `conversations` make of the rows of the pipeline.
use convoscore.Prelude.{◌≡◌, true, List, [], ◌∷◌, all, Bool}
use convoscore.Text.{Text, text}
use convoscore.Migrations.{SqlTable, CheckConstraint, Value, holds, value_in}
use convoscore.Migrations.Rows.{accepted_at}

-- The columns whose values the code makes itself: the words of its enumerations, the score of the
-- contract, the key and the times.
abbrev pub own_columns : List Text
own_columns =
    text "id"
    ∷ text "source"
    ∷ text "status"
    ∷ text "locked_until"
    ∷ text "last_error_type"
    ∷ text "sentiment"
    ∷ text "risk_score"
    ∷ text "created_at"
    ∷ text "enqueued_at"
    ∷ text "started_at"
    ∷ text "completed_at"
    ∷ text "updated_at"
    ∷ []

-- The table's column of this name takes the row's value.
abbrev pub takes_own : SqlTable → List Value → Text → Bool
takes_own t vs name = accepted_at t.columns name (value_in t.columns vs name)

-- Every CHECK constraint holds, and every column of the code's own values takes its value.
abbrev pub Stored : SqlTable → List Value → Type 0
Stored t vs =
    (all (λ (c : CheckConstraint). holds (value_in t.columns vs) c.condition) t.checks ≡ true)
    × (all (takes_own t vs) own_columns ≡ true)
