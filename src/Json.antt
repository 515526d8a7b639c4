-- ===== src/Json.antt =====
-- The values that `json.loads` returns and that a JSONB column holds. Numbers with a fraction are
-- kept as opaque text, since the program computes with none of them.
use convoscore.Prelude.{Bool, Option, none, some, if◌then◌else◌}
use convoscore.Prelude.Int.{ℤ}
use convoscore.Text.{Text, ◌is◌}

mutual
  pub data Json : Type 0 where
    null : Json
    bool : Bool → Json
    int : ℤ → Json
    float : Text → Json
    str : Text → Json
    arr : Items → Json
    obj : Fields → Json

  pub data Items : Type 0 where
    nil : Items
    cons : Json → Items → Items

  pub data Fields : Type 0 where
    end : Fields
    field : Text → Json → Fields → Fields

-- `d.get(name)`.
unfoldable pub get_field : Text → Fields → Option Json
get_field name end = none
get_field name (field k v rest) = if k is name then some v else get_field name rest
