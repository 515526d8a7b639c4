-- ===== src/Migrations.antt =====
-- The database schema as alembic/versions/ builds it: the statements that `op` issues, the columns with
-- their types and constraints, and which values PostgreSQL stores in them.
pub mod Versions
pub mod Undo
pub mod Rows
pub mod Checks
pub mod Runner
pub mod Objects
use convoscore.Prelude.{
  ℕ, ◌^◌, Bool, true, false, not, ◌&&◌, ◌||◌, Option, none, some, List, [], ◌∷◌, length, all, any,
  filter, leb, ltb, ◌==◌, if◌then◌else◌,
}
use convoscore.Prelude.Maybe.{◌>>=◌}
use convoscore.Prelude.Int.{ℤ, pos, negsuc, leb_ℤ}
use convoscore.Text.{Text, ◌is◌}
use convoscore.Json.{
  Json, Items, Fields, null, bool, int, float, str, arr, obj, nil, cons, end, field,
}

-- UUID, VARCHAR(n), TEXT, JSONB, INTEGER, SMALLINT, NUMERIC(p, s) and TIMESTAMP WITH TIME ZONE.
pub data SqlType : Type 0 where
  uuid long_text jsonb integer small_integer date_time : SqlType
  string : ℕ → SqlType
  numeric : ℕ → ℕ → SqlType

pub record Column : Type 0 where
  pub column_name : Text
  pub column_type : SqlType
  pub nullable : Bool
  pub primary_key : Bool
  pub autoincrement : Bool
  pub server_default : Option Text

-- `sa.Column(name, type, nullable=True)`, and with `nullable=False`.
abbrev pub optional : Text → SqlType → Column
optional name type = record {
  column_name = name;
  column_type = type;
  nullable = true;
  primary_key = false;
  autoincrement = false;
  server_default = none;
}

abbrev pub required : Text → SqlType → Column
required name type = record (optional name type) { nullable = false }

-- `c IN (...)`, `c IS NULL OR ...`, `c >= low AND c <= high`, `c >= low`.
pub data Condition : Type 0 where
  one_of : Text → List Text → Condition
  null_or : Text → Condition → Condition
  is_between : Text → ℤ → ℤ → Condition
  is_at_least : Text → ℤ → Condition

pub record CheckConstraint : Type 0 where
  pub check_name : Text
  pub condition : Condition

pub record UniqueConstraint : Type 0 where
  pub unique_name : Text
  pub unique_columns : List Text

-- `ON DELETE SET NULL`.
pub record ForeignKey : Type 0 where
  pub local_column : Text
  pub foreign_table : Text
  pub foreign_column : Text

pub record SqlTable : Type 0 where
  pub table_name : Text
  pub columns : List Column
  pub checks : List CheckConstraint
  pub uniques : List UniqueConstraint
  pub foreign_keys : List ForeignKey

pub record Index : Type 0 where
  pub index_name : Text
  pub index_table : Text
  pub index_columns : List Text

pub record Schema : Type 0 where
  pub tables : List SqlTable
  pub indexes : List Index

pub data SchemaOp : Type 0 where
  create_table : SqlTable → SchemaOp
  create_index : Index → SchemaOp
  drop_index : Text → SchemaOp
  drop_table : Text → SchemaOp

abbrev pub table_is : Text → SqlTable → Bool
table_is name t = name is t.table_name

abbrev pub index_is : Text → Index → Bool
index_is name i = name is i.index_name

abbrev pub on_table : Text → Index → Bool
on_table name i = name is i.index_table

abbrev pub refers_to : Text → SqlTable → Bool
refers_to name t = any (λ (k : ForeignKey). name is k.foreign_table) t.foreign_keys

abbrev pub has_table : Text → List SqlTable → Bool
has_table name ts = any (table_is name) ts

-- Every foreign key of the table has the table that it refers to.
abbrev pub is_linked : List SqlTable → SqlTable → Bool
is_linked ts t = all (λ (k : ForeignKey). has_table k.foreign_table ts) t.foreign_keys

-- Tables and indexes share their names.
unfoldable pub is_taken : Text → Schema → Bool
is_taken name s = has_table name s.tables || any (index_is name) s.indexes

-- One statement; `none` is PostgreSQL's error on a name that is taken or missing, on a foreign key to a
-- table that is not there, and on dropping a table that another one refers to.
unfoldable pub apply_op : SchemaOp → Schema → Option Schema
apply_op (create_table t) s =
    if is_taken t.table_name s || not (is_linked (t ∷ s.tables) t)
    then none
    else some (record s { tables = t ∷ s.tables })
apply_op (create_index i) s =
    if is_taken i.index_name s || not (has_table i.index_table s.tables)
    then none
    else some (record s { indexes = i ∷ s.indexes })
apply_op (drop_index name) s =
    if any (index_is name) s.indexes
    then some (record s { indexes = filter (λ i. not (index_is name i)) s.indexes })
    else none
apply_op (drop_table name) s =
    let rest = filter (λ t. not (table_is name t)) s.tables in
    if not (has_table name s.tables) || any (refers_to name) rest
    then none
    else some (record { tables = rest; indexes = filter (λ i. not (on_table name i)) s.indexes })

unfoldable pub apply_ops : List SchemaOp → Schema → Option Schema
apply_ops [] s = some s
apply_ops (op ∷ rest) s = apply_op op s >>= apply_ops rest

-- A revision module: its two functions.
pub record Revision : Type 0 where
  pub revision : Text
  pub down_revision : Option Text
  pub upgrade : List SchemaOp
  pub downgrade : List SchemaOp

pub data Value : Type 0 where
  sql_null : Value
  uuid_value : ℕ → Value
  text_value : Text → Value
  json_value : Json → Value
  int_value : ℤ → Value
  -- in units of 1e-8
  numeric_value : ℕ → Value
  time_value : ℕ → Value

-- PostgreSQL's text holds no NUL character, and JSONB no escape of one.
abbrev pub storable : Text → Bool
storable t = all (λ c. not (c == 0)) t

unfoldable mutual
  pub json_storable : Json → Bool
  json_storable (str t) = storable t
  json_storable (arr xs) = items_storable xs
  json_storable (obj fs) = fields_storable fs
  json_storable _ = true

  pub items_storable : Items → Bool
  items_storable nil = true
  items_storable (cons x xs) = json_storable x && items_storable xs

  pub fields_storable : Fields → Bool
  fields_storable end = true
  fields_storable (field k v fs) = storable k && json_storable v && fields_storable fs

abbrev pub accepts : SqlType → Value → Bool
accepts uuid (uuid_value _) = true
accepts (string n) (text_value t) = leb (length t) n && storable t
accepts long_text (text_value t) = storable t
accepts jsonb (json_value j) = json_storable j
accepts integer (int_value n) = leb_ℤ (negsuc 2147483647) n && leb_ℤ n (pos 2147483647)
accepts small_integer (int_value n) = leb_ℤ (negsuc 32767) n && leb_ℤ n (pos 32767)
accepts (numeric p s) (numeric_value n) = (s == 8) && ltb n (10 ^ p)
accepts date_time (time_value _) = true
accepts _ _ = false

abbrev pub column_accepts : Column → Value → Bool
column_accepts c sql_null = c.nullable
column_accepts c v = accepts c.column_type v

unfoldable pub columns_accept : List Column → List Value → Bool
columns_accept [] [] = true
columns_accept (c ∷ cs) (v ∷ vs) = column_accepts c v && columns_accept cs vs
columns_accept _ _ = false

-- The value of a row in a column.
unfoldable pub value_in : List Column → List Value → Text → Value
value_in (c ∷ cs) (v ∷ vs) name = if name is c.column_name then v else value_in cs vs name
value_in _ _ name = sql_null

abbrev pub is_in_list : List Text → Value → Bool
is_in_list names (text_value t) = any (λ name. t is name) names
is_in_list names _ = true

abbrev pub is_within : (ℤ → Bool) → Value → Bool
is_within p (int_value n) = p n
is_within p _ = true

abbrev pub or_null : Value → Bool → Bool
or_null sql_null b = true
or_null _ b = b

-- A condition on NULL is not false, and so it holds.
abbrev pub holds : (Text → Value) → Condition → Bool
holds row (one_of c names) = is_in_list names (row c)
holds row (null_or c rest) = or_null (row c) (holds row rest)
holds row (is_between c low high) = is_within (λ n. leb_ℤ low n && leb_ℤ n high) (row c)
holds row (is_at_least c low) = is_within (λ n. leb_ℤ low n) (row c)

-- An INSERT or UPDATE that leaves this row passes the columns and the CHECK constraints.
unfoldable pub accepts_row : SqlTable → List Value → Bool
accepts_row t vs =
    columns_accept t.columns vs
    && all (λ (c : CheckConstraint). holds (value_in t.columns vs) c.condition) t.checks
