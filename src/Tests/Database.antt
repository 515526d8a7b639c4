-- ===== src/Tests/Database.antt =====
-- Start-up with a slow database.
use convoscore.Prelude.{some, ◌≡◌, refl, arith, leb}
use convoscore.Models.{seconds}
use convoscore.Database.{
  Pace, Postgres, Waited, ready, wait_until, wait_for_database, after_database, wait_for_schema,
}
use convoscore.Database.Waits.{SchemaVerdict, wait_for_schema_ends}

-- 180 s in steps of 2 s, as the defaults are; each attempt takes half a second.
abbrev pub patience : Pace
patience = record {
  timeout = seconds 180;
  interval = seconds 2;
  spends = λ n. 500000;
  oversleeps = λ n. 1;
}

-- The third connection is the first that works, and the migrations are done by the sixth.
abbrev pub slow_start : Postgres
slow_start = record { connects = λ n. leb 2 n; exists = λ n. leb 5 n }

wait_for_schema-slow_start : wait_for_schema 91 patience slow_start 0 ≡ some (ready 5 11000004)
unfolding wait_for_schema wait_for_database after_database wait_until
wait_for_schema-slow_start = refl

wait_for_schema_ends_example :
    (v : Waited) × (wait_for_schema 91 patience slow_start 0 ≡ some v)
    × SchemaVerdict patience slow_start 0 90 v
wait_for_schema_ends_example = wait_for_schema_ends patience slow_start 90 (omega arith) 0
