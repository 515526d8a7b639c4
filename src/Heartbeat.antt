-- ===== src/Heartbeat.antt =====
-- app/heartbeat.py: the file whose age tells a probe that a loop is stuck. Times are microseconds.
use convoscore.Prelude.{
  ℕ, ◌-◌, Bool, true, false, Option, none, some, leb, ltb, if◌then◌else◌, ◌≡◌, ◌↔◌, arith,
}
use convoscore.Models.{Time}

-- The heartbeat's file: its time of modification, or none if there is no such file. A write may fail.
abbrev pub File : Type 0
File = Option Time

-- `touch`, which swallows an OSError.
unfoldable pub touch : Bool → Time → File → File
touch fails now file = if fails then file else some now

-- `age_seconds`; the truncated difference is `max(0.0, now - mtime)`.
unfoldable pub age_seconds : Time → File → Option Time
age_seconds now none = none
age_seconds now (some mtime) = some (now - mtime)

abbrev pub age_fresh : Time → Option Time → Bool
age_fresh max_age none = false
age_fresh max_age (some age) = leb age max_age

unfoldable pub is_fresh : Time → Time → File → Bool
is_fresh now max_age file = age_fresh max_age (age_seconds now file)

abbrev pub exit_code : Time → Option Time → ℕ
exit_code max_age none = 1
exit_code max_age (some age) = if ltb max_age age then 1 else 0

-- `main`: the exit code of the probe.
unfoldable pub main : Time → Time → File → ℕ
main now max_age file = exit_code max_age (age_seconds now file)

-- The probe succeeds exactly when the heartbeat is fresh.
pub main-is_fresh :
    (now max_age : Time) (file : File)
    → (main now max_age file ≡ 0) ↔ (is_fresh now max_age file ≡ true)
unfolding main is_fresh age_seconds
main-is_fresh now max_age none = ground arith
main-is_fresh now max_age (some mtime) = ground arith
