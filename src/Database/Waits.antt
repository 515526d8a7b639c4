-- ===== src/Database/Waits.antt =====
-- Both waits end, after a bounded number of attempts and with a true verdict.
use convoscore.Prelude.{
  ℕ, zero, suc, ◌+◌, ◌*◌, ◌≤◌, Bool, true, false, ◌&&◌, not, some, ◌≡◌, ◌⊎◌, refl, ap, ◌∙◌, arith,
  Bool-cases, inl, inr, leb,
}
use convoscore.Models.{Time}
use convoscore.Database.{
  Pace, Postgres, WaitError, sqlalchemy_error, timeout_error, Waited, ready, raised, after_attempt,
  after_sleep, wait_until, wait_for_database, finds_schema, after_database, then_schema,
  wait_for_schema,
}

-- `m` attempts from `n` on have all failed.
pub all_fail : (ℕ → Bool) → ℕ → ℕ → Bool
all_fail attempt n zero = true
all_fail attempt n (suc m) = not (attempt n) && all_fail attempt (suc n) m

-- The attempts before the last one, `n + m`, failed; it succeeded, or it failed at or after the deadline.
abbrev pub Verdict : (ℕ → Bool) → WaitError → Time → ℕ → ℕ → Waited → Type 0
Verdict attempt error deadline n most (ready k t) =
    (m : ℕ) × (k ≡ n + m) × (m ≤ most) × (all_fail attempt n m ≡ true) × (attempt k ≡ true)
Verdict attempt error deadline n most (raised e k t) =
    (m : ℕ) × (k ≡ n + m)
    × (m ≤ most)
    × (all_fail attempt n (suc m) ≡ true)
    × (e ≡ error)
    × (deadline ≤ t)

module _ (p : Pace) (attempt : ℕ → Bool) (error : WaitError) (deadline : Time) where
  one_more :
      (n most : ℕ) (w : Waited)
      → attempt n ≡ false
      → Verdict attempt error deadline (suc n) most w
      → Verdict attempt error deadline n (suc most) w
  unfolding all_fail
  one_more n most (ready k t) failed (m, e, le, before, hit) =
      (suc m, omega (arith, e), omega (arith, le), rw failed before, hit)
  one_more n most (raised x k t) failed (m, e, le, before, named, late) =
      (suc m, omega (arith, e), omega (arith, le), rw failed before, named, late)

  pub wait_until_ends :
      (most n : ℕ) (t : Time)
      → deadline ≤ t + most * p.interval
      → (w : Waited) × (wait_until (suc most) p attempt error deadline n t ≡ some w)
        × Verdict attempt error deadline n most w
  unfolding wait_until all_fail
  wait_until_ends zero n t enough = elim (Bool-cases (attempt n)) [
    | inl hit ↦
        (ready n (after_attempt p n t), rw hit refl, (0, omega arith, omega arith, refl, hit))
    | inr failed ↦
        let late : deadline ≤ after_attempt p n t = omega arith in
        let over : leb deadline (after_attempt p n t) ≡ true = ground (arith, late) in
        (
          raised error n (after_attempt p n t),
          rw (failed, over) refl,
          (0, omega arith, omega arith, rw failed refl, refl, late),
        )
  ]
  wait_until_ends (suc most) n t enough = elim (Bool-cases (attempt n)) [
    | inl hit ↦
        (ready n (after_attempt p n t), rw hit refl, (0, omega arith, omega arith, refl, hit))
    | inr failed ↦ elim (Bool-cases (leb deadline (after_attempt p n t))) [
      | inl over ↦ (
        raised error n (after_attempt p n t),
        rw (failed, over) refl,
        (0, omega arith, omega arith, rw failed refl, refl, ground (arith, over)),
      )
      | inr early ↦
          let (w, e, verdict) = wait_until_ends most (suc n) (after_sleep p n t) (omega arith) in
          (w, rw (failed, early) e, one_more n most w failed verdict)
    ]
  ]

-- How the two waits may end together: the database was never reached, or it was and the schema's own
-- wait has its verdict.
abbrev pub SchemaVerdict : Pace → Postgres → Time → ℕ → Waited → Type 0
SchemaVerdict p db t most w =
    ((k : ℕ) × (t' : Time) × (w ≡ raised sqlalchemy_error k t')
      × Verdict db.connects sqlalchemy_error (t + p.timeout) 0 most (raised sqlalchemy_error k t'))
    ⊎ ((k : ℕ) × (t' : Time) × Verdict db.connects sqlalchemy_error (t + p.timeout) 0 most
          (ready k t')
        × Verdict (finds_schema db) timeout_error (t' + p.timeout) (suc k) most w)

module _ (p : Pace) (db : Postgres) (most : ℕ) (enough : p.timeout ≤ most * p.interval) where
  after_database_ends :
      (t : Time) (w : Waited)
      → Verdict db.connects sqlalchemy_error (t + p.timeout) 0 most w
      → (v : Waited) × (after_database (suc most) p db w ≡ some v) × SchemaVerdict p db t most v
  unfolding after_database
  after_database_ends t (ready k t') verdict =
      let (v, e, found) =
        wait_until_ends p (finds_schema db) timeout_error (t' + p.timeout) most (suc k) t'
          (omega (arith, enough)) in
      (v, e, inr (k, t', verdict, found))
  after_database_ends t (raised e k t') (m, at, le, failed, named, late) = (
    raised e k t',
    refl,
    inl (k, t', ap (λ x. raised x k t') named, (m, at, le, failed, refl, late)),
  )

  -- The wait for the schema ends, however slow or broken PostgreSQL is: for each of its two loops
  -- there are at most `most + 1` attempts, where `most` sleeps are as long as the timeout. It is ready
  -- only after an attempt that connected and found the table; it raises only when every attempt of a
  -- loop has failed and that loop's deadline has passed.
  pub wait_for_schema_ends :
      (t : Time)
      → (v : Waited) × (wait_for_schema (suc most) p db t ≡ some v) × SchemaVerdict p db t most v
  unfolding wait_for_schema wait_for_database
  wait_for_schema_ends t =
      let (w, e, verdict) =
        wait_until_ends p db.connects sqlalchemy_error (t + p.timeout) most 0 t
          (omega (arith, enough)) in
      let (v, ends, found) = after_database_ends t w verdict in
      (v, ap (then_schema (suc most) p db) e ∙ ends, found)
