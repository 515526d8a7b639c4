-- ===== src/Api/Health.antt =====
-- app/api/stats.py: `health_details`; app/api/main.py: the probes. The summary of the configuration is
-- left out.
use convoscore.Prelude.{
  ℕ, suc, Bool, true, false, not, ◌&&◌, Option, none, some, List, [], ◌∷◌, ◌++◌, ◌≡◌, ◌⊎◌, refl, ap,
  ◌∙◌, arith, all, take, if◌then◌else◌, Bool-cases, inl, inr,
}
use convoscore.Text.{Text, text}
use convoscore.Demo.{state, total}
use convoscore.Runtime.{
  World, Env, Result, ok, raise, database_error, M, ◌>>=◌, pure, seen, bind_ok,
}
use convoscore.Queue.{Attributes, Depth, attributes}

pub record DependencyHealth : Type 0 where
  pub name : Text
  pub healthy : Bool
  pub detail : Text

-- What the handlers read besides the database: whether the publisher has a queue, the answers of SQS,
-- and how Python prints a number and the queue's error.
pub record Given : Type 0 where
  pub env : Env
  pub has_queue : Bool
  pub answer : ℕ → Attributes
  pub demo_mode : Bool
  pub str_of : ℕ → Text
  pub error_text : Text

module _ (g : Given) where
  open g use {env, has_queue, answer, demo_mode, str_of, error_text}

  -- `ping`: whether the session's first statement goes through.
  unfoldable pub ping : M Bool
  ping w = (
    ok (not (env.db_fails w.transactions)),
    record w { db = seen env w; transactions = suc w.transactions },
  )

  abbrev pub sqs_health : Bool → Text → DependencyHealth
  sqs_health healthy detail = record { name = text "sqs"; healthy = healthy; detail = detail }

  abbrev pub depth_detail : Depth → Text
  depth_detail counts =
      str_of counts.visible ++ text " waiting, " ++ str_of counts.in_flight ++ text " in flight"

  -- `try: counts = queue.attributes()`.
  abbrev pub health_of : Result Depth × World → Result DependencyHealth × World
  health_of (ok counts, w) = (ok (sqs_health true (depth_detail counts)), w)
  health_of (raise e, w) = (ok (sqs_health false (take 200 error_text)), w)

  -- `_queue_health`.
  unfoldable pub queue_health : M DependencyHealth
  queue_health w =
      if has_queue
      then health_of (attributes env answer w)
      else (ok (sqs_health true (text "in-memory publisher (no queue configured)")), w)

  abbrev pub postgres_health : Bool → DependencyHealth
  postgres_health up = record {
    name = text "postgres";
    healthy = up;
    detail = text "source of truth for jobs and results";
  }

  -- `demo.state(session)` in demo mode, in the session of the ping, which is broken when that failed.
  abbrev pub demo_armed : Bool → M (Option ℕ)
  demo_armed up w =
      if demo_mode
      then (if up
          then (ok (some (total (state w.db.demo_failure_tokens))), w)
          else (raise database_error, w))
      else (ok none, w)

  pub record HealthDetails : Type 0 where
    pub healthy : Bool
    pub dependencies : List DependencyHealth
    pub demo_failures_armed : Option ℕ

  abbrev pub details : List DependencyHealth → Option ℕ → HealthDetails
  details dependencies armed = record {
    healthy = all (λ (d : DependencyHealth). d.healthy) dependencies;
    dependencies = dependencies;
    demo_failures_armed = armed;
  }

  unfoldable pub health_details : M HealthDetails
  health_details = do
    up ← ping
    queue ← queue_health
    armed ← demo_armed up
    pure (details (postgres_health up ∷ queue ∷ []) armed)

-- The status code of `readyz`.
unfoldable pub readyz : Given → World → ℕ
readyz g w = elim (ping g w).0 [ ok up ↦ if up then 200 else 503 | raise e ↦ 503 ]

abbrev is_ok : {A : Type 0} → Result A → Bool
is_ok (ok a) = true
is_ok (raise e) = false

module _ (g : Given) (w : World) where
  abbrev up : Bool
  up = not (g.env.db_fails w.transactions)

  -- The world after the ping.
  abbrev pinged : World
  pinged = record w { db = seen g.env w; transactions = suc w.transactions }

  abbrev pub queue_up : Bool
  queue_up = if g.has_queue then is_ok (attributes g.env g.answer pinged).0 else true

  queue_health-queue_up :
      (h : DependencyHealth) × (w' : World) × (queue_health g pinged ≡ (ok h, w'))
      × (h.name ≡ text "sqs")
      × (h.healthy ≡ queue_up)
  unfolding queue_health
  queue_health-queue_up = elim (Bool-cases g.has_queue) [
    | inl queued ↦ go (attributes g.env g.answer pinged) refl queued
    | inr alone ↦ (
      sqs_health g true (text "in-memory publisher (no queue configured)"),
      pinged,
      rw alone refl,
      refl,
      rw alone refl,
    )
  ]
    where
      go :
          (r : Result Depth × World)
          → attributes g.env g.answer pinged ≡ r
          → g.has_queue ≡ true
          → (h : DependencyHealth) × (w' : World) × (queue_health g pinged ≡ (ok h, w'))
            × (h.name ≡ text "sqs")
            × (h.healthy ≡ queue_up)
      go (ok counts, w') e queued = (
        sqs_health g true (depth_detail g counts),
        w',
        rw (queued, e) refl,
        refl,
        rw (queued, e) refl,
      )
      go (raise x, w') e queued = (
        sqs_health g false (take 200 g.error_text),
        w',
        rw (queued, e) refl,
        refl,
        rw (queued, e) refl,
      )

  healthy_both :
      (h : DependencyHealth)
      → all (λ (d : DependencyHealth). d.healthy) (postgres_health g up ∷ h ∷ [])
        ≡ (up && h.healthy)
  healthy_both h = ground arith

  rest_of : DependencyHealth → M (HealthDetails g)
  rest_of h = demo_armed g up >>= λ armed. pure (details g (postgres_health g up ∷ h ∷ []) armed)

  rest_of-answer :
      (h : DependencyHealth) (w' : World)
      → ((g.demo_mode && not up ≡ true) × ((rest_of h w').0 ≡ raise database_error))
        ⊎ ((g.demo_mode && not up ≡ false)
            × ((v : HealthDetails g) × ((rest_of h w').0 ≡ ok v)
                × (v.dependencies ≡ postgres_health g up ∷ h ∷ [])
                × (v.healthy ≡ (up && h.healthy))))
  unfolding rest_of
  rest_of-answer h w' = elim (Bool-cases g.demo_mode) [
    | inl demo ↦ elim (Bool-cases up) [
      | inl answers ↦ inr (
        rw (demo, answers) refl,
        (
          details g (postgres_health g up ∷ h ∷ [])
              (some (total (state w'.db.demo_failure_tokens))),
          rw (demo, answers) refl,
          refl,
          healthy_both h,
        ),
      )
      | inr down ↦ inl (rw (demo, down) refl, rw (demo, down) refl)
    ]
    | inr off ↦ inr (
      rw off refl,
      (details g (postgres_health g up ∷ h ∷ []) none, rw off refl, refl, healthy_both h),
    )
  ]

  -- The page lists two dependencies: postgres, which is healthy exactly when the database answers, and
  -- sqs, which is exactly when the queue answers or there is none. It is healthy as a whole exactly
  -- when both are. But in demo mode a database that does not answer makes it raise, and nothing is
  -- told.
  pub health_details-answer :
      ((g.demo_mode && not up ≡ true) × ((health_details g w).0 ≡ raise database_error))
      ⊎ ((g.demo_mode && not up ≡ false)
          × ((v : HealthDetails g) × ((health_details g w).0 ≡ ok v)
              × ((p q : DependencyHealth) × (v.dependencies ≡ p ∷ q ∷ [])
                  × ((p.name ≡ text "postgres") × (p.healthy ≡ up))
                  × ((q.name ≡ text "sqs") × (q.healthy ≡ queue_up)))
              × (v.healthy ≡ (up && queue_up))))
  unfolding health_details ping rest_of
  health_details-answer =
      let (h, w', e, name, same) = queue_health-queue_up in
      let reached : health_details g w ≡ rest_of h w' = bind_ok (queue_health g) rest_of pinged e in
      let reply : (health_details g w).0 ≡ (rest_of h w').0 =
        ap (λ (q : Result (HealthDetails g) × World). q.0) reached in
      elim (rest_of-answer h w') [
        | inl (broken, raises) ↦ inl (broken, reply ∙ raises)
        | inr (fine, (v, told, listed, healthy)) ↦ inr (
          fine,
          (
            v,
            reply ∙ told,
            (postgres_health g up, h, listed, (refl, refl), (name, same)),
            healthy ∙ ap (λ b. up && b) same,
          ),
        )
      ]
