-- ===== src/Ingestor/Counts.antt =====
-- One object through the ingestor is counted once, and not at all twice.
use convoscore.Prelude.{
  ℕ, suc, ◌+◌, ◌≤◌, Bool, true, false, Option, none, some, List, [], ◌∷◌, ◌≡◌, refl, arith, length,
  ap, subst,
}
use convoscore.Models.{Uuid, Time, Db}
use convoscore.Repository.Jobs.{mark_enqueued, mark_enqueue_failed}
use convoscore.Repository.Ingest.{object_already_seen}
use convoscore.Storage.{StoredObject, Item, list_pages}
use convoscore.Runtime.{
  World, Result, ok, raise, integrity_error, publish_error, M, ◌>>=◌, ◌>>◌, pure, transaction, seen,
  bind_ok, transaction_ok,
}
use convoscore.Queue.{publish}
use convoscore.Ingestor.Create.{Seen}
use convoscore.Ingestor.{
  PollResult, no_result, add, Source, Parsed, accepted, refused, parse, create, after_create,
  after_publish, enqueue_failed, enqueue_done, record_invalid, handle_parsed, handle_bytes,
  handle_unseen, handle, poll_from, poll_once,
}

-- How many objects a result accounts for.
abbrev pub handled : PollResult → ℕ
handled r = r.ingested + r.skipped_duplicate + r.invalid + r.failed

-- A returned result counts one object and discovers none.
abbrev One : Result PollResult × World → Type 0
One (ok r, w) = (handled r ≡ 1) × (r.discovered ≡ 0)
One (raise e, w) = Unit

module _ (src : Source) where
  open src use {env, bucket}

  abbrev look_up : StoredObject → Time → Db → Result Bool × Db
  look_up stored now db = (ok (object_already_seen bucket stored.key stored.etag db), db)

  -- An object that is on record is skipped: the outcome is one duplicate, nothing is read, sent or
  -- written. The transaction that looks it up is taken to go through.
  pub handle-seen :
      (stored : StoredObject) (w : World)
      → env.db_fails w.transactions ≡ false
      → Seen src stored (seen env w)
      → handle src stored w ≡ (
        ok (record no_result { skipped_duplicate = 1 }),
        record w { db = seen env w; transactions = suc w.transactions },
      )
  unfolding handle handle_unseen
  handle-seen stored w works there =
      bind_ok (transaction env (look_up stored)) (handle_unseen src stored) w (
        transaction_ok env (look_up stored) w true (seen env w) works
          (ap (λ (b : Bool). (ok b, seen env w)) there))

  One-bind :
      {A : Type 0} (m : M A) (k : A → M PollResult) (w : World)
      → ((a : A) (w' : World) → One (k a w'))
      → One ((m >>= k) w)
  One-bind {A} m k w h = go (m w)
    where
      go :
          (p : Result A × World)
          → let q : Result PollResult × World = elim p.0 [
            | ok a ↦ k a p.1
            | raise e ↦ (raise e, p.1)
          ] in
            One q
      go (ok a, w') = h a w'
      go (raise e, w') = tt

  One-then :
      {A : Type 0} (m : M A) (r : PollResult) (w : World)
      → handled r ≡ 1
      → r.discovered ≡ 0
      → One ((m >> pure r) w)
  One-then m r w one none_found = One-bind m (λ _. pure r) w (λ _ w'. (one, none_found))

  after_publish-One : (id : Uuid) (p : Result (Unit {0}) × World) → One (after_publish src id p)
  unfolding after_publish enqueue_done enqueue_failed
  after_publish-One id (ok _, w) =
      One-then (transaction env (λ now db. (ok tt, mark_enqueued now id db)))
        (record no_result { ingested = 1 }) w refl refl
  after_publish-One id (raise publish_error, w) =
      One-then
        (transaction env (λ now db. (ok tt, mark_enqueue_failed now id src.publish_error_text db)))
        (record no_result { failed = 1 }) w refl refl
  after_publish-One id (raise _, w) = tt

  after_create-One : (p : Result Uuid × World) → One (after_create src p)
  unfolding after_create
  after_create-One (ok id, w) = after_publish-One id (publish env id w)
  after_create-One (raise integrity_error, w) = (refl, refl)
  after_create-One (raise _, w) = tt

  handle_bytes-One :
      (stored : StoredObject) (raw : Option (List ℕ)) (w : World)
      → One (handle_bytes src stored raw w)
  unfolding handle_bytes handle_parsed create
  handle_bytes-One stored none w = (refl, refl)
  handle_bytes-One stored (some raw) w = go (parse src raw)
    where
      go : (p : Parsed) → One (handle_parsed src stored raw p w)
      go (accepted c) = after_create-One _
      go (refused p) =
          One-then (record_invalid src stored (src.problem_text raw p))
            (record no_result { invalid = 1 }) w refl refl

  handle-One : (stored : StoredObject) (w : World) → One (handle src stored w)
  unfolding handle handle_unseen
  handle-One stored w = One-bind (transaction env (look_up stored)) (handle_unseen src stored) w go
    where
      go : (b : Bool) (w' : World) → One (handle_unseen src stored b w')
      go true w' = (refl, refl)
      go false w' = handle_bytes-One stored (src.read_object stored.key) w'

  -- What a pass over `n` more objects adds to a result.
  abbrev Counts : ℕ → PollResult → Result PollResult × World → Type 0
  Counts n r (ok s, w) =
      (s.discovered ≡ r.discovered)
      × (handled s ≤ handled r + n)
      × (((t : ℕ) → src.stopping t ≡ false) → handled s ≡ handled r + n)
  Counts n r (raise e, w) = Unit

  Counts-add :
      (n : ℕ) (r one : PollResult) (q : Result PollResult × World)
      → (handled one ≡ 1) × (one.discovered ≡ 0)
      → Counts n (add r one) q
      → Counts (suc n) r q
  unfolding add
  Counts-add n r one (ok s, w) h (d, le, all) =
      (omega arith, omega arith, λ go. omega (arith, all go))
  Counts-add n r one (raise e, w) h c = tt

  poll_from-Counts :
      (r : PollResult) (os : List StoredObject) (w : World)
      → Counts (length os) r (poll_from src r os w)
  unfolding poll_from
  poll_from-Counts r [] w = (refl, omega arith, λ h. omega arith)
  poll_from-Counts r (stored ∷ rest) w =
      stop
        (next (λ one w'. poll_from-Counts (add r one) rest w') (handle src stored w)
          (handle-One stored w))
        (src.stopping w.transactions) refl
    where
      next :
          ((one : PollResult) (w' : World)
            → Counts (length rest) (add r one) (poll_from src (add r one) rest w'))
          → (p : Result PollResult × World) → One p
          → let q : Result PollResult × World = elim p.0 [
            | ok one ↦ poll_from src (add r one) rest p.1
            | raise e ↦ (raise e, p.1)
          ] in
            Counts (suc (length rest)) r q
      next later (ok one, w') h = Counts-add (length rest) r one _ h (later one w')
      next later (raise e, w') h = tt

      stop :
          (let p = handle src stored w in
            let q : Result PollResult × World = elim p.0 [
              | ok one ↦ poll_from src (add r one) rest p.1
              | raise e ↦ (raise e, p.1)
            ] in
            Counts (suc (length rest)) r q)
          → (b : Bool) → src.stopping w.transactions ≡ b
          → let p = handle src stored w in
            let q : Result PollResult × World = elim b [
              | true ↦ (ok r, w)
              | false ↦ elim p.0 [
                | ok one ↦ poll_from src (add r one) rest p.1
                | raise e ↦ (raise e, p.1)
              ]
            ] in
            Counts (suc (length rest)) r q
      stop later true e = (refl, omega arith, λ h. absurd (ground (arith, h w.transactions)))
      stop later false e = later

  abbrev listed : List (List Item) → PollResult
  listed pages = record no_result { discovered = length (list_pages pages) }

  poll_once-Counts :
      (pages : List (List Item)) (w : World)
      → Counts (length (list_pages pages)) (listed pages) (poll_once src (some pages) w)
  unfolding poll_once
  poll_once-Counts pages w = poll_from-Counts (listed pages) (list_pages pages) w

  -- A pass that returns has discovered the listed objects and accounts for no object twice: those
  -- ingested, skipped, invalid and failed are together at most as many, whatever fails.
  pub poll_once-handled :
      (pages : List (List Item)) (w w' : World) (s : PollResult)
      → poll_once src (some pages) w ≡ (ok s, w')
      → (s.discovered ≡ length (list_pages pages)) × (handled s ≤ length (list_pages pages))
  poll_once-handled pages w w' s h =
      let c =
        subst (Counts (length (list_pages pages)) (listed pages)) h (poll_once-Counts pages w) in
      (c.0, omega (arith, c.1))

  -- A pass that returns without a stop request accounts for every listed object exactly once.
  pub poll_once_complete :
      (pages : List (List Item)) (w w' : World) (s : PollResult)
      → ((t : ℕ) → src.stopping t ≡ false)
      → poll_once src (some pages) w ≡ (ok s, w')
      → (s.discovered ≡ length (list_pages pages)) × (handled s ≡ length (list_pages pages))
  poll_once_complete pages w w' s runs h =
      let c =
        subst (Counts (length (list_pages pages)) (listed pages)) h (poll_once-Counts pages w) in
      (c.0, omega (arith, c.2 runs))
