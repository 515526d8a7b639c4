-- ===== src/Observability/Gauges.antt =====
-- app/worker.py: `install_queue_gauges`, with its cache; app/metrics.py: `CallbackGauges.collect`;
-- app/api/observability.py: `_jobs_by_status`.
pub mod Recent
use convoscore.Prelude.{
  ◌+◌, ◌-◌, ◌<◌, Bool, true, false, Option, none, some, List, [], ◌∷◌, ◌≡◌, refl, arith, ltb,
  if◌then◌else◌, Bool-cases, inl, inr, All,
}
use convoscore.Text.{Text}
use convoscore.Models.{Time, seconds, Db, pending, processing, completed, failed, status_value}
use convoscore.Repository.Reads.{Groups, group_count, count_by_status}
use convoscore.Queue.{Depth}

-- The names of the two queues in the metric.
pub data QueueLabel : Type 0 where
  main dlq : QueueLabel

-- What `attributes` returns when SQS counts at a time; `none` is a QueueUnavailableError.
abbrev pub Probe : Type 0
Probe = QueueLabel → Time → Option Depth

abbrev pub Cache : Type 0
Cache = QueueLabel → Option (Time × Depth)

abbrev pub same_label : QueueLabel → QueueLabel → Bool
same_label main main = true
same_label dlq dlq = true
same_label _ _ = false

-- `cache[label] = (_time.monotonic(), counts)`.
abbrev pub store : QueueLabel → Time → Depth → Cache → Cache
store label t counts cache other = if same_label label other then some (t, counts) else cache other

-- One scrape: for each queue the clock at the check of its cached value, how long a request takes until
-- SQS counts its messages, and how long then until the clock is read after the response.
pub record Scrape : Type 0 where
  pub now : QueueLabel → Time
  pub asks : QueueLabel → Time
  pub waits : QueueLabel → Time

module _ (probe : Probe) (s : Scrape) where
  open s use {now, asks, waits}

  abbrev pub fetched : QueueLabel → Time → Option Depth → Cache → Option Depth × Cache
  fetched label t none cache = (none, cache)
  fetched label t (some counts) cache = (some counts, store label t counts cache)

  abbrev pub fetch : QueueLabel → Cache → Option Depth × Cache
  fetch label cache =
      let counted = now label + asks label in
      fetched label (counted + waits label) (probe label counted) cache

  abbrev pub look_at : QueueLabel → Option (Time × Depth) → Cache → Option Depth × Cache
  look_at label none cache = fetch label cache
  look_at label (some (t, counts)) cache =
      if ltb (now label - t) (seconds 10) then (some counts, cache) else fetch label cache

  -- The loop's body for one queue.
  unfoldable pub look : QueueLabel → Cache → Option Depth × Cache
  look label cache = look_at label (cache label) cache

  -- `depths`: both queues, or the exception of the first that fails.
  unfoldable pub depths : Cache → Option (Depth × Depth) × Cache
  depths cache =
      let (first, cache') = look main cache in
      let (second, cache'') = look dlq cache' in
      elim first [
        | none ↦ (none, cache')
        | some m ↦ elim second [ none ↦ (none, cache'') | some d ↦ (some (m, d), cache'') ]
      ]

-- The scrapes of a process, from an empty cache.
unfoldable pub scrapes : Probe → List Scrape → Cache → List (Scrape × Option (Depth × Depth))
scrapes probe [] cache = []
scrapes probe (s ∷ rest) cache =
    let (reported, cache') = depths probe s cache in (s, reported) ∷ scrapes probe rest cache'

-- `collect`: the families of the callbacks that return; one that raises is skipped.
unfoldable pub collect {ℓ} : {A : Type ℓ} → List (Text × Option A) → List (Text × A)
collect [] = []
collect ((name, none) ∷ rest) = collect rest
collect ((name, some value) ∷ rest) = (name, value) ∷ collect rest

-- `_jobs_by_status`: every status, zeros too.
unfoldable pub jobs_by_status : Db → Groups
jobs_by_status db =
    let counts = count_by_status db in
    (status_value pending, group_count (status_value pending) counts)
    ∷ (status_value processing, group_count (status_value processing) counts)
    ∷ (status_value completed, group_count (status_value completed) counts)
    ∷ (status_value failed, group_count (status_value failed) counts)
    ∷ []
