-- ===== src/Observability/Gauges/Recent.antt =====
-- The queue depths that are reported are recent ones.
use convoscore.Prelude.{
  ◌+◌, ◌-◌, ◌<◌, ◌≤◌, Option, none, some, List, [], ◌∷◌, ◌≡◌, refl, arith, ltb, Bool-cases, inl,
  inr, All,
}
use convoscore.Models.{Time, seconds}
use convoscore.Queue.{Depth}
use convoscore.Observability.Gauges.{
  QueueLabel, main, dlq, Probe, Cache, store, Scrape, fetched, fetch, look_at, look, depths,
  scrapes,
}

-- SQS counted the value at some time, less than ten seconds and `most` before the check.
abbrev pub Recent : Time → Probe → Scrape → QueueLabel → Depth → Type 0
Recent most probe s label counts =
    (t : Time) × (probe label t ≡ some counts) × (s.now label < t + most + seconds 10)

abbrev pub BothRecent : Time → Probe → Scrape × Option (Depth × Depth) → Type 0
BothRecent most probe (s, none) = Unit
BothRecent most probe (s, some (m, d)) = Recent most probe s main m × Recent most probe s dlq d

-- A cached value is one that SQS counted, at most `most` before its time.
abbrev HonestEntry : Time → Probe → QueueLabel → Option (Time × Depth) → Type 0
HonestEntry most probe label none = Unit
HonestEntry most probe label (some (t, counts)) =
    (u : Time) × (probe label u ≡ some counts) × (t ≤ u + most)

-- No response takes longer than `most` from the count of the messages on.
abbrev pub Prompt : Time → Scrape → Type 0
Prompt most s = (label : QueueLabel) → s.waits label ≤ most

abbrev Honest : Time → Probe → Cache → Type 0
Honest most probe cache =
    HonestEntry most probe main (cache main) × HonestEntry most probe dlq (cache dlq)

abbrev LookEnds : Time → Probe → Scrape → QueueLabel → Option Depth × Cache → Type 0
LookEnds most probe s label (none, cache) = Honest most probe cache
LookEnds most probe s label (some counts, cache) =
    Honest most probe cache × Recent most probe s label counts

Honest-store :
    (most : Time) (probe : Probe) (label : QueueLabel) (t : Time) (counts : Depth) (cache : Cache)
    → HonestEntry most probe label (some (t, counts))
    → Honest most probe cache
    → Honest most probe (store label t counts cache)
Honest-store most probe main t counts cache e h = (e, h.1)
Honest-store most probe dlq t counts cache e h = (h.0, e)

module _ (most : Time) (probe : Probe) (s : Scrape) (prompt : Prompt most s) where
  fetched-LookEnds :
      (label : QueueLabel) (t u : Time) (answer : Option Depth) (cache : Cache)
      → probe label u ≡ answer
      → t ≤ u + most
      → s.now label < u + most + seconds 10
      → Honest most probe cache
      → LookEnds most probe s label (fetched probe s label t answer cache)
  fetched-LookEnds label t u none cache e near recent h = h
  fetched-LookEnds label t u (some counts) cache e near recent h =
      (Honest-store most probe label t counts cache (u, e, near) h, (u, e, recent))

  fetch-LookEnds :
      (label : QueueLabel) (cache : Cache)
      → Honest most probe cache
      → LookEnds most probe s label (fetch probe s label cache)
  fetch-LookEnds label cache h =
      let u = s.now label + s.asks label in
      fetched-LookEnds label (u + s.waits label) u (probe label u) cache refl
        (omega (arith, prompt label)) (omega arith) h

  look_at-LookEnds :
      (label : QueueLabel) (entry : Option (Time × Depth)) (cache : Cache)
      → HonestEntry most probe label entry
      → Honest most probe cache
      → LookEnds most probe s label (look_at probe s label entry cache)
  look_at-LookEnds label none cache e h = fetch-LookEnds label cache h
  look_at-LookEnds label (some (t, counts)) cache (u, e, near) h =
      elim (Bool-cases (ltb (s.now label - t) (seconds 10))) [
        | inl fresh ↦
            let live : s.now label < t + seconds 10 = ground (arith, fresh) in
            rw fresh (h, (u, e, omega (arith, live, near)))
        | inr stale ↦ rw stale (fetch-LookEnds label cache h)
      ]

  honest_entry :
      (label : QueueLabel) (cache : Cache)
      → Honest most probe cache
      → HonestEntry most probe label (cache label)
  honest_entry main cache h = h.0
  honest_entry dlq cache h = h.1

  look-LookEnds :
      (label : QueueLabel) (cache : Cache)
      → Honest most probe cache
      → LookEnds most probe s label (look probe s label cache)
  unfolding look
  look-LookEnds label cache h =
      look_at-LookEnds label (cache label) cache (honest_entry label cache h) h

  LookEnds-Honest :
      (label : QueueLabel) (r : Option Depth) (cache : Cache)
      → LookEnds most probe s label (r, cache)
      → Honest most probe cache
  LookEnds-Honest label none cache h = h
  LookEnds-Honest label (some counts) cache h = h.0

  depths-BothRecent :
      (cache : Cache)
      → Honest most probe cache
      → BothRecent most probe (s, (depths probe s cache).0)
        × Honest most probe (depths probe s cache).1
  unfolding depths
  depths-BothRecent cache h =
      let p = look probe s main cache in
      let main_ends = look-LookEnds main cache h in
      let q = look probe s dlq p.1 in
      let kept = LookEnds-Honest main p.0 p.1 main_ends in
      both p.0 p.1 q.0 q.1 main_ends (look-LookEnds dlq p.1 kept)
    where
      both :
          (first : Option Depth) (cache' : Cache) (second : Option Depth) (cache'' : Cache)
          → LookEnds most probe s main (first, cache')
          → LookEnds most probe s dlq (second, cache'')
          → let r : Option (Depth × Depth) × Cache = elim first [
            | none ↦ (none, cache')
            | some m ↦ elim second [ none ↦ (none, cache'') | some d ↦ (some (m, d), cache'') ]
          ] in
            BothRecent most probe (s, r.0) × Honest most probe r.1
      both none cache' second cache'' a b = (tt, a)
      both (some m) cache' none cache'' a b = (tt, b)
      both (some m) cache' (some d) cache'' a b = ((a.1, b.1), b.0)

scrapes-Honest :
    (most : Time) (probe : Probe) (ss : List Scrape) (cache : Cache)
    → All (Prompt most) ss
    → Honest most probe cache
    → All (BothRecent most probe) (scrapes probe ss cache)
unfolding scrapes
scrapes-Honest most probe [] cache prompt h = tt
scrapes-Honest most probe (s ∷ ss) cache prompt h =
    let (recent, kept) = depths-BothRecent most probe s prompt.0 cache h in
    (recent, scrapes-Honest most probe ss (depths probe s cache).1 prompt.1 kept)

-- In every scrape of a process each depth that is reported is one that SQS counted, less than ten
-- seconds and the time of a response before the clock was read for it, also when requests to SQS
-- fail in between.
-- No response takes longer than `most` from the count of the messages to the reading of the clock.
pub scrapes_recent :
    (most : Time) (probe : Probe) (ss : List Scrape)
    → All (Prompt most) ss
    → All (BothRecent most probe) (scrapes probe ss (λ label. none))
scrapes_recent most probe ss prompt = scrapes-Honest most probe ss (λ label. none) prompt (tt, tt)
