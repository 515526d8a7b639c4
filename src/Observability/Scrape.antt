-- ===== src/Observability/Scrape.antt =====
-- app/api/observability.py: the gauges that are read from PostgreSQL at scrape time, and their one
-- registration for each process; app/repository.py: `ingest_counts`.
use convoscore.Prelude.{
  ℕ, zero, suc, ◌+◌, ◌≡◌, refl, arith, Bool, true, false, Option, none, some, List, [], ◌∷◌,
  if◌then◌else◌, map, count, ap, ◌∙◌,
}
use convoscore.Text.{Text, text, ◌is◌}
use convoscore.Models.{Time, Db, IngestStatus, ingested, invalid, ingest_failed, IngestedObject}
use convoscore.Repository.Ingest.{has_status, ingest_count}
use convoscore.Repository.Reads.{Groups, group_by, group_count, oldest_pending_age_seconds}
use convoscore.Repository.Reads.Totals.{group_count-group_by}
use convoscore.Observability.Gauges.{collect, jobs_by_status}

abbrev pub ingest_status_value : IngestStatus → Text
ingest_status_value ingested = text "ingested"
ingest_status_value invalid = text "invalid"
ingest_status_value ingest_failed = text "failed"

unfoldable pub ingest_counts : Db → Groups
ingest_counts db =
    group_by (map (λ (o : IngestedObject). ingest_status_value o.ingest_status) db.ingested_objects)

-- With a label, or without; the age is in microseconds.
pub data Family : Type 0 where
  labelled : Groups → Family
  plain : ℕ → Family

-- What each callback finds in a session of its own: the clock and the database, or an exception.
pub record Scraper : Type 0 where
  pub now : ℕ → Time
  pub state : ℕ → Db
  pub fails : ℕ → Bool

module _ (s : Scraper) where
  abbrev pub in_session : ℕ → (Time → Db → Family) → Option Family
  in_session n read = if s.fails n then none else some (read (s.now n) (s.state n))

  unfoldable pub database_callbacks : List (Text × Option Family)
  database_callbacks =
      (text "convoscore_jobs_by_status", in_session 0 (λ now db. labelled (jobs_by_status db)))
      ∷ (
        text "convoscore_oldest_pending_job_age_seconds",
        in_session 1 (λ now db. plain (oldest_pending_age_seconds now db)),
      )
      ∷ (text "convoscore_ingested_objects", in_session 2 (λ now db. labelled (ingest_counts db)))
      ∷ []

  unfoldable pub scrape_database : List (Text × Family)
  scrape_database = collect database_callbacks

-- `_gauges_registered`, and how often the collector stands in the registry of the process.
pub record Registry : Type 0 where
  pub gauges_registered : Bool
  pub collectors : ℕ

abbrev pub new_registry : Registry
new_registry = record { gauges_registered = false; collectors = 0 }

unfoldable pub install_database_gauges : Registry → Registry
install_database_gauges r =
    if r.gauges_registered
    then r
    else record { gauges_registered = true; collectors = r.collectors + 1 }

-- `create_app`, again and again in one process.
unfoldable pub install_times : ℕ → Registry → Registry
install_times zero r = r
install_times (suc n) r = install_times n (install_database_gauges r)

installed_once :
    (n : ℕ)
    → install_times n (record { gauges_registered = true; collectors = 1 })
      ≡ record { gauges_registered = true; collectors = 1 }
unfolding install_times install_database_gauges
installed_once zero = refl
installed_once (suc n) = installed_once n

-- However often the application is built in a process, its gauges are registered once.
pub install_times-once : (n : ℕ) → (install_times (suc n) new_registry).collectors ≡ 1
unfolding install_times install_database_gauges
install_times-once n = ap (λ (r : Registry). r.collectors) (installed_once n)

status_is :
    (s : IngestStatus) (o : IngestedObject)
    → ((ingest_status_value o.ingest_status) is (ingest_status_value s)) ≡ has_status s o
unfolding ◌is◌
status_is ingested o = ground arith
status_is invalid o = ground arith
status_is ingest_failed o = ground arith

-- The entry of a status is the number of the objects that have it, 0 when there is no entry.
pub ingest_counts-count :
    (s : IngestStatus) (db : Db)
    → group_count (ingest_status_value s) (ingest_counts db) ≡ ingest_count s db
unfolding ingest_counts ingest_count
ingest_counts-count s db =
    group_count-group_by (ingest_status_value s)
      (map (λ (o : IngestedObject). ingest_status_value o.ingest_status) db.ingested_objects)
    ∙ go db.ingested_objects
  where
    go :
        (os : List IngestedObject)
        → count
            (λ j. j is ingest_status_value s)
            (map (λ (o : IngestedObject). ingest_status_value o.ingest_status) os)
          ≡ count (has_status s) os
    go [] = refl
    go (o ∷ os) = ground (arith, status_is s o, go os)
