-- ===== src/Repository.antt =====
-- app/repository.py: the state transitions of a job, its reads, and the record of ingested objects.
pub mod Jobs
pub mod Ingest
pub mod Reads
pub mod Effects
pub mod Rows
