-- ===== src/Tests.antt =====
-- Runs of the code on small data, and the theorems applied to them.
pub mod Data
pub mod Jobs
pub mod Worker
pub mod System
pub mod Migrations
pub mod Reads
pub mod Submit
pub mod Database
pub mod Operations
pub mod Scoring
pub mod Ingestor
pub mod Api
