-- ===== src/Api.antt =====
-- app/api: the HTTP handlers and what they make of the database's rows.
pub mod Serializers
pub mod Session
pub mod Conversations
pub mod Stats
pub mod Demo
pub mod Health
