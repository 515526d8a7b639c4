-- ===== src/Scoring.antt =====
-- app/scoring: the contract, the prices, the prompt and the providers.
pub mod Contract
pub mod Pricing
pub mod Prompt
pub mod Provider
pub mod Fake
