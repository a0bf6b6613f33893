-- ===== src/Jobs.antt =====
-- Durable batch jobs: legal_rag/jobs.
pub mod Result
pub mod Validate
pub mod Tables
pub mod Store
pub mod Invariant
pub mod Methods
pub mod History
pub mod Lease
pub mod Dispatcher
pub mod Redelivery
pub mod Rounds
pub mod Idempotency
pub mod Publication
