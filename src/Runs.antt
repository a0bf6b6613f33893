-- ===== src/Runs.antt =====
-- The durable runs of legal_rag/services/run_service.py: tables, operations and what they keep.
pub mod Result
pub mod Validate
pub mod Tables
pub mod Service
pub mod Spec
pub mod Refines
pub mod Invariant
pub mod Calls
pub mod Bounds
pub mod Progress
pub mod Drain
pub mod Publishing
pub mod Replays
