-- ===== src/Tests.antt =====
-- Runs of the models on concrete inputs.
pub mod Store
pub mod Runs
mod RunCalls
mod Chunks
mod Activation
mod Texts
