-- ===== src/Harness.antt =====
-- legal_rag/harness: the durable state of a run, its graph of nodes and its budget.
pub mod State
pub mod Graph
pub mod Budget
