-- ===== src/Executor.antt =====
-- The action executor, agent/internal/action/executor.go: results and their journal form (Results),
-- the dispatch to the operations of the node (Dispatch), the handling of one command (Requests),
-- and what is proved of these.
pub mod Results
pub mod Dispatch
pub mod Requests
pub mod Idempotence
pub mod Touches
pub mod Outcome
pub mod Effects
pub mod Bounds
