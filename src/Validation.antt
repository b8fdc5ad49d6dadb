-- ===== src/Validation.antt =====
-- agent/internal/validation/validation.go: the texts accepted as node ids, request ids, unit names
-- and adapter names (Rules), the absolute paths (Paths), and what is kept out by that (Safety).
pub mod Rules
pub mod Safety
pub mod Paths
