-- ===== src/Helper.antt =====
-- The runner of the privileged helper, agent/internal/helper/helper.go.
pub mod Output
pub mod Returned
pub mod Executable
pub mod Calls
pub mod Trust
pub mod Operations
pub mod Simulated
pub mod Backups
