-- ===== src/Upgrade.antt =====
-- The upgrade of the two binaries, agent/cmd/vps-agent-helper/upgrade.go.
pub mod Versions
pub mod Assets
pub mod Files
pub mod Binaries
pub mod Run
pub mod Moves
pub mod Paths
pub mod Rollback
pub mod BackUp
pub mod Commit
pub mod Verified
pub mod Ordering
pub mod Replaced
