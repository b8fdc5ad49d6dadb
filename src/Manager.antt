-- ===== src/Manager.antt =====
-- The WARP and x-ui manager, agent/internal/warp/manager.go: its state and operations (Operations),
-- the waits for a state (Waiting), and what is proved of these.
pub mod Waiting
pub mod Operations
pub mod Toggling
pub mod Caching
pub mod Returning
