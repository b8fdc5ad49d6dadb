-- ===== src/WarpChange.antt =====
-- The change of the WARP exit address, agent/internal/warpchange/state.go: the machine and its
-- environment (Machine), the bounded steps and the waiting (Steps), the loop (Attempts), the whole run
-- (Run), and what is proved of these.
pub mod Machine
pub mod Steps
pub mod Attempts
pub mod Run
pub mod Trace
pub mod Verdict
pub mod Watchdog
pub mod Guarded
pub mod Ordering
pub mod Fuel
pub mod Returning
pub mod Termination
