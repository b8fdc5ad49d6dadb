-- ===== src/Journal.antt =====
-- The request journal, agent/internal/journal/journal.go: the entries and their index (Entries),
-- the file behind them (Disk), the operations (Store), and what is proved of these.
pub mod Entries
pub mod Disk
pub mod Store
pub mod Index
pub mod Trim
pub mod Cases
pub mod Record
pub mod Files
pub mod History
pub mod Stuck
pub mod Loading
pub mod Reload
pub mod Restart
