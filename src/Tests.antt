-- ===== src/Tests.antt =====
-- Runs of the models on concrete inputs, and an instance of each property.
mod JournalRuns
mod ProtocolRuns
mod ExecutorRuns
mod WarpRuns
mod BackoffRuns
mod WebsocketRuns
mod ManagerRuns
mod UpgradeRuns
mod HelperRuns
mod SessionRuns
