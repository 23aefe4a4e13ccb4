-- ===== src/Tests.antt =====
-- Concrete clients, runs of the controllers on them, and the theorems at concrete inputs.
pub mod World
mod RestoreRuns
mod ProgressRuns
mod InstructionRuns
mod RefusedRuns
mod WriteRuns
mod CopyRuns
mod SavedRuns
mod BackupRuns
mod HistoryRuns
mod ManagerRuns
mod FlagRuns
mod AdvanceRuns
mod SyncRuns
mod WebhookRuns
mod ServedRuns
