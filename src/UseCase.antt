-- ===== src/UseCase.antt =====
-- internal/usecase
pub mod Retry
pub mod World
pub mod AlertInput
pub mod Notify
pub mod MemoryStores
pub mod ProcessAlert
pub mod SyncAck
pub mod PagerDutyWebhook
pub mod Slack
pub mod Examples
