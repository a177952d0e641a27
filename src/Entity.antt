-- ===== src/Entity.antt =====
-- internal/domain/entity
pub mod Alert
pub mod AckEvent
pub mod SilenceMark
pub mod AlertSummary
pub mod Examples
