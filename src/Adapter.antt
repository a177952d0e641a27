-- ===== src/Adapter.antt =====
-- internal/adapter/dto
pub mod SlackCommand
pub mod Examples
