-- ===== src/Http.antt =====
-- The HTTP side: internal/adapter/handler, its middleware, and internal/infrastructure/server/router.go.
pub mod Request
pub mod Auth
pub mod AlertmanagerHandler
pub mod PagerDutyHandler
pub mod SlackHandler
pub mod SlackCommands
pub mod Ready
pub mod Router
pub mod Timeout
pub mod Examples
