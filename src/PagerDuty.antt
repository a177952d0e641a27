-- ===== src/PagerDuty.antt =====
-- internal/infrastructure/pagerduty: the client of the PagerDuty Events API.
pub mod Event
pub mod Failure
pub mod Client
pub mod Examples
