-- ===== src/Service.antt =====
-- internal/domain/service
pub mod SubscriberMatcher
pub mod Examples
