-- ===== src/Resilience.antt =====
-- internal/infrastructure/resilience
pub mod CircuitBreaker
pub mod Examples
