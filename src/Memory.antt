-- ===== src/Memory.antt =====
-- internal/infrastructure/persistence/memory. Each method holds the repository's lock from its
-- first line to its last, so a method is one atomic step.
pub mod AlertRepository
pub mod SilenceRepository
pub mod AckEventRepository
pub mod Examples
