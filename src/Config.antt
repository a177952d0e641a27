-- ===== src/Config.antt =====
-- internal/infrastructure/config: the configuration, its loading, its validation and its reload.
pub mod Types
pub mod Defaults
pub mod Validator
pub mod Environment
pub mod Load
pub mod Reload
pub mod Examples
