-- ===== src/Mysql.antt =====
-- internal/infrastructure/persistence/mysql. A statement is one function on the table; a failing
-- connection is left out.
pub mod Columns
pub mod AlertRepository
pub mod SilenceRepository
pub mod AckEventRepository
pub mod Examples
