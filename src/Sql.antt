-- ===== src/Sql.antt =====
-- What the SQL repositories stand on: tables, and JSON texts in columns.
pub mod Json
pub mod Tables
pub mod Versions
