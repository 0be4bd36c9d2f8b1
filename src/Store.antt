-- ===== src/Store.antt =====
-- The PostgreSQL database that the services share: its tables and the form of a statement.
pub mod Value
pub mod Schema
pub mod Sql
pub mod Rows
