-- ===== src/Store.antt =====
-- crates/store: what the node keeps in PostgreSQL.
pub mod Error
pub mod Metadata
pub mod Checkpoint
pub mod Ingestion
pub mod Operations
pub mod Schema
pub mod Ddl
pub mod Entity
pub mod Versions
pub mod Idents
pub mod Introspect
pub mod Migration
pub mod Naming
pub mod Postgres
