-- ===== src/Services.antt =====
-- Interfaces of the services that the code calls and does not implement, with what their
-- documentation promises, and a concrete table for each.
pub mod Redis
pub mod RedisTable
pub mod Database
pub mod Relation
pub mod Upserts
pub mod Sql
pub mod Windows
pub mod Counters
pub mod Collections
pub mod Sets
