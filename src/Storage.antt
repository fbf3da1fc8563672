-- ===== src/Storage.antt =====
-- engine/storage: the durable state of an engine, as the tables of engine/storage/database.cpp.
pub mod Paths
pub mod Tables
pub mod Records
pub mod Lineage
pub mod Transfers
pub mod Ignore
pub mod Policies
pub mod TaskPaths
pub mod Tests
pub mod Tasks
pub mod Runtime
pub mod Members
pub mod Conflicts
pub mod TaskStore
