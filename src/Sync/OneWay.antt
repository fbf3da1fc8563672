-- ===== src/Sync/OneWay.antt =====
-- engine/sync/one_way_sync.cpp: the node of a single-source, single-target session.
pub mod Hashes
pub mod Node
pub mod Files
pub mod Entries
pub mod Target
pub mod Source
pub mod Receive
pub mod Keeps
pub mod Gate
pub mod ReadOnly
pub mod Tests
