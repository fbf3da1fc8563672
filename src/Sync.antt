-- ===== src/Sync.antt =====
-- engine/sync: the decisions that one node takes about its files and its transfers.
pub mod Resume
pub mod ManifestDiff
pub mod Versions
pub mod Download
pub mod Upload
pub mod Tests
pub mod Reconcile
pub mod OneWay
