-- ===== src/Transport.antt =====
-- engine/transport: what carries frames between two nodes.
pub mod Connection
pub mod Scheduler
pub mod Tests
pub mod Fragments
