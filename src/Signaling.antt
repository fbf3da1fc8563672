-- ===== src/Signaling.antt =====
-- engine/signaling: how two devices find each other before a peer connection stands.
pub mod Room
pub mod Session
pub mod Tests
