-- ===== src/Protocol.antt =====
-- The versioned wire protocol: engine/common/protocol.h and engine/common/protocol.cpp.
pub mod Types
pub mod Writer
pub mod Reader
pub mod RoundTrip
pub mod Frames
pub mod Handshake
pub mod Manifests
pub mod Transfers
pub mod HandshakeLaws
pub mod ManifestLaws
pub mod TransferLaws
pub mod FrameLaws
pub mod Tests
