-- ===== src/Protocol/Types.antt =====
-- engine/common/protocol.h: the constants, the enumerations with their wire codes, the messages.
-- A string, a vector of bytes and a fixed array are a list of byte values.
use veritas_sync_next.Prelude.{ℕ, Bool, Option, List, Bytes, ltb, leb}

abbrev pub protocol_version : ℕ
protocol_version = 1

abbrev pub frame_header_size : ℕ
frame_header_size = 16

abbrev pub max_frame_size : ℕ
max_frame_size = 16777216

abbrev pub logical_chunk_size : ℕ
logical_chunk_size = 262144

pub data Channel : Type 0 where
  control bulk : Channel

pub data FrameType : Type 0 where
  hello manifest error heartbeat file_request cancel version_manifest : FrameType
  policy_hello policy_propose policy_ack policy_commit policy_done policy_reject : FrameType
  chunk chunk_ack window_update : FrameType

-- static_cast<std::uint8_t>(type)
unfoldable pub frame_code : FrameType → ℕ
frame_code hello = 1
frame_code manifest = 2
frame_code error = 3
frame_code heartbeat = 4
frame_code file_request = 5
frame_code cancel = 6
frame_code version_manifest = 7
frame_code policy_hello = 8
frame_code policy_propose = 9
frame_code policy_ack = 10
frame_code policy_commit = 11
frame_code policy_done = 12
frame_code policy_reject = 13
frame_code chunk = 64
frame_code chunk_ack = 65
frame_code window_update = 66

pub data Role : Type 0 where
  source target peer : Role

unfoldable pub role_code : Role → ℕ
role_code source = 1
role_code target = 2
role_code peer = 3

pub data EntryKind : Type 0 where
  file directory tombstone : EntryKind

unfoldable pub kind_code : EntryKind → ℕ
kind_code file = 1
kind_code directory = 2
kind_code tombstone = 3

pub record Frame : Type 0 where
  pub type : FrameType
  pub request_id : ℕ
  pub payload : Bytes

pub record Hello : Type 0 where
  pub task_id : Bytes
  pub role : Role
  pub device_id : Bytes
  pub device_fingerprint : Bytes
  pub authorization_digest : Bytes

pub record ManifestEntry : Type 0 where
  pub relative_path : Bytes
  pub size : ℕ
  pub content_hash : Bytes

pub record Manifest : Type 0 where
  pub revision : ℕ
  pub entries : List ManifestEntry

pub record VersionedManifestEntry : Type 0 where
  pub relative_path : Bytes
  pub kind : EntryKind
  pub size : ℕ
  pub content_hash : Bytes
  pub version_id : Bytes
  pub origin_device_id : Bytes
  pub logical_clock : ℕ
  pub parent_version_id : Bytes
  pub deleted_at_ms : Option ℕ

pub record VersionedManifest : Type 0 where
  pub revision : ℕ
  pub entries : List VersionedManifestEntry

pub record Chunk : Type 0 where
  pub transfer_id : Bytes
  pub file_hash : Bytes
  pub offset : ℕ
  pub chunk_hash : Bytes
  pub bytes : Bytes

pub record ChunkRange : Type 0 where
  pub first_chunk : ℕ
  pub chunk_count : ℕ

pub record FileRequest : Type 0 where
  pub transfer_id : Bytes
  pub file_hash : Bytes
  pub missing_ranges : List ChunkRange

pub record Cancel : Type 0 where
  pub transfer_id : Bytes
  pub reason : Bytes

pub record IgnorePolicyMessage : Type 0 where
  pub proposal_id : Bytes
  pub base_hash : Bytes
  pub rules : Bytes
  pub source : Bytes

-- Which channel a frame type travels on.
unfoldable pub is_allowed_on : Channel → FrameType → Bool
unfolding frame_code
is_allowed_on control t = ltb (frame_code t) 64
is_allowed_on bulk t = leb 64 (frame_code t)
