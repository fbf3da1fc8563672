-- ===== src/Storage/Tables.antt =====
-- engine/storage/database.h: the rows. A timestamp is a number; the checks `<= 0` read `== 0`.
use veritas_sync_next.Prelude.{ℕ, Bool, Bytes, List, [], Option, any_of, bytes_eq}

pub record TaskDefinition : Type 0 where
  pub task_id : Bytes
  pub mode : Bytes
  pub role : Bytes
  pub root_path : Bytes

pub data FileKind : Type 0 where
  file directory tombstone : FileKind

pub record FileRecord : Type 0 where
  pub task_id : Bytes
  pub relative_path : Bytes
  pub kind : FileKind
  pub size : ℕ
  pub mtime_ns : ℕ
  pub content_hash : Bytes
  pub version_id : Bytes
  pub origin_device_id : Bytes
  pub logical_clock : ℕ
  pub deleted_at_ms : Option ℕ

pub record VersionLineage : Type 0 where
  pub task_id : Bytes
  pub version_id : Bytes
  pub parent_version_id : Option Bytes

pub data Direction : Type 0 where
  upload download : Direction

pub data TransferState : Type 0 where
  active completed failed cancelled : TransferState

pub record TransferRecord : Type 0 where
  pub transfer_id : Bytes
  pub task_id : Bytes
  pub peer_device_id : Bytes
  pub direction : Direction
  pub file_hash : Bytes
  pub state : TransferState
  pub created_at_ms : ℕ
  pub updated_at_ms : ℕ
  pub relative_path : Bytes
  pub error_code : Option Bytes

pub record IgnorePolicyRevision : Type 0 where
  pub task_id : Bytes
  pub revision : ℕ
  pub content : Bytes
  pub content_hash : Bytes
  pub source : Bytes
  pub created_at_ms : ℕ

-- A row of `ignore_policy_state`: which revision is the current one of a task.
pub record IgnorePolicyPointer : Type 0 where
  pub task_id : Bytes
  pub revision : ℕ
  pub content_hash : Bytes
  pub updated_at_ms : ℕ

pub record TaskRuntimeState : Type 0 where
  pub task_id : Bytes
  pub enabled : Bool
  pub status : Bytes
  pub dirty : Bool
  pub last_scan_at_ms : Option ℕ
  pub last_error : Option Bytes
  pub network_status : Bytes
  pub network_error : Option Bytes

pub record TaskConnection : Type 0 where
  pub task_id : Bytes
  pub tracker_url : Bytes
  pub room_id : Bytes
  pub authorization_digest : Bytes
  pub joined_at_ms : ℕ

pub record TaskMember : Type 0 where
  pub task_id : Bytes
  pub device_id : Bytes
  pub fingerprint : Bytes
  pub role : Bytes
  pub authorized_at_ms : ℕ
  pub revoked : Bool

pub record ConflictRecord : Type 0 where
  pub conflict_id : Bytes
  pub task_id : Bytes
  pub original_path : Bytes
  pub winning_version_id : Bytes
  pub conflict_path : Bytes
  pub state : Bytes
  pub created_at_ms : ℕ

pub record EngineEvent : Type 0 where
  pub event_id : ℕ
  pub task_id : Option Bytes
  pub level : Bytes
  pub message : Bytes
  pub created_at_ms : ℕ

pub record PendingIgnorePolicy : Type 0 where
  pub task_id : Bytes
  pub proposal_id : Bytes
  pub origin_device_id : Bytes
  pub base_hash : Bytes
  pub rules : Bytes
  pub source : Bytes
  pub state : Bytes

-- The tables that the engine's core works on. `transfer_chunks` holds the completed chunks,
-- and `last_event_id` is what AUTOINCREMENT counts in `engine_events`.
pub record Database : Type 0 where
  pub tasks : List TaskDefinition
  pub file_records : List FileRecord
  pub version_lineage : List VersionLineage
  pub task_clocks : List (Bytes × ℕ)
  pub transfers : List TransferRecord
  pub transfer_chunks : List (Bytes × ℕ)
  pub ignore_policy_revisions : List IgnorePolicyRevision
  pub ignore_policy_state : List IgnorePolicyPointer
  pub task_runtime : List TaskRuntimeState
  pub task_connections : List TaskConnection
  pub task_members : List TaskMember
  pub conflicts : List ConflictRecord
  pub engine_events : List EngineEvent
  pub last_event_id : ℕ
  pub pending_ignore_policies : List PendingIgnorePolicy

abbrev pub no_data : Database
no_data = record {
  tasks = [];
  file_records = [];
  version_lineage = [];
  task_clocks = [];
  transfers = [];
  transfer_chunks = [];
  ignore_policy_revisions = [];
  ignore_policy_state = [];
  task_runtime = [];
  task_connections = [];
  task_members = [];
  conflicts = [];
  engine_events = [];
  last_event_id = 0;
  pending_ignore_policies = [];
}

-- What `REFERENCES tasks(task_id)` asks of a row.
unfoldable pub has_task : Database → Bytes → Bool
has_task db task_id = any_of (λ t. bytes_eq t.task_id task_id) db.tasks
