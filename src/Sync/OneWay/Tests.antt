-- ===== src/Sync/OneWay/Tests.antt =====
-- Two nodes of a task, and the claims of one-way synchronization at them.
use veritas_sync_next.Prelude.{
  insert_by, sort_by, bytes_eq, lookup, ◌+◌, ℕ, ◌≡◌, ◌⊎◌, refl, Bool, true, false, none, [], ◌∷◌,
  Bytes, Result, ok, err, replicate, length,
}
use veritas_sync_next.Protocol.Types.{
  Role, source, target, Channel, control, Frame, Manifest, is_allowed_on, FrameType,
}
use veritas_sync_next.Protocol.Types
use veritas_sync_next.Protocol.Frames.{encode_frame, decode_frame}
use veritas_sync_next.Protocol.Manifests.{encode_manifest}
use veritas_sync_next.Storage.Tables.{has_task, Database, no_data}
use veritas_sync_next.Sync.OneWay.Node.{go_on, Node, OneWaySyncConfig}
use veritas_sync_next.Sync.OneWay.Target.{
  apply_manifest, delete_files_absent_from, take_entry, target_already_has,
}
use veritas_sync_next.Sync.OneWay.Entries.{has_repeat}
use veritas_sync_next.Sync.OneWay.Files.{
  ensure_directory, make_directory, is_directory_at, is_file_at,
}
use veritas_sync_next.Storage.TaskPaths.{
  resolve_task_path, check_names, names_of, stem, device_name,
}
use veritas_sync_next.Storage.Ignore.Texts.{last_is}
use veritas_sync_next.Storage.Ignore.Rules.{prefixes}
use veritas_sync_next.Storage.Paths.{split, validate_relative_path}
use veritas_sync_next.Storage.Records.{
  upsert_file_record, validate_file_record, list_file_records, find_file_record,
}
use veritas_sync_next.Sync.OneWay.Receive.{receive}
use veritas_sync_next.Sync.OneWay.ReadOnly.{receive-source}
use veritas_sync_next.Sync.OneWay.Gate.{held, Greets, receive-gate}

abbrev config : Role → Bytes → Bytes → OneWaySyncConfig
config role device peer = record {
  task_id = b't' ∷ [];
  role = role;
  device_id = device;
  peer_device_id = peer;
  device_fingerprint = b'f' ∷ [];
  authorization_digest = b'd' ∷ [];
}

abbrev base : Database
base = record no_data {
  tasks = record { task_id = b't' ∷ []; mode = []; role = []; root_path = [] } ∷ [];
}

abbrev node : OneWaySyncConfig → Bool → Node
node config greeted = record {
  config = config;
  db = base;
  disk = record { parts = []; files = [] };
  directories = [];
  started = true;
  received_hello = greeted;
  next_request_id = 1;
  manifest_revision = 0;
  source_manifest = record { revision = 0; entries = [] };
  source_files = [];
  downloads = [];
  uploads = [];
  received_manifest = none;
  last_error = none;
  statistics = record {
    control_bytes_sent = 0;
    bulk_bytes_sent = 0;
    control_bytes_received = 0;
    bulk_bytes_received = 0;
    chunks_sent = 0;
    chunks_received = 0;
    files_committed = 0;
    files_deleted = 0;
    backpressure_pauses = 0;
  };
  sent = [];
  drawn = 0;
}

abbrev source_node : Bool → Node
source_node = node (config source (b's' ∷ []) (b'r' ∷ []))

abbrev target_node : Bool → Node
target_node = node (config target (b'r' ∷ []) (b's' ∷ []))

abbrev blake3 : Bytes → Bytes
blake3 s = replicate 32 (length s)

abbrev ids : ℕ → Bytes
ids n = replicate 16 (n + 1)

abbrev or_nothing : Result Bytes → Bytes
or_nothing (err e) = []
or_nothing (ok wire) = wire

-- A manifest of one directory.
abbrev manifest : Manifest
manifest = record {
  revision = 1;
  entries = record { relative_path = b'a' ∷ []; size = 0; content_hash = [] } ∷ [];
}

abbrev manifest_wire : Bytes
manifest_wire = or_nothing (
    encode_frame (record {
      type = veritas_sync_next.Protocol.Types.FrameType.manifest;
      request_id = 7;
      payload = or_nothing (encode_manifest manifest);
    }))

-- A target makes the directory of the manifest.
makes_directory :
    (apply_manifest blake3 ids ids 5 manifest (target_node true)).1.directories ≡ (b'a' ∷ []) ∷ []
unfolding apply_manifest go_on delete_files_absent_from take_entry target_already_has
    ensure_directory make_directory is_directory_at is_file_at has_repeat sort_by resolve_task_path
    check_names names_of stem device_name last_is split prefixes list_file_records find_file_record
    validate_relative_path bytes_eq lookup insert_by upsert_file_record validate_file_record
    has_task
makes_directory = refl

-- A source is sent a manifest.
receive-source_example :
    let after = receive blake3 ids ids 5 control manifest_wire (source_node true) in
    (after.db ≡ base) × (after.disk ≡ (source_node true).disk) × (after.directories ≡ [])
receive-source_example =
    receive-source blake3 ids ids 5 control manifest_wire (source_node true) refl

-- A target is sent a manifest before a HELLO.
receive-gate_example :
    (held (receive blake3 ids ids 5 control manifest_wire (target_node false))
      ≡ held (target_node false))
    ⊎ ((f : Frame) × (decode_frame manifest_wire ≡ ok f)
        × (is_allowed_on control f.type ≡ true)
        × Greets (target_node false).config f)
receive-gate_example = receive-gate blake3 ids ids 5 control manifest_wire (target_node false) refl
