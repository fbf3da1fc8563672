-- ===== src/Sync/Tests.antt =====
-- The decisions and the transfers at small inputs.
use veritas_sync_next.Prelude.{
  ◌||◌, ◌==◌, erase, ℕ, ◌+◌, ◌≡◌, refl, ok, true, false, not, ◌&&◌, List, [], ◌∷◌, Bytes, bytes_eq,
  bytes_lt, some, none, replicate, any_of, arith, ltb, take, drop, length, lookup, assign,
  bytes_key, insert_by, sort_by, is_sorted,
}
use veritas_sync_next.Protocol.Types.{ChunkRange, Chunk}
use veritas_sync_next.Storage.Tables.{
  has_task, FileRecord, file, TransferRecord, download, active, completed, Database, no_data,
}
use veritas_sync_next.Storage.Lineage.{is_version_ancestor, climb, find_version_lineage, parent_of}
use veritas_sync_next.Storage.Transfers.{
  mark_chunks, mark_transfer_chunks_completed, mark_transfer_chunk_completed,
  completed_transfer_chunks, update_transfer_state,
}
use veritas_sync_next.Storage.Transfers.Laws.{is_completed}
use veritas_sync_next.Sync.Resume.{
  missing_chunk_ranges, gaps, gap, unique, unique_after, back_reaches,
}
use veritas_sync_next.Sync.Resume.Laws.{
  in_range, mem, missing_chunk_ranges-exact, missing_chunk_ranges-total,
}
use veritas_sync_next.Sync.ManifestDiff.{
  SnapshotEntry, file_entry, entry_path, record_path, ordered_entries, in_order, repeats_path,
  diff_manifest,
}
use veritas_sync_next.Sync.ManifestDiff.Reference.{
  changed_entries, changed_at, gone_paths, difference,
}
use veritas_sync_next.Sync.ManifestDiff.Laws.{diff_manifest-difference}
use veritas_sync_next.Sync.Versions.{
  resolve, resolve_known, resolve_versions, resolve_conflict, remote_wins_conflict,
  remote_sorts_before_local, conflict_path, split_name, split_extension, cut_last, safe_device_id,
  decimal,
}
use veritas_sync_next.Sync.Versions.Laws.{conflict_of, resolve-flip}
use veritas_sync_next.Sync.Download.{
  written_partial, Disk, Receiver, Session, accept_chunk, accepted_chunk, write_partial, write_at,
  front_of, mark_if, commit, commit_partial, counts_from,
}
use veritas_sync_next.Sync.Download.Laws.{
  part_of, accept_chunk-writes, accept_chunk_twice, commit_complete,
}
use veritas_sync_next.Sync.Upload.{ChunkSource, read_chunk}
use veritas_sync_next.Sync.Upload.Laws.{read_chunk-accept_chunk}
use veritas_sync_next.Storage.Paths.{validate_relative_path, split}
use veritas_sync_next.Storage.Records.{
  list_file_records, upsert_file_record, validate_file_record, replace_record,
}
use veritas_sync_next.Storage.Tasks.{find_task, bidirectional_mode}
use veritas_sync_next.Storage.Lineage.{
  advance_logical_clock, clock_of, record_version_lineage, add_lineage,
}
use veritas_sync_next.Sync.ManifestDiff.{merge}
use veritas_sync_next.Sync.Reconcile.{
  ReconcileConfig, apply, reconcile, collect, store_all, store_version, bury_all, make_record,
  write_back, skip_before, front_at, previous_at,
}
use veritas_sync_next.Sync.Reconcile.Laws.{Later, Later-apply}

-- A stand-in for the hash.
abbrev toy_hash : Bytes → Bytes
toy_hash s = replicate 32 9

-- The chunks 1 and 3 of five are there.
abbrev missing : List ChunkRange
missing =
    record { first_chunk = 0; chunk_count = 1 }
    ∷ record { first_chunk = 2; chunk_count = 1 }
    ∷ record { first_chunk = 4; chunk_count = 1 }
    ∷ []

missing_chunk_ranges-exact_example :
    any_of (in_range 2) missing ≡ (ltb 2 5 && not (mem 2 (3 ∷ 1 ∷ 3 ∷ [])))
unfolding missing_chunk_ranges gaps gap unique unique_after back_reaches sort_by insert_by
missing_chunk_ranges-exact_example = missing_chunk_ranges-exact 5 (3 ∷ 1 ∷ 3 ∷ []) missing refl 2

missing_chunk_ranges-total_example :
    (rs : List ChunkRange) × (missing_chunk_ranges 5 (3 ∷ 1 ∷ []) ≡ ok rs)
missing_chunk_ranges-total_example =
    missing_chunk_ranges-total 5 (3 ∷ 1 ∷ []) (omega arith) (omega arith) refl

abbrev record_at_path : Bytes → Bytes → Bytes → ℕ → FileRecord
record_at_path path version origin clock = record {
  task_id = b't' ∷ [];
  relative_path = path;
  kind = file;
  size = 3;
  mtime_ns = 1;
  content_hash = replicate 32 9;
  version_id = version;
  origin_device_id = origin;
  logical_clock = clock;
  deleted_at_ms = none;
}

abbrev scanned_file : Bytes → Bytes → SnapshotEntry
scanned_file path hash = record {
  relative_path = path;
  kind = file_entry;
  size = 3;
  mtime_ns = 1;
  content_hash = some hash;
}

abbrev scanned : List SnapshotEntry
scanned = record (scanned_file (b'a' ∷ []) (replicate 32 9)) { size = 4 } ∷ []

-- `a` has another hash and the same size, `b` is not there, and `c` is as it was.
abbrev rescanned : List SnapshotEntry
rescanned =
    scanned_file (b'a' ∷ []) (replicate 32 8) ∷ scanned_file (b'c' ∷ []) (replicate 32 9) ∷ []

abbrev known : List FileRecord
known =
    record_at_path (b'a' ∷ []) (b'v' ∷ []) (b'd' ∷ []) 1
    ∷ record_at_path (b'b' ∷ []) (b'w' ∷ []) (b'd' ∷ []) 2
    ∷ record_at_path (b'c' ∷ []) (b'x' ∷ []) (b'd' ∷ []) 3
    ∷ []

found :
    difference rescanned known
    ≡ ok (record {
      created_or_changed = scanned_file (b'a' ∷ []) (replicate 32 8) ∷ [];
      deleted_paths = (b'b' ∷ []) ∷ [];
    })
unfolding difference changed_entries changed_at gone_paths bytes_eq
found = refl

diff_manifest-difference_example :
    (diff_manifest rescanned known ≡ difference rescanned known)
    × (rescanned ≡ in_order entry_path rescanned)
    × (known ≡ in_order record_path known)
unfolding ordered_entries in_order repeats_path is_sorted bytes_lt bytes_eq
diff_manifest-difference_example =
    diff_manifest-difference rescanned rescanned known known refl refl

abbrev ours : FileRecord
ours = record_at_path (b'a' ∷ []) (b'v' ∷ []) (b'd' ∷ []) 1

abbrev theirs : FileRecord
theirs = record_at_path (b'a' ∷ []) (b'w' ∷ []) (b'e' ∷ []) 2

-- a.conflict.e.2
abbrev kept_path : Bytes
kept_path =
    b'a' ∷ b'.' ∷ b'c' ∷ b'o' ∷ b'n' ∷ b'f' ∷ b'l' ∷ b'i' ∷ b'c' ∷ b't' ∷ b'.' ∷ b'e' ∷ b'.' ∷ b'2'
    ∷ []

resolve-flip_example :
    resolve no_data (b't' ∷ []) (some theirs) ours ≡ ok (conflict_of true kept_path)
unfolding resolve resolve_known resolve_versions resolve_conflict remote_wins_conflict
    remote_sorts_before_local conflict_path split_name split_extension cut_last safe_device_id
    decimal is_version_ancestor climb find_version_lineage parent_of bytes_eq bytes_lt
resolve-flip_example = resolve-flip no_data (b't' ∷ []) ours theirs kept_path false refl refl refl

abbrev waiting_receiver : Receiver
waiting_receiver = record {
  transfer_id = replicate 16 7;
  relative_path = b'a' ∷ [];
  expected_size = 3;
  expected_hash = replicate 32 9;
  chunk_count = 1;
  cancelled = false;
  accepted = false ∷ [];
  received_bytes = 0;
}

abbrev empty_disk : Disk
empty_disk = record { parts = []; files = [] }

abbrev before : Session
before = record { receiver = waiting_receiver; db = no_data; disk = empty_disk }

abbrev content : Bytes
content = 1 ∷ 2 ∷ 3 ∷ []

abbrev after : Session
after = record {
  receiver = record waiting_receiver { accepted = true ∷ []; received_bytes = 3 };
  db = no_data;
  disk = record { parts = (b'a' ∷ [], content) ∷ []; files = [] };
}

abbrev its_transfer : TransferRecord
its_transfer = record {
  transfer_id = replicate 16 7;
  task_id = b't' ∷ [];
  peer_device_id = b'p' ∷ [];
  direction = download;
  file_hash = replicate 32 9;
  state = active;
  created_at_ms = 1;
  updated_at_ms = 1;
  relative_path = b'a' ∷ [];
  error_code = none;
}

abbrev durable_before : Session
durable_before = record before { db = record no_data { transfers = its_transfer ∷ [] } }

abbrev durable_after : Session
durable_after = record after {
  db = record no_data {
    transfers = record its_transfer { updated_at_ms = 5 } ∷ [];
    transfer_chunks = (replicate 16 7, 0) ∷ [];
  };
}

accept_chunk-writes_example :
    (toy_hash content ≡ replicate 32 9)
    × (take (length content) (drop 0 (part_of durable_after)) ≡ content)
    × (drop (0 + length content) (part_of durable_after)
        ≡ drop (0 + length content) (part_of durable_before))
    × (3 ≡ 0 + length content)
    × ((other : Bytes) (i : ℕ)
        → is_completed durable_after.db other i ≡ (
            is_completed durable_before.db other i
            || (true && bytes_eq (replicate 16 7) other && 0 == i)))
unfolding accept_chunk accepted_chunk write_partial written_partial write_at front_of mark_if lookup
    assign bytes_eq mark_transfer_chunk_completed mark_transfer_chunks_completed mark_chunks
accept_chunk-writes_example =
    accept_chunk-writes toy_hash durable_before durable_after 0 0 content (replicate 32 9) 5 true
      refl

accept_chunk_twice_example :
    accept_chunk toy_hash after 0 0 content (replicate 32 9) 6 false ≡ ok (false, after)
unfolding accept_chunk accepted_chunk write_partial written_partial write_at front_of mark_if lookup
    assign bytes_eq
accept_chunk_twice_example =
    accept_chunk_twice toy_hash before after 0 0 content (replicate 32 9) 5 6 false refl refl

abbrev a_source : ChunkSource
a_source = record { transfer_id = replicate 16 7; file_hash = replicate 32 9 }

abbrev a_chunk : Chunk
a_chunk = record {
  transfer_id = replicate 16 7;
  file_hash = replicate 32 9;
  offset = 0;
  chunk_hash = replicate 32 9;
  bytes = content;
}

read_chunk-accept_chunk_example :
    (accept_chunk toy_hash before 0 0 content (replicate 32 9) 5 false
      ≡ ok (
        true,
        accepted_chunk before 0 content no_data (written_partial empty_disk (b'a' ∷ []) 0 content),
      ))
    × (content ≡ take (length content) (drop 0 content))
unfolding read_chunk
read_chunk-accept_chunk_example =
    read_chunk-accept_chunk toy_hash a_source content 0 a_chunk before 5 (omega arith) refl refl
      refl refl refl

abbrev a_transfer : TransferRecord
a_transfer = record {
  transfer_id = replicate 16 7;
  task_id = b't' ∷ [];
  peer_device_id = b'p' ∷ [];
  direction = download;
  file_hash = replicate 32 9;
  state = active;
  created_at_ms = 1;
  updated_at_ms = 1;
  relative_path = b'a' ∷ [];
  error_code = none;
}

abbrev stored : Database
stored = record no_data { transfers = a_transfer ∷ []; transfer_chunks = (replicate 16 7, 0) ∷ [] }

abbrev full : Session
full = record after { db = stored }

abbrev finished : Session
finished = record full {
  db = record stored {
    transfers = record a_transfer { state = completed; updated_at_ms = 9 } ∷ [];
  };
  disk = record { parts = []; files = (b'a' ∷ [], content) ∷ [] };
}

commit_complete_example :
    ((i : ℕ) → is_completed stored (replicate 16 7) i ≡ ltb i 1)
    × (bytes : Bytes) × (lookup (b'a' ∷ []) finished.disk.files ≡ some bytes)
    × (length bytes ≡ 3)
    × (toy_hash bytes ≡ replicate 32 9)
unfolding commit commit_partial counts_from completed_transfer_chunks update_transfer_state sort_by
    insert_by lookup assign erase bytes_eq
commit_complete_example = commit_complete toy_hash full finished 9 refl

abbrev ids : ℕ → Bytes
ids n = b'i' ∷ n ∷ []

abbrev one_task : Database
one_task = record no_data {
  tasks = record { task_id = b't' ∷ []; mode = bidirectional_mode; role = []; root_path = [] } ∷ [];
}

abbrev a_config : ReconcileConfig
a_config = record {
  task_id = b't' ∷ [];
  origin_device_id = b'd' ∷ [];
  logical_clock = 0;
  now_ms = 5;
}

abbrev taken : Database
taken = record one_task {
  task_clocks = (b't' ∷ [], 1) ∷ [];
  version_lineage =
      record { task_id = b't' ∷ []; version_id = ids 0; parent_version_id = none } ∷ [];
  file_records =
      record {
        task_id = b't' ∷ [];
        relative_path = b'a' ∷ [];
        kind = file;
        size = 4;
        mtime_ns = 1;
        content_hash = replicate 32 9;
        version_id = ids 0;
        origin_device_id = b'd' ∷ [];
        logical_clock = 1;
        deleted_at_ms = none;
      }
      ∷ [];
}

Later-apply_example : Later one_task taken
unfolding apply reconcile collect store_all store_version bury_all make_record write_back
    skip_before front_at previous_at list_file_records find_task diff_manifest merge ordered_entries
    in_order repeats_path is_sorted bytes_lt bytes_eq advance_logical_clock clock_of
    record_version_lineage add_lineage find_version_lineage upsert_file_record validate_file_record
    validate_relative_path split has_task replace_record lookup assign sort_by
Later-apply_example =
    Later-apply ids one_task taken scanned a_config
      (record { created_or_changed = 1; tombstoned = 0 }) refl
