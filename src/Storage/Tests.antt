-- ===== src/Storage/Tests.antt =====
-- A database with one task.
use veritas_sync_next.Prelude.{
  ◌⊎◌, ◌≤◌, ℕ, ◌<◌, ◌≡◌, ◌↔◌, refl, ok, true, false, ◌||◌, ◌&&◌, [], ◌∷◌, Bytes, bytes_eq, some,
  none, replicate, any_of, ◌==◌, lookup, assign, bytes_key,
}
use veritas_sync_next.Storage.Paths.{validate_relative_path, split}
use veritas_sync_next.Storage.Tables.{
  FileRecord, file, VersionLineage, TransferRecord, download, active, Database, no_data, has_task,
}
use veritas_sync_next.Storage.Records.{
  validate_file_record, replace_record, upsert_file_record, find_file_record, at_key,
  find-upsert_file_record,
}
use veritas_sync_next.Storage.Lineage.{
  find_version_lineage, record_version_lineage, add_lineage, is_version_ancestor, max_depth,
  clock_of, advance_logical_clock,
}
use veritas_sync_next.Storage.Lineage.Laws.{
  Above, is_version_ancestor-Above, advance_logical_clock-grows, record_version_lineage-keeps,
}
use veritas_sync_next.Storage.Transfers.{mark_transfer_chunks_completed, mark_chunks}
use veritas_sync_next.Storage.Transfers.Laws.{is_completed, mark_transfer_chunks_completed-adds}

abbrev task : Bytes
task = b't' ∷ []

abbrev base : Database
base = record no_data {
  tasks = record { task_id = task; mode = []; role = []; root_path = [] } ∷ [];
}

abbrev a_file : FileRecord
a_file = record {
  task_id = task;
  relative_path = b'a' ∷ [];
  kind = file;
  size = 3;
  mtime_ns = 1;
  content_hash = replicate 32 9;
  version_id = b'v' ∷ [];
  origin_device_id = b'd' ∷ [];
  logical_clock = 1;
  deleted_at_ms = none;
}

abbrev with_file : Database
with_file = record base { file_records = a_file ∷ [] }

find-upsert_file_record_example :
    (find_file_record with_file task (b'a' ∷ []) ≡ ok (some a_file))
    × ((task_id path : Bytes)
        → at_key task_id path a_file ≡ false
        → find_file_record with_file task_id path ≡ find_file_record base task_id path)
unfolding upsert_file_record validate_file_record validate_relative_path split has_task
    replace_record bytes_eq
find-upsert_file_record_example = find-upsert_file_record base with_file a_file refl

abbrev first : VersionLineage
first = record { task_id = task; version_id = b'u' ∷ []; parent_version_id = none }

abbrev second : VersionLineage
second = record { task_id = task; version_id = b'v' ∷ []; parent_version_id = some (b'u' ∷ []) }

abbrev one_version : Database
one_version = record base { version_lineage = first ∷ [] }

abbrev two_versions : Database
two_versions = record base { version_lineage = first ∷ second ∷ [] }

is_version_ancestor-Above_example :
    (is_version_ancestor two_versions task (b'u' ∷ []) (b'v' ∷ []) ≡ ok true)
    ↔ ((n : ℕ) × (n < max_depth) × Above two_versions task (b'u' ∷ []) n (b'v' ∷ []))
is_version_ancestor-Above_example =
    is_version_ancestor-Above two_versions task (b'u' ∷ []) (b'v' ∷ []) refl refl refl

record_version_lineage-keeps_example :
    find_version_lineage two_versions task (b'u' ∷ []) ≡ ok (some first)
unfolding record_version_lineage add_lineage find_version_lineage has_task bytes_eq
record_version_lineage-keeps_example =
    record_version_lineage-keeps one_version two_versions second task (b'u' ∷ []) first refl refl

abbrev ticked : Database
ticked = record base { task_clocks = (task, 6) ∷ [] }

advance_logical_clock-grows_example :
    (clock_of base task < 6)
    × (5 < 6)
    × ((6 ≤ 9223372036854775807) ⊎ (9223372036854775807 < clock_of base task))
    × (clock_of ticked task ≡ 6)
    × ((other : Bytes) → bytes_eq task other ≡ false → clock_of ticked other ≡ clock_of base other)
unfolding advance_logical_clock clock_of has_task lookup assign bytes_eq
advance_logical_clock-grows_example = advance_logical_clock-grows base ticked task 5 6 refl

abbrev a_transfer : TransferRecord
a_transfer = record {
  transfer_id = replicate 16 7;
  task_id = task;
  peer_device_id = b'p' ∷ [];
  direction = download;
  file_hash = replicate 32 9;
  state = active;
  created_at_ms = 1;
  updated_at_ms = 1;
  relative_path = b'a' ∷ [];
  error_code = none;
}

abbrev begun : Database
begun = record base { transfers = a_transfer ∷ [] }

abbrev half_done : Database
half_done = record base {
  transfers = record a_transfer { updated_at_ms = 4 } ∷ [];
  transfer_chunks = (replicate 16 7, 2) ∷ [];
}

mark_transfer_chunks_completed-adds_example : is_completed half_done (replicate 16 7) 2 ≡ (
    is_completed begun (replicate 16 7) 2
    || (bytes_eq (replicate 16 7) (replicate 16 7) && any_of (λ c. c == 2) (2 ∷ [])))
unfolding mark_transfer_chunks_completed mark_chunks bytes_eq
mark_transfer_chunks_completed-adds_example =
    mark_transfer_chunks_completed-adds begun half_done (replicate 16 7) (2 ∷ []) 4 refl
      (replicate 16 7) 2
