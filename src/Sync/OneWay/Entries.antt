-- ===== src/Sync/OneWay/Entries.antt =====
-- What a target of engine/sync/one_way_sync.cpp does with single entries, records and downloads.
use veritas_sync_next.Prelude.{
  ℕ, ◌+◌, ◌*◌, Bool, false, not, ◌||◌, ◌&&◌, Option, none, some, List, [], ◌∷◌, ◌++◌, Bytes, any_of,
  bytes_eq, bytes_key, empty?, ◌==◌, if◌then◌else◌,
}
use veritas_sync_next.Protocol.Types.{ManifestEntry}
use veritas_sync_next.Storage.Tables.{FileRecord, FileKind, file, directory, tombstone}
use veritas_sync_next.Storage.Records.{upsert_file_record, is_file, is_directory}
use veritas_sync_next.Storage.TaskPaths.{resolve_task_path}
use veritas_sync_next.Sync.Download.{Receiver, Session}
use veritas_sync_next.Sync.OneWay.Hashes.{decode_hash}
use veritas_sync_next.Sync.OneWay.Node.{
  Node, ActiveDownload, OneWaySyncConfig, Action, pure, gets, lift, modify, when, ◌>>=◌, ◌>>◌,
}
use veritas_sync_next.Sync.OneWay.Files.{remove_file, remove_empty_directory}

abbrev pub persist_batch_bytes : ℕ
persist_batch_bytes = 8 * 1024 * 1024

abbrev pub is_directory_entry : ManifestEntry → Bool
is_directory_entry e = empty? e.content_hash

abbrev pub check_entry : ManifestEntry → Action (Unit {0})
check_entry e = do
  lift (resolve_task_path e.relative_path)
  when (not (is_directory_entry e)) (lift (decode_hash e.content_hash) >>= λ hash. pure tt)

-- std::adjacent_find of a sorted list.
unfoldable pub has_repeat : List Bytes → Bool
has_repeat [] = false
has_repeat (p ∷ []) = false
has_repeat (p ∷ q ∷ rest) = bytes_eq p q || has_repeat (q ∷ rest)

abbrev pub store_record : FileRecord → Action (Unit {0})
store_record r = do
  db ← gets (λ n. n.db)
  next ← lift (upsert_file_record db r)
  modify (λ n. record n { db = next })

-- The record of an entry as the peer's.
abbrev pub entry_record : OneWaySyncConfig → ManifestEntry → FileKind → Bytes → Bytes → FileRecord
entry_record c e kind hash version = record {
  task_id = c.task_id;
  relative_path = e.relative_path;
  kind = kind;
  size = e.size;
  mtime_ns = 0;
  content_hash = hash;
  version_id = version;
  origin_device_id = c.peer_device_id;
  logical_clock = 0;
  deleted_at_ms = none;
}

abbrev pub count_deleted : Action (Unit {0})
count_deleted = modify λ n. record n {
  statistics = record n.statistics { files_deleted = n.statistics.files_deleted + 1 };
}

abbrev pub count_committed : Action (Unit {0})
count_committed = modify λ n. record n {
  statistics = record n.statistics { files_committed = n.statistics.files_committed + 1 };
}

abbrev pub count_chunk : Action (Unit {0})
count_chunk = modify λ n. record n {
  statistics = record n.statistics { chunks_received = n.statistics.chunks_received + 1 };
}

abbrev pub remove_entry : FileKind → Bytes → Action (Unit {0})
remove_entry file path = do remove_file path; count_deleted
remove_entry directory path = remove_empty_directory path
remove_entry tombstone path = pure tt

-- What the record and the file of an entry have to be for the target to have it.
abbrev pub is_recorded_directory : Option FileRecord → Bool
is_recorded_directory none = false
is_recorded_directory (some r) = is_directory r.kind

abbrev pub is_recorded_file : Option FileRecord → ManifestEntry → Bytes → Bool
is_recorded_file none e hash = false
is_recorded_file (some r) e hash =
    is_file r.kind && r.size == e.size && bytes_eq r.content_hash hash

abbrev pub same_download : Bytes → Bytes → ActiveDownload → Bool
same_download id hash d = bytes_eq d.transfer_id id && bytes_eq d.hash hash

unfoldable pub replace_download : ActiveDownload → List ActiveDownload → List ActiveDownload
replace_download d [] = []
replace_download d (q ∷ qs) =
    if same_download d.transfer_id d.hash q then d ∷ qs else q ∷ replace_download d qs

unfoldable pub erase_download : ActiveDownload → List ActiveDownload → List ActiveDownload
erase_download d [] = []
erase_download d (q ∷ qs) =
    if same_download d.transfer_id d.hash q then qs else q ∷ erase_download d qs

abbrev pub put_download : ActiveDownload → Action (Unit {0})
put_download d = modify λ n. record n { downloads = replace_download d n.downloads }

abbrev pub session_of : Receiver → Node → Session
session_of r n = record { receiver = r; db = n.db; disk = n.disk }

abbrev pub put_session : Session → Action (Unit {0})
put_session s = modify λ n. record n { db = s.db; disk = s.disk }

abbrev pub mark_dirty : ActiveDownload → ℕ → ℕ → ActiveDownload
mark_dirty d index bytes = if any_of (λ i. i == index) d.dirty_chunks then d else record d {
  dirty_chunks = d.dirty_chunks ++ index ∷ [];
  dirty_bytes = d.dirty_bytes + bytes;
}
