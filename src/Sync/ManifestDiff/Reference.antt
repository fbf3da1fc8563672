-- ===== src/Sync/ManifestDiff/Reference.antt =====
-- What engine/sync/manifest_diff.cpp is to find, path by path: each path is looked up on its own.
use veritas_sync_next.Prelude.{
  ◌==◌, not, invalid_argument, err, Bool, true, false, ◌||◌, Bytes, Result, ok, List, [], ◌∷◌,
  Option, none, some, if◌then◌else◌, ◌>>=◌, bytes_eq, any_of, find_if,
}
use veritas_sync_next.Storage.Tables.{file, directory, tombstone, FileKind, FileRecord}
use veritas_sync_next.Storage.Records.{is_tombstone}
use veritas_sync_next.Sync.ManifestDiff.{
  file_entry, directory_entry, SnapshotKind, SnapshotEntry, ManifestDiff,
}

-- Files differ if they differ in size or in hash; a scanned file has to have a hash.
abbrev pub file_differs : Option Bytes → SnapshotEntry → FileRecord → Result Bool
file_differs none e r = err (invalid_argument "file snapshots require a content hash")
file_differs (some hash) e r = ok (not (e.size == r.size) || not (bytes_eq hash r.content_hash))

-- Whether an entry differs from the record at its path, by the kinds of the two.
abbrev pub differs : SnapshotKind → FileKind → SnapshotEntry → FileRecord → Result Bool
differs file_entry file e r = file_differs e.content_hash e r
differs file_entry directory e r = ok true
differs file_entry tombstone e r = ok true
differs directory_entry file e r = ok true
differs directory_entry directory e r = ok false
differs directory_entry tombstone e r = ok true

-- Whether an entry is a change: nothing is recorded at its path, or something else.
unfoldable pub changed_at : SnapshotEntry → Option FileRecord → Result Bool
changed_at e none = ok true
changed_at e (some r) = differs e.kind r.kind e r

abbrev pub keep_changed : SnapshotEntry → Bool → List SnapshotEntry → List SnapshotEntry
keep_changed e true es = e ∷ es
keep_changed e false es = es

abbrev pub record_at : Bytes → FileRecord → Bool
record_at path r = bytes_eq r.relative_path path

-- The entries that are changes.
unfoldable pub changed_entries : List FileRecord → List SnapshotEntry → Result (List SnapshotEntry)
changed_entries known [] = ok []
changed_entries known (e ∷ es) = do
  changed ← changed_at e (find_if (record_at e.relative_path) known)
  rest ← changed_entries known es
  ok (keep_changed e changed rest)

abbrev pub entry_at : Bytes → SnapshotEntry → Bool
entry_at path e = bytes_eq e.relative_path path

-- The live records at whose path nothing was scanned.
unfoldable pub gone_paths : List SnapshotEntry → List FileRecord → List Bytes
gone_paths es [] = []
gone_paths es (r ∷ rs) =
    if is_tombstone r.kind || any_of (entry_at r.relative_path) es
    then gone_paths es rs
    else r.relative_path ∷ gone_paths es rs

-- The difference path by path.
unfoldable pub difference : List SnapshotEntry → List FileRecord → Result ManifestDiff
difference es rs = do
  changed ← changed_entries rs es
  ok (record { created_or_changed = changed; deleted_paths = gone_paths es rs })
