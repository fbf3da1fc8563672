-- ===== src/Sync/ManifestDiff.antt =====
-- engine/sync/manifest_diff.cpp: a scan of the disk against the records of the database.
pub mod Reference
pub mod Laws
use veritas_sync_next.Prelude.{
  ℕ, zero, suc, ◌+◌, Bool, true, false, not, ◌&&◌, ◌||◌, Bytes, Result, ok, err, invalid_argument,
  List, [], ◌∷◌, Option, none, some, if◌then◌else◌, forbid, ◌>>=◌, ◌>>◌, sort_by, is_sorted, ◌==◌,
  bytes_eq, bytes_lt, length, take,
}
use veritas_sync_next.Storage.Tables.{FileKind, file, directory, tombstone, FileRecord}
use veritas_sync_next.Storage.Records.{is_file, is_directory, is_tombstone}

-- engine/storage/manifest_scanner.h: what the scanner finds under a root.
pub data SnapshotKind : Type 0 where
  file_entry directory_entry : SnapshotKind

pub record SnapshotEntry : Type 0 where
  pub relative_path : Bytes
  pub kind : SnapshotKind
  pub size : ℕ
  pub mtime_ns : ℕ
  pub content_hash : Option Bytes

pub record ManifestDiff : Type 0 where
  pub created_or_changed : List SnapshotEntry
  pub deleted_paths : List Bytes

-- A file with its hash, which has to be the whole hash of the record.
abbrev pub same_hash : SnapshotEntry → Option Bytes → FileRecord → Result Bool
same_hash e none r = err (invalid_argument "file snapshots require a content hash")
same_hash e (some hash) r = ok (e.size == r.size && bytes_eq hash r.content_hash)

-- IsSameContent, by the kind of the entry.
unfoldable pub is_same_content : SnapshotKind → SnapshotEntry → FileRecord → Result Bool
is_same_content directory_entry e r = ok (is_directory r.kind)
is_same_content file_entry e r =
    if not (is_file r.kind) then ok false else same_hash e e.content_hash r

abbrev pub entry_path : SnapshotEntry → Bytes
entry_path e = e.relative_path

abbrev pub record_path : FileRecord → Bytes
record_path r = r.relative_path

-- OrderedEntries, of entries with a path each.
module _ {ℓ} {A : Type ℓ} (path : A → Bytes) where
  abbrev pub path_before : A → A → Bool
  path_before a b = bytes_lt (path a) (path b)

  unfoldable pub repeats_path : List A → Bool
  repeats_path [] = false
  repeats_path (a ∷ []) = false
  repeats_path (a ∷ b ∷ rest) = bytes_eq (path a) (path b) || repeats_path (b ∷ rest)

  unfoldable pub in_order : List A → List A
  in_order entries = if is_sorted path_before entries then entries else sort_by path_before entries

  unfoldable pub ordered_entries : List A → Result (List A)
  ordered_entries entries = do
    forbid (repeats_path (in_order entries)) (invalid_argument "manifest contains duplicate paths")
    ok (in_order entries)

abbrev pub add_changed : Bool → SnapshotEntry → ManifestDiff → ManifestDiff
add_changed true e d = record d { created_or_changed = e ∷ d.created_or_changed }
add_changed false e d = d

abbrev pub add_deleted : FileRecord → ManifestDiff → ManifestDiff
add_deleted r d =
    if is_tombstone r.kind
    then d
    else record d { deleted_paths = r.relative_path ∷ d.deleted_paths }

-- Whether an entry that has a record at its path is a change.
unfoldable pub is_change : SnapshotEntry → FileRecord → Result Bool
is_change e r =
    if is_tombstone r.kind then ok true else (is_same_content e.kind e r >>= λ same. ok (not same))

-- The loops of DiffManifest, with `fuel` steps left.
unfoldable pub merge : ℕ → List SnapshotEntry → List FileRecord → Result ManifestDiff
merge fuel [] [] = ok (record { created_or_changed = []; deleted_paths = [] })
merge zero (e ∷ es) rs = err (invalid_argument "out of fuel")
merge zero [] (r ∷ rs) = err (invalid_argument "out of fuel")
merge (suc fuel) (e ∷ es) [] = merge fuel es [] >>= λ d. ok (add_changed true e d)
merge (suc fuel) [] (r ∷ rs) = merge fuel [] rs >>= λ d. ok (add_deleted r d)
merge (suc fuel) (e ∷ es) (r ∷ rs) = elim (bytes_lt e.relative_path r.relative_path) [
  | true ↦ merge fuel es (r ∷ rs) >>= λ d. ok (add_changed true e d)
  | false ↦ elim (bytes_lt r.relative_path e.relative_path) [
    | true ↦ merge fuel (e ∷ es) rs >>= λ d. ok (add_deleted r d)
    | false ↦ is_change e r >>= λ changed. merge fuel es rs >>= λ d. ok (add_changed changed e d)
  ]
]

unfoldable pub diff_manifest : List SnapshotEntry → List FileRecord → Result ManifestDiff
diff_manifest snapshot known_records = do
  scanned ← ordered_entries entry_path snapshot
  known ← ordered_entries record_path known_records
  merge (length scanned + length known) scanned known
