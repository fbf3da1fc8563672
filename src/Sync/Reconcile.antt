-- ===== src/Sync/Reconcile.antt =====
-- engine/sync/snapshot_reconciler.cpp: one scan of a task's folder taken into the database.
pub mod Laws
use veritas_sync_next.Prelude.{
  ℕ, ◌+◌, Bool, true, false, not, ◌&&◌, ◌||◌, Bytes, Result, ok, invalid_argument, List, [], ◌∷◌,
  Option, none, some, empty?, length, if◌then◌else◌, forbid, ◌>>=◌, ◌>>◌, ◌==◌, bytes_eq, bytes_lt,
  find_if, is_sorted,
}
use veritas_sync_next.Storage.Tables.{file, directory, FileRecord, Database}
use veritas_sync_next.Storage.Records.{upsert_file_record, record_tombstone, list_file_records}
use veritas_sync_next.Storage.Lineage.{advance_logical_clock, record_version_lineage}
use veritas_sync_next.Storage.Tasks.{find_task, is_bidirectional}
use veritas_sync_next.Sync.ManifestDiff.{
  SnapshotEntry, SnapshotKind, file_entry, directory_entry, entry_path, record_path, path_before,
  diff_manifest,
}

pub record ReconcileConfig : Type 0 where
  pub task_id : Bytes
  pub origin_device_id : Bytes
  pub logical_clock : ℕ
  pub now_ms : ℕ

abbrev pub record_kind : SnapshotKind → veritas_sync_next.Storage.Tables.FileKind
record_kind file_entry = file
record_kind directory_entry = directory

abbrev pub hash_or_empty : Option Bytes → Bytes
hash_or_empty none = []
hash_or_empty (some hash) = hash

unfoldable pub make_record : SnapshotEntry → ReconcileConfig → Bytes → FileRecord
make_record e config version = record {
  task_id = config.task_id;
  relative_path = e.relative_path;
  kind = record_kind e.kind;
  size = e.size;
  mtime_ns = e.mtime_ns;
  content_hash = hash_or_empty e.content_hash;
  version_id = version;
  origin_device_id = config.origin_device_id;
  logical_clock = config.logical_clock;
  deleted_at_ms = none;
}

-- The inner loops: what stands before a path is passed over, and the front is the path's or not.
module _ {ℓ} {A : Type ℓ} (path : A → Bytes) where
  unfoldable pub skip_before : Bytes → List A → List A
  skip_before p [] = []
  skip_before p (x ∷ xs) = if bytes_lt (path x) p then skip_before p xs else x ∷ xs

  unfoldable pub front_at : Bytes → List A → Option A
  front_at p [] = none
  front_at p (x ∷ xs) = if bytes_eq (path x) p then some x else none

abbrev pub is_there {ℓ} : {A : Type ℓ} → Option A → Bool
is_there none = false
is_there (some x) = true

-- A record whose content is known and whose size or time is not.
unfoldable pub refresh : SnapshotEntry → FileRecord → List FileRecord → List FileRecord
refresh e r rest =
    if not (r.size == e.size) || not (r.mtime_ns == e.mtime_ns)
    then record r { size = e.size; mtime_ns = e.mtime_ns } ∷ rest
    else rest

pub record ReconcileResult : Type 0 where
  pub created_or_changed : ℕ
  pub tombstoned : ℕ

-- `new_id` stands for the generator of version ids: its answer to the n-th call.
module _ (new_id : ℕ → Bytes) where
  -- An entry that is not a change: it is new without a record, and refreshed with one.
  unfoldable pub write_back :
      ReconcileConfig → ℕ → SnapshotEntry → Option FileRecord → List FileRecord → List FileRecord
  write_back config n e none records = make_record e config (new_id n) ∷ records
  write_back config n e (some r) records = refresh e r records

  -- The loop over the snapshot: the records to write, and how many ids were drawn.
  unfoldable pub collect :
      ReconcileConfig
      → ℕ
      → List FileRecord
      → List SnapshotEntry
      → List SnapshotEntry
      → List FileRecord × ℕ
  collect config n known changed [] = ([], n)
  collect config n known changed (e ∷ es) =
      let known_left = skip_before record_path e.relative_path known in
      let changed_left = skip_before entry_path e.relative_path changed in
      let existing = front_at record_path e.relative_path known_left in
      let is_changed = is_there (front_at entry_path e.relative_path changed_left) in
      let is_new = is_changed || not (is_there existing) in
      let (records, drawn) =
        collect config (if is_new then n + 1 else n) known_left changed_left es in
      (
        if is_changed
            then make_record e config (new_id n) ∷ records
            else write_back config n e existing records,
        drawn,
      )

  -- The record that a path had before.
  unfoldable pub previous_at : List FileRecord → Bytes → Option FileRecord
  previous_at known path = find_if (λ r. bytes_eq r.relative_path path) known

  abbrev pub previous_version : Option FileRecord → Option Bytes
  previous_version none = none
  previous_version (some r) = some r.version_id

  abbrev pub is_new_version : Option FileRecord → FileRecord → Bool
  is_new_version none r = true
  is_new_version (some old) r = not (bytes_eq old.version_id r.version_id)

  -- A new version of a bidirectional task takes a clock and a place in the version graph first.
  unfoldable pub store_version :
      Bool → ReconcileConfig → List FileRecord → Database → FileRecord → Result Database
  store_version false config known db r = upsert_file_record db r
  store_version true config known db r = do
    (clock, ticked) ← advance_logical_clock db config.task_id 0
    graph ← record_version_lineage ticked (record {
      task_id = config.task_id;
      version_id = r.version_id;
      parent_version_id = previous_version (previous_at known r.relative_path);
    })
    upsert_file_record graph (record r { logical_clock = clock })

  unfoldable pub store_all :
      Bool → ReconcileConfig → List FileRecord → Database → List FileRecord → Result Database
  store_all versioned config known db [] = ok db
  store_all versioned config known db (r ∷ rs) = do
    next ←
        store_version (versioned && is_new_version (previous_at known r.relative_path) r) config
          known db r
    store_all versioned config known next rs

  unfoldable pub bury :
      Bool → ReconcileConfig → List FileRecord → ℕ → Database → Bytes → Result Database
  bury false config known n db path =
      record_tombstone db config.task_id path (new_id n) config.origin_device_id
        config.logical_clock config.now_ms
  bury true config known n db path = do
    (clock, ticked) ← advance_logical_clock db config.task_id 0
    graph ← record_version_lineage ticked (record {
      task_id = config.task_id;
      version_id = new_id n;
      parent_version_id = previous_version (previous_at known path);
    })
    record_tombstone graph config.task_id path (new_id n) config.origin_device_id clock
        config.now_ms

  unfoldable pub bury_all :
      Bool → ReconcileConfig → List FileRecord → ℕ → Database → List Bytes → Result Database
  bury_all versioned config known n db [] = ok db
  bury_all versioned config known n db (path ∷ paths) = do
    next ← bury versioned config known n db path
    bury_all versioned config known (n + 1) next paths

  -- Nothing to write leaves the database alone; what is written is one transaction.
  unfoldable pub reconcile :
      Database → List SnapshotEntry → ReconcileConfig → Result (ReconcileResult × Database)
  reconcile db snapshot config = do
    known ← list_file_records db config.task_id
    task ← find_task db config.task_id
    diff ← diff_manifest snapshot known
    let (upserts, drawn) = collect config 0 known diff.created_or_changed snapshot
    stored ← store_all (is_bidirectional task) config known db upserts
    buried ← bury_all (is_bidirectional task) config known drawn stored diff.deleted_paths
    ok (
      record {
        created_or_changed = length diff.created_or_changed;
        tombstoned = length diff.deleted_paths;
      },
      buried,
    )

  unfoldable pub apply :
      Database → List SnapshotEntry → ReconcileConfig → Result (ReconcileResult × Database)
  apply db snapshot config = do
    forbid (empty? config.task_id || empty? config.origin_device_id || config.now_ms == 0)
        (invalid_argument "reconciliation identity and timestamp are required")
    forbid (not (is_sorted (path_before entry_path) snapshot))
        (invalid_argument "reconciliation snapshot must be path-sorted")
    reconcile db snapshot config
