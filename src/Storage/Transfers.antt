-- ===== src/Storage/Transfers.antt =====
-- Transfers and their completed chunks: CreateTransfer, FindActiveDownloadTransfer,
-- MarkTransferChunkCompleted, MarkTransferChunksCompleted, CompletedTransferChunks,
-- UpdateTransferState and TransferState of engine/storage/database.cpp.
pub mod Laws
use veritas_sync_next.Prelude.{
  ℕ, Bool, true, false, not, ◌&&◌, ◌||◌, Bytes, Result, ok, err, invalid_argument, runtime_error,
  List, [], ◌∷◌, ◌++◌, Option, none, some, empty?, length, map, bytes_eq, if◌then◌else◌, forbid,
  ◌>>=◌, ◌>>◌, sort_by, keep_if, find_if, any_of, ◌==◌, ltb, get_elem?,
}
use veritas_sync_next.Storage.Paths.{validate_relative_path}
use veritas_sync_next.Storage.Tables.{
  Direction, upload, download, TransferState, active, completed, failed, cancelled, TransferRecord,
  Database, has_task,
}
use veritas_sync_next.Storage.Lineage.{int64_max}

abbrev pub is_active : TransferState → Bool
is_active active = true
is_active _ = false

abbrev pub is_download : Direction → Bool
is_download download = true
is_download upload = false

-- An empty path is allowed: it is what a row has that an old schema wrote.
abbrev pub check_transfer_path : Bytes → Result (Unit {0})
check_transfer_path [] = ok tt
check_transfer_path (b ∷ bs) = validate_relative_path (b ∷ bs)

unfoldable pub validate_transfer : TransferRecord → Result (Unit {0})
validate_transfer t = do
  forbid
      (empty? t.task_id
        || empty? t.peer_device_id
        || not (any_of (λ byte. not (byte == 0)) t.transfer_id)
        || not (length t.file_hash == 32)
        || t.created_at_ms == 0
        || t.updated_at_ms == 0)
      (invalid_argument "transfer fields are invalid")
  check_transfer_path t.relative_path

abbrev pub has_id : Bytes → TransferRecord → Bool
has_id id t = bytes_eq t.transfer_id id

unfoldable pub create_transfer : Database → TransferRecord → Result Database
create_transfer db t = do
  validate_transfer t
  forbid (any_of (has_id t.transfer_id) db.transfers || not (has_task db t.task_id))
      (runtime_error "insert transfer")
  ok (record db { transfers = db.transfers ++ t ∷ [] })

abbrev pub is_active_download : Bytes → Bytes → Bytes → Bytes → TransferRecord → Bool
is_active_download task peer path hash t =
    bytes_eq t.task_id task
    && bytes_eq t.peer_device_id peer
    && bytes_eq t.relative_path path
    && bytes_eq t.file_hash hash
    && is_download t.direction
    && is_active t.state

-- The lookup does not read the column error_code.
abbrev pub without_code : Option TransferRecord → Option TransferRecord
without_code none = none
without_code (some t) = some (record t { error_code = none })

-- ORDER BY created_at_ms DESC LIMIT 1
unfoldable pub find_active_download_transfer :
    Database → Bytes → Bytes → Bytes → Bytes → Result (Option TransferRecord)
find_active_download_transfer db task peer path hash = do
  forbid (empty? task || empty? peer || not (length hash == 32))
      (invalid_argument "active transfer lookup is invalid")
  validate_relative_path path
  let rows = keep_if (is_active_download task peer path hash) db.transfers
  ok (without_code (get_elem? (sort_by (λ s t. ltb t.created_at_ms s.created_at_ms) rows) 0))

abbrev pub is_chunk : Bytes → ℕ → Bytes × ℕ → Bool
is_chunk id i (j, c) = bytes_eq j id && c == i

-- INSERT ... ON CONFLICT(transfer_id, chunk_index) DO UPDATE SET completed=1, for each index.
unfoldable pub mark_chunks : Bytes → List ℕ → List (Bytes × ℕ) → List (Bytes × ℕ)
mark_chunks id [] rows = rows
mark_chunks id (i ∷ is) rows =
    mark_chunks id is (if any_of (is_chunk id i) rows then rows else rows ++ (id, i) ∷ [])

abbrev pub touch : Bytes → ℕ → TransferRecord → TransferRecord
touch id time t = if has_id id t then record t { updated_at_ms = time } else t

-- A chunk of no transfer fails on the foreign key, and the transaction is rolled back: the caller
-- goes on with the database that it had.
unfoldable pub mark_transfer_chunks_completed : Database → Bytes → List ℕ → ℕ → Result Database
mark_transfer_chunks_completed db id indices time = do
  forbid (empty? indices || time == 0 || any_of (ltb int64_max) indices)
      (invalid_argument "transfer chunk fields are invalid")
  forbid (not (any_of (has_id id) db.transfers)) (runtime_error "mark transfer chunk complete")
  ok (record db {
    transfer_chunks = mark_chunks id indices db.transfer_chunks;
    transfers = map (touch id time) db.transfers;
  })

unfoldable pub mark_transfer_chunk_completed : Database → Bytes → ℕ → ℕ → Result Database
mark_transfer_chunk_completed db id index time =
    mark_transfer_chunks_completed db id (index ∷ []) time

abbrev pub chunk_of : Bytes × ℕ → ℕ
chunk_of (id, i) = i

unfoldable pub completed_transfer_chunks : Database → Bytes → List ℕ
completed_transfer_chunks db id =
    sort_by ltb (map chunk_of (keep_if (λ row. bytes_eq row.0 id) db.transfer_chunks))

abbrev pub set_state : Bytes → TransferState → ℕ → Option Bytes → TransferRecord → TransferRecord
set_state id state time code t =
    if has_id id t then record t { state = state; error_code = code; updated_at_ms = time } else t

unfoldable pub update_transfer_state :
    Database → Bytes → TransferState → ℕ → Option Bytes → Result Database
update_transfer_state db id state time code = do
  forbid (time == 0) (invalid_argument "transfer state is invalid")
  forbid (not (any_of (has_id id) db.transfers)) (invalid_argument "transfer does not exist")
  ok (record db { transfers = map (set_state id state time code) db.transfers })

abbrev pub state_of : Option TransferRecord → Option TransferState
state_of none = none
state_of (some t) = some t.state

unfoldable pub transfer_state : Database → Bytes → Option TransferState
transfer_state db id = state_of (find_if (has_id id) db.transfers)
