-- ===== src/Storage/Runtime.antt =====
-- The runtime state of tasks: RuntimeState, UpdateTaskNetworkState, SetTaskEnabled and
-- UpdateTaskRuntime of engine/storage/database.cpp.
use veritas_sync_next.Prelude.{
  err, ℕ, Bool, true, not, ◌||◌, Bytes, Result, ok, invalid_argument, List, [], ◌∷◌, map, Option,
  none, some, empty?, bytes_eq, ◌==◌, if◌then◌else◌, forbid, ◌>>◌, length, keep_if, find_if, any_of,
}
use veritas_sync_next.Storage.Tables.{TaskRuntimeState, Database}

-- "idle"
abbrev pub idle : Bytes
idle = b'i' ∷ b'd' ∷ b'l' ∷ b'e' ∷ []

-- "watching"
abbrev pub watching : Bytes
watching = b'w' ∷ b'a' ∷ b't' ∷ b'c' ∷ b'h' ∷ b'i' ∷ b'n' ∷ b'g' ∷ []

-- "connecting"
abbrev pub connecting : Bytes
connecting = b'c' ∷ b'o' ∷ b'n' ∷ b'n' ∷ b'e' ∷ b'c' ∷ b't' ∷ b'i' ∷ b'n' ∷ b'g' ∷ []

-- "online"
abbrev pub online : Bytes
online = b'o' ∷ b'n' ∷ b'l' ∷ b'i' ∷ b'n' ∷ b'e' ∷ []

-- "paused"
abbrev pub paused : Bytes
paused = b'p' ∷ b'a' ∷ b'u' ∷ b's' ∷ b'e' ∷ b'd' ∷ []

-- "error"
abbrev pub error_status : Bytes
error_status = b'e' ∷ b'r' ∷ b'r' ∷ b'o' ∷ b'r' ∷ []

-- "unpaired"
abbrev pub unpaired : Bytes
unpaired = b'u' ∷ b'n' ∷ b'p' ∷ b'a' ∷ b'i' ∷ b'r' ∷ b'e' ∷ b'd' ∷ []

-- "offline"
abbrev pub offline : Bytes
offline = b'o' ∷ b'f' ∷ b'f' ∷ b'l' ∷ b'i' ∷ b'n' ∷ b'e' ∷ []

-- status IN (...)
abbrev pub one_of : Bytes → List Bytes → Bool
one_of text texts = any_of (λ t. bytes_eq text t) texts

abbrev pub has_state_id : Bytes → TaskRuntimeState → Bool
has_state_id task_id s = bytes_eq s.task_id task_id

-- UPDATE task_runtime SET ... WHERE task_id=?
abbrev pub update_state :
    Bytes → (TaskRuntimeState → TaskRuntimeState) → List TaskRuntimeState → List TaskRuntimeState
update_state task_id change rows = map (λ s. if has_state_id task_id s then change s else s) rows

abbrev pub with_states : Database → Bytes → (TaskRuntimeState → TaskRuntimeState) → Database
with_states db task_id change = record db {
  task_runtime = update_state task_id change db.task_runtime;
}

-- The update, which has to change one row.
abbrev pub update_one : Database → Bytes → (TaskRuntimeState → TaskRuntimeState) → Result Database
update_one db task_id change = do
  forbid (not (length (keep_if (has_state_id task_id) db.task_runtime) == 1))
      (invalid_argument "task does not exist")
  ok (with_states db task_id change)

abbrev pub found_state : Option TaskRuntimeState → Result TaskRuntimeState
found_state none = err (invalid_argument "task does not exist")
found_state (some s) = ok s

unfoldable pub runtime_state : Database → Bytes → Result TaskRuntimeState
runtime_state db task_id = do
  forbid (empty? task_id) (invalid_argument "task id is required")
  found_state (find_if (has_state_id task_id) db.task_runtime)

abbrev pub network_change : Bytes → Option Bytes → TaskRuntimeState → TaskRuntimeState
network_change network_status network_error s = record s {
  network_status = network_status;
  network_error = network_error;
}

unfoldable pub update_task_network_state : Database → Bytes → Bytes → Option Bytes → Result Database
update_task_network_state db task_id network_status network_error = do
  forbid
      (empty? task_id
        || not
            (one_of network_status (unpaired ∷ offline ∷ connecting ∷ online ∷ error_status ∷ [])))
      (invalid_argument "task network state is invalid")
  update_one db task_id (network_change network_status network_error)

abbrev pub enabled_change : Bool → TaskRuntimeState → TaskRuntimeState
enabled_change enabled s = record s {
  enabled = enabled;
  status = if enabled then idle else paused;
  dirty = if enabled then true else s.dirty;
  last_error = none;
}

unfoldable pub set_task_enabled : Database → Bytes → Bool → Result Database
set_task_enabled db task_id enabled = do
  forbid (empty? task_id) (invalid_argument "task id is required")
  update_one db task_id (enabled_change enabled)

abbrev pub runtime_change :
    Bytes → Bool → Option ℕ → Option Bytes → TaskRuntimeState → TaskRuntimeState
runtime_change status dirty last_scan_at_ms last_error s = record s {
  status = status;
  dirty = dirty;
  last_scan_at_ms = last_scan_at_ms;
  last_error = last_error;
}

unfoldable pub update_task_runtime :
    Database → Bytes → Bytes → Bool → Option ℕ → Option Bytes → Result Database
update_task_runtime db task_id status dirty last_scan_at_ms last_error = do
  forbid
      (empty? task_id
        || not (one_of status (idle ∷ watching ∷ connecting ∷ online ∷ paused ∷ error_status ∷ [])))
      (invalid_argument "task runtime state is invalid")
  update_one db task_id (runtime_change status dirty last_scan_at_ms last_error)
