-- ===== src/Storage/TaskStore.antt =====
-- The tasks themselves: CreateTask, ListTasks and DeleteTask of engine/storage/database.cpp.
pub mod Rows
pub mod Laws
pub mod Paired
pub mod Tests
use veritas_sync_next.Prelude.{
  err, Bool, true, not, ◌||◌, ◌&&◌, Bytes, Result, ok, invalid_argument, runtime_error, List, [],
  ◌∷◌, map, Option, none, some, empty?, bytes_eq, bytes_lt, ◌==◌, if◌then◌else◌, forbid, ◌>>◌,
  length, sort_by, keep_if, any_of,
}
use veritas_sync_next.Storage.Tables.{
  TaskDefinition, TaskRuntimeState, EngineEvent, Database, has_task,
}
use veritas_sync_next.Storage.Tasks.{bidirectional_mode, source_role}
use veritas_sync_next.Storage.Members.{target_role, peer_role, known_role}
use veritas_sync_next.Storage.Runtime.{idle, unpaired}

-- "one_way"
abbrev pub one_way_mode : Bytes
one_way_mode = b'o' ∷ b'n' ∷ b'e' ∷ b'_' ∷ b'w' ∷ b'a' ∷ b'y' ∷ []

-- The file system around the database file: `parents` is its canonical path with the paths above
-- it, and none when it cannot be resolved.
pub record Surroundings : Type 0 where
  pub is_directory : Bytes → Bool
  pub parents : Option (List Bytes)
  pub equivalent : Bytes → Bytes → Bool

abbrev pub not_above : Option (List Bytes) → (Bytes → Bool) → Result (Unit {0})
not_above none same = err (invalid_argument "cannot resolve database path")
not_above (some parents) same =
    forbid (any_of same parents) (invalid_argument "database path must be outside the task root")

abbrev pub outside : Surroundings → Bytes → Result (Unit {0})
outside around root =
    if around.is_directory root
    then not_above around.parents (λ parent. around.equivalent parent root)
    else ok tt

abbrev pub incompatible : Bytes → Bytes → Bool
incompatible mode role =
    (bytes_eq mode one_way_mode
      && not (bytes_eq role source_role)
      && not (bytes_eq role target_role))
    || (bytes_eq mode bidirectional_mode && not (bytes_eq role peer_role))

abbrev pub known_mode : Bytes → Bool
known_mode mode = bytes_eq mode one_way_mode || bytes_eq mode bidirectional_mode

-- The row that the trigger `task_runtime_after_task_insert` adds.
abbrev pub fresh_state : Bytes → TaskRuntimeState
fresh_state task_id = record {
  task_id = task_id;
  enabled = true;
  status = idle;
  dirty = true;
  last_scan_at_ms = none;
  last_error = none;
  network_status = unpaired;
  network_error = none;
}

unfoldable pub create_task : Surroundings → Database → TaskDefinition → Result Database
create_task around db t = do
  forbid (empty? t.task_id || empty? t.root_path)
      (invalid_argument "task id and root path are required")
  outside around t.root_path
  forbid (incompatible t.mode t.role) (invalid_argument "task mode and role are incompatible")
  forbid (not (known_mode t.mode && known_role t.role) || has_task db t.task_id)
      (runtime_error "insert task")
  ok (record db { tasks = t ∷ db.tasks; task_runtime = fresh_state t.task_id ∷ db.task_runtime })

unfoldable pub list_tasks : Database → List TaskDefinition
unfolding sort_by
list_tasks db = sort_by (λ a b. bytes_lt a.task_id b.task_id) db.tasks

-- DELETE FROM ... WHERE task_id=?
abbrev pub without {ℓ} : {A : Type ℓ} → (A → Bytes) → Bytes → List A → List A
without task_of task_id rows = keep_if (λ r. not (bytes_eq (task_of r) task_id)) rows

-- ON DELETE SET NULL
abbrev pub orphan : Bytes → Option Bytes → Option Bytes
orphan task_id none = none
orphan task_id (some named) = if bytes_eq named task_id then none else some named

abbrev pub orphan_event : Bytes → EngineEvent → EngineEvent
orphan_event task_id e = record e { task_id = orphan task_id e.task_id }

-- The ten statements, with the cascades of the last.
abbrev pub forget : Database → Bytes → Database
forget db task_id = record db {
  transfer_chunks =
      keep_if
        (λ c.
          not (any_of (λ t. bytes_eq t.task_id task_id && bytes_eq t.transfer_id c.0) db.transfers))
        db.transfer_chunks;
  transfers = without (λ t. t.task_id) task_id db.transfers;
  conflicts = without (λ c. c.task_id) task_id db.conflicts;
  ignore_policy_state = without (λ p. p.task_id) task_id db.ignore_policy_state;
  ignore_policy_revisions = without (λ r. r.task_id) task_id db.ignore_policy_revisions;
  version_lineage = without (λ l. l.task_id) task_id db.version_lineage;
  task_clocks = without (λ c. c.0) task_id db.task_clocks;
  file_records = without (λ r. r.task_id) task_id db.file_records;
  tasks = without (λ t. t.task_id) task_id db.tasks;
  task_runtime = without (λ s. s.task_id) task_id db.task_runtime;
  task_connections = without (λ c. c.task_id) task_id db.task_connections;
  task_members = without (λ m. m.task_id) task_id db.task_members;
  pending_ignore_policies = without (λ p. p.task_id) task_id db.pending_ignore_policies;
  engine_events = map (orphan_event task_id) db.engine_events;
}

unfoldable pub delete_task : Database → Bytes → Result Database
delete_task db task_id = do
  forbid (empty? task_id) (invalid_argument "task id is required")
  forbid (not (length (keep_if (λ t. bytes_eq t.task_id task_id) db.tasks) == 1))
      (invalid_argument "task does not exist")
  ok (forget db task_id)
