-- ===== src/Storage/Tasks.antt =====
-- FindTask of engine/storage/database.cpp, and engine/sync/task_policy.cpp.
use veritas_sync_next.Prelude.{
  Bool, ◌||◌, Bytes, Result, ok, invalid_argument, [], ◌∷◌, Option, none, some, empty?, bytes_eq,
  forbid, ◌>>◌, find_if, false,
}
use veritas_sync_next.Storage.Tables.{TaskDefinition, Database}

unfoldable pub find_task : Database → Bytes → Result (Option TaskDefinition)
find_task db task_id = do
  forbid (empty? task_id) (invalid_argument "task id is required")
  ok (find_if (λ t. bytes_eq t.task_id task_id) db.tasks)

-- "bidirectional"
abbrev pub bidirectional_mode : Bytes
bidirectional_mode =
    b'b' ∷ b'i' ∷ b'd' ∷ b'i' ∷ b'r' ∷ b'e' ∷ b'c' ∷ b't' ∷ b'i' ∷ b'o' ∷ b'n' ∷ b'a' ∷ b'l' ∷ []

-- "source"
abbrev pub source_role : Bytes
source_role = b's' ∷ b'o' ∷ b'u' ∷ b'r' ∷ b'c' ∷ b'e' ∷ []

abbrev pub is_bidirectional : Option TaskDefinition → Bool
is_bidirectional none = false
is_bidirectional (some t) = bytes_eq t.mode bidirectional_mode

unfoldable pub can_apply_local_watcher_change : TaskDefinition → Bool
can_apply_local_watcher_change t = bytes_eq t.mode bidirectional_mode || bytes_eq t.role source_role

unfoldable pub can_scan_local_changes : TaskDefinition → Bool
can_scan_local_changes t = can_apply_local_watcher_change t
