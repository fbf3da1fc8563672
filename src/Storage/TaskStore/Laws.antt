-- ===== src/Storage/TaskStore/Laws.antt =====
-- DeleteTask of engine/storage/database.cpp against the lookups by task id.
use veritas_sync_next.Prelude.{
  sort_by, ◌≡◌, refl, sym, subst, false, Bytes, ok, err, invalid_argument, [], none, bytes_eq,
  empty?, arith,
}
use veritas_sync_next.Storage.Tables.{Database}
use veritas_sync_next.Storage.Tasks.{find_task}
use veritas_sync_next.Storage.Runtime.{runtime_state}
use veritas_sync_next.Storage.Members.{
  find_task_connection, list_task_members, find_pending_ignore_policy,
}
use veritas_sync_next.Storage.Conflicts.{list_conflicts}
use veritas_sync_next.Storage.Records.{list_file_records}
use veritas_sync_next.Storage.Lineage.{list_version_lineage}
use veritas_sync_next.Storage.TaskStore.{delete_task, forget}
use veritas_sync_next.Storage.TaskStore.Rows.{
  keep-without_self, find-without_self, keep-without_other, find-without_other,
}

-- The lookups of two databases agree on a task.
unfoldable pub Agree : Database → Database → Bytes → Type 0
Agree db next task_id =
    (find_task next task_id ≡ find_task db task_id)
    × (runtime_state next task_id ≡ runtime_state db task_id)
    × (find_task_connection next task_id ≡ find_task_connection db task_id)
    × (list_task_members next task_id ≡ list_task_members db task_id)
    × (find_pending_ignore_policy next task_id ≡ find_pending_ignore_policy db task_id)
    × (list_conflicts next task_id ≡ list_conflicts db task_id)
    × (list_file_records next task_id ≡ list_file_records db task_id)
    × (list_version_lineage next task_id ≡ list_version_lineage db task_id)

-- No lookup finds anything of a task.
unfoldable pub Unknown : Database → Bytes → Type 0
Unknown db task_id =
    (find_task db task_id ≡ ok none)
    × (runtime_state db task_id ≡ err (invalid_argument "task does not exist"))
    × (find_task_connection db task_id ≡ ok none)
    × (list_task_members db task_id ≡ ok [])
    × (find_pending_ignore_policy db task_id ≡ none)
    × (list_conflicts db task_id ≡ ok [])
    × (list_file_records db task_id ≡ ok [])
    × (list_version_lineage db task_id ≡ ok [])

pub delete_task_ok :
    (db next : Database) (task_id : Bytes)
    → delete_task db task_id ≡ ok next
    → (empty? task_id ≡ false) × (next ≡ forget db task_id)
unfolding delete_task
delete_task_ok db next task_id h = ground (arith, h)

Unknown-forget :
    (db : Database) (task_id : Bytes) → empty? task_id ≡ false → Unknown (forget db task_id) task_id
unfolding Unknown find_task runtime_state find_task_connection list_task_members
    find_pending_ignore_policy list_conflicts list_file_records list_version_lineage sort_by
Unknown-forget db task_id named = (
  rw (named, find-without_self (λ t. t.task_id) task_id db.tasks) refl,
  rw (named, find-without_self (λ s. s.task_id) task_id db.task_runtime) refl,
  rw (named, find-without_self (λ c. c.task_id) task_id db.task_connections) refl,
  rw (named, keep-without_self (λ m. m.task_id) task_id db.task_members) refl,
  find-without_self (λ p. p.task_id) task_id db.pending_ignore_policies,
  rw (named, keep-without_self (λ c. c.task_id) task_id db.conflicts) refl,
  rw (named, keep-without_self (λ r. r.task_id) task_id db.file_records) refl,
  rw (named, keep-without_self (λ l. l.task_id) task_id db.version_lineage) refl,
)

Agree-forget :
    (db : Database) (gone task_id : Bytes)
    → bytes_eq gone task_id ≡ false
    → Agree db (forget db gone) task_id
unfolding Agree find_task runtime_state find_task_connection list_task_members
    find_pending_ignore_policy list_conflicts list_file_records list_version_lineage sort_by
Agree-forget db gone task_id other = (
  rw (find-without_other (λ t. t.task_id) gone task_id other db.tasks) refl,
  rw (find-without_other (λ s. s.task_id) gone task_id other db.task_runtime) refl,
  rw (find-without_other (λ c. c.task_id) gone task_id other db.task_connections) refl,
  rw (keep-without_other (λ m. m.task_id) gone task_id other db.task_members) refl,
  find-without_other (λ p. p.task_id) gone task_id other db.pending_ignore_policies,
  rw (keep-without_other (λ c. c.task_id) gone task_id other db.conflicts) refl,
  rw (keep-without_other (λ r. r.task_id) gone task_id other db.file_records) refl,
  rw (keep-without_other (λ l. l.task_id) gone task_id other db.version_lineage) refl,
)

-- After a deletion that answers, no lookup finds anything of the task: neither the task nor a
-- runtime state, a connection, members, a policy negotiation, conflicts, file records or versions;
-- and the same lookups for any other task answer what they answered before.
pub delete_task-Unknown :
    (db next : Database) (gone : Bytes)
    → delete_task db gone ≡ ok next
    → Unknown next gone
      × ((task_id : Bytes) → bytes_eq gone task_id ≡ false → Agree db next task_id)
delete_task-Unknown db next gone h =
    let (named, same) = delete_task_ok db next gone h in
    (
      subst (λ n. Unknown n gone) (sym same) (Unknown-forget db gone named),
      λ task_id other.
          subst (λ n. Agree db n task_id) (sym same) (Agree-forget db gone task_id other),
    )
