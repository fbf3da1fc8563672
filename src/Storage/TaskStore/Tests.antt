-- ===== src/Storage/TaskStore/Tests.antt =====
-- Runs of the operations on tasks, and the theorems about them at concrete inputs.
use veritas_sync_next.Prelude.{
  insert_by, sort_by, ◌≡◌, refl, true, false, Bytes, ok, [], ◌∷◌, some, bytes_eq,
}
use veritas_sync_next.Storage.Tables.{
  has_task, TaskDefinition, TaskRuntimeState, Database, no_data, ConflictRecord,
}
use veritas_sync_next.Storage.Tasks.{source_role}
use veritas_sync_next.Storage.Runtime.{runtime_state, set_task_enabled, with_states, enabled_change}
use veritas_sync_next.Storage.Conflicts.{
  list_conflicts, update_conflict_state, resolved, unresolved, mark,
}
use veritas_sync_next.Storage.Conflicts.Laws.{list_conflicts-update_conflict_state}
use veritas_sync_next.Storage.TaskStore.{
  Surroundings, create_task, delete_task, forget, one_way_mode, fresh_state,
}
use veritas_sync_next.Storage.TaskStore.Laws.{Agree, Unknown, delete_task-Unknown}
use veritas_sync_next.Storage.TaskStore.Paired.{
  empty_database, called, creates, enables, runtime_state-Reached,
}

abbrev first_id : Bytes
first_id = b't' ∷ []

abbrev second_id : Bytes
second_id = b'u' ∷ []

abbrev source_task : Bytes → TaskDefinition
source_task task_id = record {
  task_id = task_id;
  mode = one_way_mode;
  role = source_role;
  root_path = b'/' ∷ [];
}

-- A database in /d, for roots that are elsewhere.
abbrev around : Surroundings
around = record {
  is_directory = λ path. true;
  parents = some ((b'/' ∷ b'd' ∷ []) ∷ []);
  equivalent = bytes_eq;
}

abbrev one_task : Database
one_task = record no_data {
  tasks = source_task first_id ∷ [];
  task_runtime = fresh_state first_id ∷ [];
}

abbrev a_conflict : ConflictRecord
a_conflict = record {
  conflict_id = b'c' ∷ [];
  task_id = first_id;
  original_path = b'a' ∷ [];
  winning_version_id = b'v' ∷ [];
  conflict_path = b'b' ∷ [];
  state = unresolved;
  created_at_ms = 7;
}

abbrev two_tasks : Database
two_tasks = record one_task {
  tasks = source_task second_id ∷ source_task first_id ∷ [];
  task_runtime = fresh_state second_id ∷ fresh_state first_id ∷ [];
  conflicts = a_conflict ∷ [];
}

created : create_task around no_data (source_task first_id) ≡ ok one_task
unfolding create_task bytes_eq has_task
created = refl

stopped :
    set_task_enabled one_task first_id false
    ≡ ok (with_states one_task first_id (enabled_change false))
unfolding set_task_enabled bytes_eq
stopped = refl

runtime_state-Reached_example :
    (s : TaskRuntimeState) × (runtime_state
        (with_states one_task first_id (enabled_change false))
        first_id
      ≡ ok s)
    × (s.task_id ≡ first_id)
unfolding has_task bytes_eq
runtime_state-Reached_example =
    runtime_state-Reached (with_states one_task first_id (enabled_change false)) first_id
      (called (called empty_database (creates around (source_task first_id) created))
        (enables first_id false stopped))
      refl refl

delete_task-Unknown_example :
    Unknown (forget two_tasks first_id) first_id
    × ((task_id : Bytes)
        → bytes_eq first_id task_id ≡ false
        → Agree two_tasks (forget two_tasks first_id) task_id)
unfolding delete_task bytes_eq
delete_task-Unknown_example =
    delete_task-Unknown two_tasks (forget two_tasks first_id) first_id refl

abbrev another_conflict : ConflictRecord
another_conflict = record a_conflict { conflict_id = b'd' ∷ []; created_at_ms = 3 }

abbrev two_conflicts : Database
two_conflicts = record two_tasks { conflicts = a_conflict ∷ another_conflict ∷ [] }

abbrev one_resolved : Database
one_resolved = record two_tasks {
  conflicts = record a_conflict { state = resolved } ∷ another_conflict ∷ [];
}

list_conflicts-update_conflict_state_example :
    list_conflicts one_resolved first_id
    ≡ ok (another_conflict ∷ record a_conflict { state = resolved } ∷ [])
unfolding update_conflict_state list_conflicts sort_by insert_by mark bytes_eq
list_conflicts-update_conflict_state_example =
    list_conflicts-update_conflict_state two_conflicts one_resolved (b'c' ∷ []) resolved first_id
      refl
