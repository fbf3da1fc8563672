-- ===== src/Storage/TaskStore/Paired.antt =====
-- The tables `tasks` and `task_runtime` of engine/storage/database.cpp over the life of a database:
-- CreateTask with its trigger, DeleteTask with its cascade and the three updates.
use veritas_sync_next.Prelude.{
  ℕ, ◌≡◌, refl, sym, ap, ◌∙◌, Bool, true, false, Bytes, ok, List, [], ◌∷◌, map, Option, some, ◌||◌,
  bytes_eq, bytes_eq→eq, empty?, Bool-cases, inl, inr, any_of, find_if, find_if_hit, find_if_miss,
  find_if-holds, subst, arith,
}
use veritas_sync_next.Storage.Tables.{TaskDefinition, TaskRuntimeState, Database, no_data, has_task}
use veritas_sync_next.Storage.Runtime.{
  runtime_change, network_change, enabled_change, with_states, runtime_state,
  update_task_network_state, set_task_enabled, update_task_runtime, update_state, has_state_id,
}
use veritas_sync_next.Storage.TaskStore.{
  without, Surroundings, create_task, delete_task, fresh_state,
}
use veritas_sync_next.Storage.TaskStore.Rows.{map-without}
use veritas_sync_next.Storage.TaskStore.Laws.{delete_task_ok}

abbrev ids : List TaskDefinition → List Bytes
ids rows = map (λ t. t.task_id) rows

abbrev state_ids : List TaskRuntimeState → List Bytes
state_ids rows = map (λ s. s.task_id) rows

-- One call; the last constructor is any call that leaves both tables as they are.
pub data Step : Database → Database → Type 0 where
  creates :
      {db next : Database} (around : Surroundings) (t : TaskDefinition)
      → create_task around db t ≡ ok next
      → Step db next
  deletes : {db next : Database} (task_id : Bytes) → delete_task db task_id ≡ ok next → Step db next
  enables :
      {db next : Database} (task_id : Bytes) (enabled : Bool)
      → set_task_enabled db task_id enabled ≡ ok next
      → Step db next
  updates_network :
      {db next : Database} (task_id network_status : Bytes) (network_error : Option Bytes)
      → update_task_network_state db task_id network_status network_error ≡ ok next
      → Step db next
  runs :
      {db next : Database} (task_id status : Bytes) (dirty : Bool) (scan : Option ℕ)
      (problem : Option Bytes)
      → update_task_runtime db task_id status dirty scan problem ≡ ok next
      → Step db next
  elsewhere :
      {db next : Database}
      → next.tasks ≡ db.tasks
      → next.task_runtime ≡ db.task_runtime
      → Step db next

pub data Reached : Database → Type 0 where
  empty_database : Reached no_data
  called : {db next : Database} → Reached db → Step db next → Reached next

-- The tables name the same tasks in the same order.
abbrev Paired : Database → Type 0
Paired db = ids db.tasks ≡ state_ids db.task_runtime

state_ids-update_state :
    (task_id : Bytes) (change : TaskRuntimeState → TaskRuntimeState)
    → ((s : TaskRuntimeState) → (change s).task_id ≡ s.task_id)
    → (rows : List TaskRuntimeState) → state_ids (update_state task_id change rows) ≡ state_ids rows
state_ids-update_state task_id change keeps [] = refl
state_ids-update_state task_id change keeps (s ∷ rows) =
    elim (Bool-cases (has_state_id task_id s)) [
      | inl h ↦ rw (h, keeps s, state_ids-update_state task_id change keeps rows) refl
      | inr h ↦ rw (h, state_ids-update_state task_id change keeps rows) refl
    ]

with_states-Paired :
    (db : Database) (task_id : Bytes) (change : TaskRuntimeState → TaskRuntimeState)
    → ((s : TaskRuntimeState) → (change s).task_id ≡ s.task_id)
    → Paired db
    → Paired (with_states db task_id change)
with_states-Paired db task_id change keeps paired =
    paired ∙ sym (state_ids-update_state task_id change keeps db.task_runtime)

create_task_ok :
    (around : Surroundings) (db next : Database) (t : TaskDefinition)
    → create_task around db t ≡ ok next
    → next
      ≡ record db { tasks = t ∷ db.tasks; task_runtime = fresh_state t.task_id ∷ db.task_runtime }
unfolding create_task
create_task_ok around db next t h = ground (arith, h)

Paired-delete_task :
    (db next : Database) (gone : Bytes) → delete_task db gone ≡ ok next → Paired db → Paired next
Paired-delete_task db next gone h paired =
    subst (λ n. Paired n) (sym (delete_task_ok db next gone h).1)
      (map-without (λ t. t.task_id) gone db.tasks
        ∙ ap (without (λ k. k) gone) paired
        ∙ sym (map-without (λ s. s.task_id) gone db.task_runtime))

Paired-Step : (db next : Database) → Step db next → Paired db → Paired next
unfolding set_task_enabled update_task_network_state update_task_runtime
Paired-Step db next (creates around t h) paired =
    subst (λ n. Paired n) (sym (create_task_ok around db next t h)) (ap (◌∷◌ t.task_id) paired)
Paired-Step db next (deletes task_id h) paired = Paired-delete_task db next task_id h paired
Paired-Step db next (enables task_id enabled h) paired =
    let changed : next ≡ with_states db task_id (enabled_change enabled) = ground (arith, h) in
    subst (λ n. Paired n) (sym changed) (with_states-Paired db task_id _ (λ s. refl) paired)
Paired-Step db next (updates_network task_id network_status network_error h) paired =
    let changed : next ≡ with_states db task_id (network_change network_status network_error) =
      ground (arith, h) in
    subst (λ n. Paired n) (sym changed) (with_states-Paired db task_id _ (λ s. refl) paired)
Paired-Step db next (runs task_id status dirty scan problem h) paired =
    let changed : next ≡ with_states db task_id (runtime_change status dirty scan problem) =
      ground (arith, h) in
    subst (λ n. Paired n) (sym changed) (with_states-Paired db task_id _ (λ s. refl) paired)
Paired-Step db next (elsewhere same rows) paired = ap ids same ∙ paired ∙ sym (ap state_ids rows)

Paired-Reached : (db : Database) → Reached db → Paired db
Paired-Reached db empty_database = refl
Paired-Reached db (called {db = last} before step) =
    Paired-Step last db step (Paired-Reached last before)

any_of-ids :
    (task_id : Bytes) (tasks : List TaskDefinition)
    → any_of (λ t. bytes_eq t.task_id task_id) tasks ≡ any_of (λ k. bytes_eq k task_id) (ids tasks)
any_of-ids task_id [] = refl
any_of-ids task_id (t ∷ tasks) = ap (◌||◌ (bytes_eq t.task_id task_id)) (any_of-ids task_id tasks)

find-state_ids :
    (task_id : Bytes) (rows : List TaskRuntimeState)
    → any_of (λ k. bytes_eq k task_id) (state_ids rows) ≡ true
    → (s : TaskRuntimeState) × (find_if (has_state_id task_id) rows ≡ some s)
find-state_ids task_id [] h = absurd (cc h)
find-state_ids task_id (s ∷ rows) h = elim (Bool-cases (has_state_id task_id s)) [
  | inl hit ↦ (s, find_if_hit (has_state_id task_id) s rows hit)
  | inr miss ↦
      let (found, e) = find-state_ids task_id rows (ground (arith, h, miss)) in
      (found, find_if_miss (has_state_id task_id) s rows miss ∙ e)
]

-- In every database that these calls and calls on other tables lead to from an empty one, each task
-- of the table `tasks` has a runtime state of its own: for a task that is there, with a non-empty
-- id, RuntimeState answers and its row names the task.
pub runtime_state-Reached :
    (db : Database) (task_id : Bytes)
    → Reached db
    → has_task db task_id ≡ true
    → empty? task_id ≡ false
    → (s : TaskRuntimeState) × (runtime_state db task_id ≡ ok s) × (s.task_id ≡ task_id)
unfolding runtime_state has_task
runtime_state-Reached db task_id reached present named =
    let (s, e) = find-state_ids task_id db.task_runtime (
      sym (ap (any_of (λ k. bytes_eq k task_id)) (Paired-Reached db reached))
      ∙ sym (any_of-ids task_id db.tasks)
      ∙ present) in
    (
      s,
      rw (named, e) refl,
      bytes_eq→eq _ _ (find_if-holds (has_state_id task_id) db.task_runtime s e),
    )
