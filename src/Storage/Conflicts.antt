-- ===== src/Storage/Conflicts.antt =====
-- Conflicts and events: RecordConflict, both ListConflicts, UpdateConflictState,
-- RecordEngineEvent and ListEngineEvents of engine/storage/database.cpp.
pub mod Laws
use veritas_sync_next.Prelude.{
  ℕ, ◌+◌, Bool, true, false, not, ◌||◌, ◌&&◌, Bytes, Result, ok, invalid_argument, runtime_error,
  List, [], ◌∷◌, Option, none, some, empty?, bytes_eq, bytes_lt, ltb, ◌==◌, if◌then◌else◌, forbid,
  ◌>>◌, length, sort_by, keep_if, any_of, take,
}
use veritas_sync_next.Storage.Tables.{ConflictRecord, EngineEvent, Database, has_task}
use veritas_sync_next.Storage.Paths.{validate_relative_path}

-- "unresolved"
abbrev pub unresolved : Bytes
unresolved = b'u' ∷ b'n' ∷ b'r' ∷ b'e' ∷ b's' ∷ b'o' ∷ b'l' ∷ b'v' ∷ b'e' ∷ b'd' ∷ []

-- "resolved"
abbrev pub resolved : Bytes
resolved = b'r' ∷ b'e' ∷ b's' ∷ b'o' ∷ b'l' ∷ b'v' ∷ b'e' ∷ b'd' ∷ []

-- "info"
abbrev pub info : Bytes
info = b'i' ∷ b'n' ∷ b'f' ∷ b'o' ∷ []

-- "warning"
abbrev pub warning : Bytes
warning = b'w' ∷ b'a' ∷ b'r' ∷ b'n' ∷ b'i' ∷ b'n' ∷ b'g' ∷ []

-- "error"
abbrev pub error_level : Bytes
error_level = b'e' ∷ b'r' ∷ b'r' ∷ b'o' ∷ b'r' ∷ []

abbrev pub has_conflict_id : Bytes → ConflictRecord → Bool
has_conflict_id conflict_id c = bytes_eq c.conflict_id conflict_id

abbrev pub in_conflict : Bytes → ConflictRecord → Bool
in_conflict task_id c = bytes_eq c.task_id task_id

-- ORDER BY created_at_ms, conflict_id
abbrev pub conflict_before : ConflictRecord → ConflictRecord → Bool
conflict_before a b =
    ltb a.created_at_ms b.created_at_ms
    || (a.created_at_ms == b.created_at_ms && bytes_lt a.conflict_id b.conflict_id)

unfoldable pub record_conflict : Database → ConflictRecord → Result Database
record_conflict db c = do
  forbid
      (empty? c.conflict_id
        || empty? c.task_id
        || empty? c.original_path
        || empty? c.winning_version_id
        || empty? c.conflict_path
        || empty? c.state
        || c.created_at_ms == 0)
      (invalid_argument "conflict record is invalid")
  validate_relative_path c.original_path
  validate_relative_path c.conflict_path
  forbid (any_of (has_conflict_id c.conflict_id) db.conflicts || not (has_task db c.task_id))
      (runtime_error "insert conflict")
  ok (record db { conflicts = c ∷ db.conflicts })

unfoldable pub list_conflicts : Database → Bytes → Result (List ConflictRecord)
unfolding sort_by
list_conflicts db task_id = do
  forbid (empty? task_id) (invalid_argument "conflict task id is required")
  ok (sort_by conflict_before (keep_if (in_conflict task_id) db.conflicts))

unfoldable pub list_all_conflicts : Database → List ConflictRecord
unfolding sort_by
list_all_conflicts db = sort_by conflict_before db.conflicts

-- UPDATE conflicts SET state=? WHERE conflict_id=?
unfoldable pub mark : Bytes → Bytes → List ConflictRecord → List ConflictRecord
mark conflict_id state [] = []
mark conflict_id state (c ∷ cs) =
    (if has_conflict_id conflict_id c then record c { state = state } else c)
    ∷ mark conflict_id state cs

unfoldable pub update_conflict_state : Database → Bytes → Bytes → Result Database
unfolding mark
update_conflict_state db conflict_id state = do
  forbid (empty? conflict_id || not (bytes_eq state unresolved || bytes_eq state resolved))
      (invalid_argument "conflict state update is invalid")
  forbid (not (length (keep_if (has_conflict_id conflict_id) db.conflicts) == 1))
      (invalid_argument "conflict does not exist")
  ok (record db { conflicts = mark conflict_id state db.conflicts })

abbrev pub names_nothing : Option Bytes → Bool
names_nothing none = false
names_nothing (some task_id) = empty? task_id

abbrev pub known_level : Bytes → Bool
known_level level = bytes_eq level info || bytes_eq level warning || bytes_eq level error_level

-- The foreign key of an event, which may be NULL.
abbrev pub refers : Database → Option Bytes → Bool
refers db none = true
refers db (some task_id) = has_task db task_id

-- The event's own id is not read: the table gives the next one.
unfoldable pub record_engine_event : Database → EngineEvent → Result Database
record_engine_event db e = do
  forbid
      (names_nothing e.task_id
        || not (known_level e.level)
        || empty? e.message
        || e.created_at_ms == 0)
      (invalid_argument "engine event is invalid")
  forbid (not (refers db e.task_id)) (runtime_error "insert engine event")
  ok (record db {
    engine_events = record e { event_id = db.last_event_id + 1 } ∷ db.engine_events;
    last_event_id = db.last_event_id + 1;
  })

unfoldable pub list_engine_events : Database → ℕ → Result (List EngineEvent)
unfolding sort_by
list_engine_events db limit = do
  forbid (limit == 0 || ltb 1000 limit) (invalid_argument "event list limit is invalid")
  ok (take limit (sort_by (λ a b. ltb b.event_id a.event_id) db.engine_events))
