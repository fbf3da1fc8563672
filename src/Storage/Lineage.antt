-- ===== src/Storage/Lineage.antt =====
-- The version graph and the Lamport clocks: RecordVersionLineage, FindVersionLineage,
-- ListVersionLineage, IsVersionAncestor and AdvanceLogicalClock of engine/storage/database.cpp.
pub mod Laws
use veritas_sync_next.Prelude.{
  overflow_error, ℕ, zero, suc, ◌+◌, Bool, true, false, not, ◌&&◌, ◌||◌, Bytes, Result, ok, err,
  invalid_argument, runtime_error, List, [], ◌∷◌, ◌++◌, Option, none, some, empty?, bytes_eq,
  bytes_lt, if◌then◌else◌, forbid, ◌>>=◌, ◌>>◌, sort_by, keep_if, find_if, max, ◌==◌, ltb, lookup,
  assign, bytes_key,
}
use veritas_sync_next.Storage.Tables.{VersionLineage, Database, has_task}

abbrev pub lineage_key : Bytes → Bytes → VersionLineage → Bool
lineage_key task_id version l = bytes_eq l.task_id task_id && bytes_eq l.version_id version

unfoldable pub find_version_lineage : Database → Bytes → Bytes → Result (Option VersionLineage)
find_version_lineage db task_id version = do
  forbid (empty? task_id || empty? version) (invalid_argument "version lineage lookup is invalid")
  ok (find_if (lineage_key task_id version) db.version_lineage)

-- A parent that is there is not empty and not the version itself.
abbrev pub bad_parent : Bytes → Option Bytes → Bool
bad_parent version none = false
bad_parent version (some p) = empty? p || bytes_eq p version

-- operator== of two optional strings.
abbrev pub same_parent : Option Bytes → Option Bytes → Bool
same_parent none none = true
same_parent none (some q) = false
same_parent (some p) none = false
same_parent (some p) (some q) = bytes_eq p q

-- What is done with a version, as it is known already or not.
unfoldable pub add_lineage : Database → VersionLineage → Option VersionLineage → Result Database
add_lineage db l (some known) =
    if not (same_parent known.parent_version_id l.parent_version_id)
    then err (invalid_argument "version lineage parent is immutable")
    else ok db
add_lineage db l none = do
  forbid (not (has_task db l.task_id)) (runtime_error "insert version lineage")
  ok (record db { version_lineage = db.version_lineage ++ l ∷ [] })

unfoldable pub record_version_lineage : Database → VersionLineage → Result Database
record_version_lineage db l = do
  forbid (empty? l.task_id || empty? l.version_id || bad_parent l.version_id l.parent_version_id)
      (invalid_argument "version lineage is invalid")
  known ← find_version_lineage db l.task_id l.version_id
  add_lineage db l known

abbrev pub version_less : VersionLineage → VersionLineage → Bool
version_less a b = bytes_lt a.version_id b.version_id

unfoldable pub list_version_lineage : Database → Bytes → Result (List VersionLineage)
list_version_lineage db task_id = do
  forbid (empty? task_id) (invalid_argument "version lineage task id is required")
  ok (sort_by version_less (keep_if (λ l. bytes_eq l.task_id task_id) db.version_lineage))

-- The version that stands above `version`, if one is recorded.
unfoldable pub parent_of : Option VersionLineage → Option Bytes
parent_of none = none
parent_of (some l) = l.parent_version_id

-- The climb from `current`, with `depth` steps left.
unfoldable pub climb : Database → Bytes → Bytes → ℕ → Bytes → Result Bool
climb db task_id ancestor zero current = err (runtime_error "version ancestry depth exceeds limit")
climb db task_id ancestor (suc depth) current =
    if bytes_eq current ancestor
    then ok true
    else (find_version_lineage db task_id current >>= λ found. elim (parent_of found) [
      | none ↦ ok false
      | some p ↦ climb db task_id ancestor depth p
    ])

abbrev pub max_depth : ℕ
max_depth = 100000

unfoldable pub is_version_ancestor : Database → Bytes → Bytes → Bytes → Result Bool
is_version_ancestor db task_id ancestor descendant = do
  forbid (empty? task_id || empty? ancestor || empty? descendant)
      (invalid_argument "version ancestry lookup is invalid")
  climb db task_id ancestor max_depth descendant

abbrev pub int64_max : ℕ
int64_max = 9223372036854775807

-- The clock of a task, 0 where it has none yet.
unfoldable pub clock_of : Database → Bytes → ℕ
clock_of db task_id = elim (lookup task_id db.task_clocks) [ some c ↦ c | none ↦ 0 ]

unfoldable pub advance_logical_clock : Database → Bytes → ℕ → Result (ℕ × Database)
advance_logical_clock db task_id observed = do
  forbid (empty? task_id || ltb int64_max observed)
      (invalid_argument "logical clock arguments are invalid")
  let base = max (clock_of db task_id) observed
  forbid (base == int64_max) (overflow_error "logical clock overflow")
  forbid (not (has_task db task_id)) (runtime_error "update logical clock")
  ok (base + 1, record db { task_clocks = assign task_id (base + 1) db.task_clocks })
