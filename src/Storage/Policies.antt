-- ===== src/Storage/Policies.antt =====
-- The revisions of ignore policies: RecordIgnorePolicyRevision, CurrentIgnorePolicyRevision and
-- ListIgnorePolicyRevisions of engine/storage/database.cpp.
pub mod Laws
use veritas_sync_next.Prelude.{
  ℕ, ◌+◌, ◌*◌, Bool, true, false, not, ◌||◌, ◌&&◌, Bytes, Result, ok, invalid_argument,
  runtime_error, List, [], ◌∷◌, Option, none, some, empty?, bytes_eq, ltb, ◌==◌, if◌then◌else◌,
  forbid, ◌>>◌, ◌>>=◌, max, length, sort_by, keep_if, find_if, take,
}
use veritas_sync_next.Storage.Tables.{IgnorePolicyRevision, IgnorePolicyPointer, Database, has_task}

-- "manual", "ai" and "undo"
abbrev pub manual : Bytes
manual = b'm' ∷ b'a' ∷ b'n' ∷ b'u' ∷ b'a' ∷ b'l' ∷ []

abbrev pub ai : Bytes
ai = b'a' ∷ b'i' ∷ []

abbrev pub undo_source : Bytes
undo_source = b'u' ∷ b'n' ∷ b'd' ∷ b'o' ∷ []

abbrev pub known_source : Bytes → Bool
known_source source = bytes_eq source manual || bytes_eq source ai || bytes_eq source undo_source

abbrev pub of_task : Bytes → IgnorePolicyRevision → Bool
of_task task r = bytes_eq r.task_id task

-- SELECT COALESCE(MAX(revision), 0) over the rows of a task.
unfoldable pub max_revision : List IgnorePolicyRevision → ℕ
max_revision [] = 0
max_revision (r ∷ rs) = max r.revision (max_revision rs)

-- INSERT INTO ignore_policy_state ... ON CONFLICT(task_id) DO UPDATE.
unfoldable pub point_to : IgnorePolicyPointer → List IgnorePolicyPointer → List IgnorePolicyPointer
point_to p [] = p ∷ []
point_to p (q ∷ qs) = if bytes_eq q.task_id p.task_id then p ∷ qs else q ∷ point_to p qs

abbrev pub invalid_revision : Bytes → Bytes → Bytes → Bytes → ℕ → Bool
invalid_revision task content hash source created_at_ms =
    empty? task
    || ltb (16 * 1024) (length content)
    || not (length hash == 64)
    || not (known_source source)
    || created_at_ms == 0

abbrev pub next_revision : Database → Bytes → Bytes → Bytes → Bytes → ℕ → IgnorePolicyRevision
next_revision db task content hash source created_at_ms = record {
  task_id = task;
  revision = max_revision (keep_if (of_task task) db.ignore_policy_revisions) + 1;
  content = content;
  content_hash = hash;
  source = source;
  created_at_ms = created_at_ms;
}

abbrev pub pointer_of : IgnorePolicyRevision → IgnorePolicyPointer
pointer_of r = record {
  task_id = r.task_id;
  revision = r.revision;
  content_hash = r.content_hash;
  updated_at_ms = r.created_at_ms;
}

abbrev pub with_revision : Database → IgnorePolicyRevision → Database
with_revision db r = record db {
  ignore_policy_revisions = r ∷ db.ignore_policy_revisions;
  ignore_policy_state = point_to (pointer_of r) db.ignore_policy_state;
}

unfoldable pub record_ignore_policy_revision :
    Database → Bytes → Bytes → Bytes → Bytes → ℕ → Result (IgnorePolicyRevision × Database)
unfolding max_revision point_to
record_ignore_policy_revision db task content hash source created_at_ms = do
  forbid (invalid_revision task content hash source created_at_ms)
      (invalid_argument "ignore policy revision is invalid")
  forbid (not (has_task db task)) (runtime_error "insert ignore policy revision")
  let r = next_revision db task content hash source created_at_ms
  ok (r, with_revision db r)

-- The JOIN of the current revision's number with its row.
abbrev pub joined :
    List IgnorePolicyRevision → Option IgnorePolicyPointer → Option IgnorePolicyRevision
joined rows none = none
joined rows (some p) = find_if (λ r. of_task p.task_id r && r.revision == p.revision) rows

abbrev pub pointer : Database → Bytes → Option IgnorePolicyPointer
pointer db task = find_if (λ p. bytes_eq p.task_id task) db.ignore_policy_state

unfoldable pub current_ignore_policy_revision :
    Database → Bytes → Result (Option IgnorePolicyRevision)
current_ignore_policy_revision db task = do
  forbid (empty? task) (invalid_argument "ignore policy task is required")
  ok (joined db.ignore_policy_revisions (pointer db task))

abbrev pub newer : IgnorePolicyRevision → IgnorePolicyRevision → Bool
newer a b = ltb b.revision a.revision

unfoldable pub list_ignore_policy_revisions :
    Database → Bytes → ℕ → Result (List IgnorePolicyRevision)
unfolding sort_by
list_ignore_policy_revisions db task limit = do
  forbid (empty? task || limit == 0 || ltb 200 limit)
      (invalid_argument "ignore policy history request is invalid")
  ok (take limit (sort_by newer (keep_if (of_task task) db.ignore_policy_revisions)))
