-- ===== src/Storage/Ignore/Policy.antt =====
-- engine/storage/ignore_policy.cpp: the .veritasignore file of a task and the history of its
-- revisions. The file is its bytes, `none` without one; `failure` is what the file system throws when
-- the file is written. `blake3` stands for common::Blake3, which calls the BLAKE3 library.
pub mod Checks
pub mod Laws
pub mod Replace
pub mod Undo
use veritas_sync_next.Prelude.{
  ℕ, Bool, true, false, not, ◌||◌, Option, none, some, List, [], ◌∷◌, Bytes, Result, ok, err, Error,
  invalid_argument, forbid, ◌>>=◌, ◌>>◌, empty?, bytes_eq, ltb, ◌==◌, if◌then◌else◌, length,
  get_elem?, to_hex,
}
use veritas_sync_next.Storage.Tables.{IgnorePolicyRevision, Database}
use veritas_sync_next.Storage.Records.{has_value}
use veritas_sync_next.Storage.Tasks.{find_task}
use veritas_sync_next.Storage.Policies.{
  record_ignore_policy_revision, current_ignore_policy_revision, list_ignore_policy_revisions,
  manual, known_source, undo_source,
}
use veritas_sync_next.Storage.Ignore.Validate.{validate}

pub record IgnorePolicyState : Type 0 where
  pub revision : ℕ
  pub rules : Bytes
  pub content_hash : Bytes
  pub source : Bytes
  pub created_at_ms : ℕ

abbrev pub state_of : IgnorePolicyRevision → IgnorePolicyState
state_of r = record {
  revision = r.revision;
  rules = r.content;
  content_hash = r.content_hash;
  source = r.source;
  created_at_ms = r.created_at_ms;
}

unfoldable pub read_rules : Option Bytes → Result Bytes
read_rules none = ok []
read_rules (some rules) = do validate rules; ok rules

-- SafeFileWriter::WriteAtomically on the rules file.
abbrev pub write_rules : Option Error → Bytes → Result (Option Bytes)
write_rules none rules = ok (some rules)
write_rules (some e) rules = err e

-- history[1], which the check in front of it makes sure of
abbrev pub content_of : Option IgnorePolicyRevision → Bytes
content_of none = []
content_of (some r) = r.content

module _ (blake3 : Bytes → Bytes) where
  unfoldable pub hash_rules : Bytes → Bytes
  hash_rules rules = to_hex (blake3 rules)

  -- The current revision, or a new one where the file says something else.
  unfoldable pub import_rules :
      Database
      → Bytes
      → Bytes
      → ℕ
      → Option IgnorePolicyRevision
      → Result (IgnorePolicyRevision × Database)
  unfolding hash_rules
  import_rules db task rules now none =
      record_ignore_policy_revision db task rules (hash_rules rules) manual now
  import_rules db task rules now (some current) =
      let imported = record_ignore_policy_revision db task rules (hash_rules rules) manual now in
      if not (bytes_eq current.content_hash (hash_rules rules))
        || not (bytes_eq current.content rules)
      then imported
      else ok (current, db)

  unfoldable pub synchronize :
      Database → Bytes → Option Bytes → ℕ → Result (IgnorePolicyState × Database)
  unfolding import_rules
  synchronize db task disk now = do
    forbid (empty? task || now == 0)
        (invalid_argument "ignore policy identity and timestamp are required")
    found ← find_task db task
    forbid (not (has_value found)) (invalid_argument "ignore policy task does not exist")
    rules ← read_rules disk
    current ← current_ignore_policy_revision db task
    (r, next) ← import_rules db task rules now current
    ok (state_of r, next)

  -- What Apply does with rules that differ from the current ones.
  unfoldable pub replace_rules :
      Database
      → Bytes
      → Bytes
      → Bytes
      → ℕ
      → Option Error
      → Result (IgnorePolicyState × Database × Option Bytes)
  unfolding hash_rules
  replace_rules db task rules source now failure = do
    disk ← write_rules failure rules
    (r, next) ← record_ignore_policy_revision db task rules (hash_rules rules) source now
    ok (state_of r, next, disk)

  unfoldable pub apply :
      Database
      → Bytes
      → Option Bytes
      → Bytes
      → Bytes
      → Bytes
      → ℕ
      → Option Error
      → Result (IgnorePolicyState × Database × Option Bytes)
  unfolding synchronize replace_rules
  apply db task disk expected rules source now failure = do
    validate rules
    forbid (not (known_source source)) (invalid_argument "ignore policy source is invalid")
    (current, synced) ← synchronize db task disk now
    forbid (not (bytes_eq expected current.content_hash))
        (invalid_argument "ignore policy changed; refresh before applying")
    if bytes_eq rules current.rules
        then ok (current, synced, disk)
        else replace_rules synced task rules source now failure

  unfoldable pub undo :
      Database
      → Bytes
      → Option Bytes
      → Bytes
      → ℕ
      → Option Error
      → Result (IgnorePolicyState × Database × Option Bytes)
  unfolding synchronize apply
  undo db task disk expected now failure = do
    (current, synced) ← synchronize db task disk now
    forbid (not (bytes_eq expected current.content_hash))
        (invalid_argument "ignore policy changed; refresh before undoing")
    history ← list_ignore_policy_revisions synced task 2
    forbid (ltb (length history) 2) (invalid_argument "ignore policy has no previous revision")
    apply synced task disk current.content_hash (content_of (get_elem? history 1)) undo_source now
        failure
