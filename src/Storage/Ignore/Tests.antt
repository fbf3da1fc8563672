-- ===== src/Storage/Ignore/Tests.antt =====
-- Rules files and paths: the claims of the ignore rules at concrete inputs, and runs.
use veritas_sync_next.Prelude.{
  Bytes, to_hex, ◌≤◌, ◌≡◌, refl, true, false, ok, err, some, none, List, [], ◌∷◌, Bytes, ◌>>=◌,
  length, replicate, bytes_eq, invalid_line,
}
use veritas_sync_next.Storage.Paths.{split}
use veritas_sync_next.Storage.Tables.{Database, no_data, IgnorePolicyRevision, has_task}
use veritas_sync_next.Storage.Tasks.{find_task}
use veritas_sync_next.Storage.Policies.{
  current_ignore_policy_revision, record_ignore_policy_revision, manual, ai, with_revision,
}
use veritas_sync_next.Storage.Policies.Laws.{IsHistory, IsHistory-record_ignore_policy_revision}
use veritas_sync_next.Storage.Ignore.Glob.{glob, glob_matches}
use veritas_sync_next.Storage.Ignore.Validate.{validate, maximum_rules}
use veritas_sync_next.Storage.Ignore.Rules.{
  IgnoreRules, create, load, normalize, is_ignored, part_suffix,
}
use veritas_sync_next.Storage.Ignore.Rules.Laws.{is_ignored-last, by_last, part-ignored}
use veritas_sync_next.Storage.Ignore.Rules.Limits.{load-bounds}
use veritas_sync_next.Storage.Ignore.Preview.{preview, IsBalanced, IgnorePreview, preview-balance}
use veritas_sync_next.Storage.Ignore.Policy.{
  IgnorePolicyState, apply, undo, state_of, hash_rules, read_rules,
}
use veritas_sync_next.Storage.Ignore.Policy.Undo.{undo-apply}

-- "src/**/[!a-c]?.log" and "src/x/dz.log"
abbrev deep_pattern : Bytes
deep_pattern =
    b's' ∷ b'r' ∷ b'c' ∷ b'/' ∷ b'*' ∷ b'*' ∷ b'/' ∷ b'[' ∷ b'!' ∷ b'a' ∷ b'-' ∷ b'c' ∷ b']' ∷ b'?'
    ∷ b'.' ∷ b'l' ∷ b'o' ∷ b'g' ∷ []

abbrev deep_path : Bytes
deep_path = b's' ∷ b'r' ∷ b'c' ∷ b'/' ∷ b'x' ∷ b'/' ∷ b'd' ∷ b'z' ∷ b'.' ∷ b'l' ∷ b'o' ∷ b'g' ∷ []

deep : glob_matches deep_pattern deep_path ≡ true
unfolding glob
deep = refl

-- A `*` stands for nothing between other bytes, but not at the end of a path.
star_inside : glob_matches (b'a' ∷ b'*' ∷ b'b' ∷ []) (b'a' ∷ b'b' ∷ []) ≡ true
unfolding glob
star_inside = refl

star_at_end : glob_matches (b'a' ∷ b'*' ∷ []) (b'a' ∷ []) ≡ false
unfolding glob
star_at_end = refl

-- `[\x01]`: the bytes of a class are not looked at.
control_in_class : validate (b'[' ∷ 1 ∷ b']' ∷ []) ≡ ok tt
unfolding validate bytes_eq
control_in_class = refl

-- `.//x` is normalized to `/x`.
absolute : normalize (b'.' ∷ b'/' ∷ b'/' ∷ b'x' ∷ []) ≡ ok (b'/' ∷ b'x' ∷ [])
unfolding normalize
absolute = refl

-- `\!`: validation takes the mark away as well.
lone_mark : validate (0x5c ∷ b'!' ∷ []) ≡ err (invalid_line 1 " has no pattern")
unfolding validate
lone_mark = refl

-- "*.log", "!a.log"
abbrev log_rules : Bytes
log_rules = b'*' ∷ b'.' ∷ b'l' ∷ b'o' ∷ b'g' ∷ 10 ∷ b'!' ∷ b'a' ∷ b'.' ∷ b'l' ∷ b'o' ∷ b'g' ∷ []

abbrev loaded : IgnoreRules
loaded = record create {
  rules =
      record {
        pattern = b'*' ∷ b'.' ∷ b'l' ∷ b'o' ∷ b'g' ∷ [];
        negated = false;
        rooted = false;
        directory_only = false;
      }
      ∷ record {
        pattern = b'a' ∷ b'.' ∷ b'l' ∷ b'o' ∷ b'g' ∷ [];
        negated = true;
        rooted = false;
        directory_only = false;
      }
      ∷ [];
}

loads : load create log_rules ≡ ok loaded
unfolding load bytes_eq
loads = refl

is_ignored-last_example :
    is_ignored loaded (b'd' ∷ b'/' ∷ b'a' ∷ b'.' ∷ b'l' ∷ b'o' ∷ b'g' ∷ [])
    ≡ (normalize (b'd' ∷ b'/' ∷ b'a' ∷ b'.' ∷ b'l' ∷ b'o' ∷ b'g' ∷ []) >>= by_last loaded)
is_ignored-last_example =
    is_ignored-last loaded (b'd' ∷ b'/' ∷ b'a' ∷ b'.' ∷ b'l' ∷ b'o' ∷ b'g' ∷ [])

-- "d/x.part"
abbrev part_path : Bytes
part_path = b'd' ∷ b'/' ∷ b'x' ∷ part_suffix

part_normal : normalize part_path ≡ ok part_path
unfolding normalize
part_normal = refl

part-ignored_example : is_ignored loaded part_path ≡ ok true
unfolding split bytes_eq
part-ignored_example =
    part-ignored log_rules part_path part_path (b'x' ∷ []) loaded loads part_normal (refl, tt) refl

load-bounds_example : length loaded.rules ≤ maximum_rules
load-bounds_example = load-bounds create loaded log_rules loads

-- A task whose three files are compared under no rules and under `log_rules`.
abbrev files : List Bytes
files =
    (b'a' ∷ b'.' ∷ b'l' ∷ b'o' ∷ b'g' ∷ [])
    ∷ (b'b' ∷ b'.' ∷ b'l' ∷ b'o' ∷ b'g' ∷ [])
    ∷ (b'c' ∷ [])
    ∷ []

abbrev seen : IgnorePreview
seen = record {
  scanned_files = 3;
  currently_ignored = 0;
  proposed_ignored = 1;
  newly_ignored = 1;
  newly_included = 0;
  tracked_newly_ignored = 1;
  truncated = false;
  newly_ignored_samples = (b'b' ∷ b'.' ∷ b'l' ∷ b'o' ∷ b'g' ∷ []) ∷ [];
  newly_included_samples = [];
  tracked_deletion_samples = (b'b' ∷ b'.' ∷ b'l' ∷ b'o' ∷ b'g' ∷ []) ∷ [];
}

previews : preview [] log_rules files 20 files false ≡ ok seen
unfolding preview bytes_eq load is_ignored
previews = refl

preview-balance_example : IsBalanced 20 seen
preview-balance_example = preview-balance [] log_rules files 20 files false seen previews

abbrev task : Bytes
task = b't' ∷ []

abbrev base : Database
base = record no_data {
  tasks = record { task_id = task; mode = []; role = []; root_path = [] } ∷ [];
}

abbrev blake3 : Bytes → Bytes
blake3 s = replicate 32 (length s)

abbrev first : IgnorePolicyRevision
first = record {
  task_id = task;
  revision = 1;
  content = [];
  content_hash = replicate 64 b'0';
  source = manual;
  created_at_ms = 5;
}

-- The history of a task that has had no revision.
IsHistory-record_ignore_policy_revision_example : IsHistory (with_revision base first) task
unfolding record_ignore_policy_revision bytes_eq has_task
IsHistory-record_ignore_policy_revision_example =
    IsHistory-record_ignore_policy_revision base (with_revision base first) task []
      (replicate 64 b'0') manual 5 first refl task (tt, refl)

abbrev second : IgnorePolicyRevision
second = record {
  task_id = task;
  revision = 2;
  content = log_rules;
  content_hash = hash_rules blake3 log_rules;
  source = ai;
  created_at_ms = 5;
}

abbrev both_revisions : Database
both_revisions =
    with_revision (with_revision base (record first { content_hash = hash_rules blake3 [] })) second

applies :
    apply blake3 base task none (hash_rules blake3 []) log_rules ai 5 none
    ≡ ok (state_of second, both_revisions, some log_rules)
unfolding apply bytes_eq validate find_task read_rules current_ignore_policy_revision
    record_ignore_policy_revision to_hex has_task
applies = refl

undo-apply_example :
    (restored : IgnorePolicyState) × (last : Database) × (undo blake3 both_revisions task
        (some log_rules)
        (hash_rules blake3 log_rules)
        6
        none
      ≡ ok (restored, last, some []))
    × (restored.rules ≡ [])
    × (r : IgnorePolicyRevision) × (current_ignore_policy_revision last task ≡ ok (some r))
    × (r.content ≡ [])
unfolding read_rules bytes_eq
undo-apply_example =
    undo-apply blake3 base both_revisions task none (some log_rules) (hash_rules blake3 [])
      log_rules ai [] 5 6 (state_of second) (λ s. refl) (tt, refl) refl refl refl applies
