-- ===== src/Sync/Versions.antt =====
-- engine/sync/version_resolution.cpp: what to do with a peer's version of a path, and the name
-- under which the losing side of a conflict is kept.
pub mod Laws
use veritas_sync_next.Prelude.{
  ℕ, zero, suc, ◌+◌, ◌/◌, ◌%◌, Bool, true, false, not, ◌&&◌, ◌||◌, Bytes, Result, ok, err,
  invalid_argument, List, [], ◌∷◌, ◌++◌, map, Option, none, some, empty?, if◌then◌else◌, forbid,
  ◌>>=◌, ◌>>◌, ◌==◌, ltb, leb, bytes_eq, bytes_lt, any_of,
}
use veritas_sync_next.Storage.Tables.{FileRecord, Database}
use veritas_sync_next.Storage.Records.{is_directory}
use veritas_sync_next.Storage.Lineage.{is_version_ancestor}

-- std::isalnum in the C locale.
abbrev pub is_alnum : ℕ → Bool
is_alnum c = (leb 48 c && leb c 57) || (leb 65 c && leb c 90) || (leb 97 c && leb c 122)

abbrev pub safe_byte : ℕ → ℕ
safe_byte c = if is_alnum c || c == 45 || c == 95 then c else 95

-- "unknown"
abbrev pub unknown : Bytes
unknown = 117 ∷ 110 ∷ 107 ∷ 110 ∷ 111 ∷ 119 ∷ 110 ∷ []

unfoldable pub safe_device_id : Bytes → Bytes
safe_device_id value = if empty? value then unknown else map safe_byte value

-- The parts before and after the last separator.
unfoldable pub cut_last : ℕ → Bytes → Option (Bytes × Bytes)
cut_last sep [] = none
cut_last sep (b ∷ bs) = elim (cut_last sep bs) [
  | some (before, after) ↦ some (b ∷ before, after)
  | none ↦ if b == sep then some ([], bs) else none
]

-- parent_path with the separator that joins it to a name again, and filename.
unfoldable pub split_name : Bytes → Bytes × Bytes
split_name path = elim (cut_last b'/' path) [
  | some (parent, name) ↦ (parent ++ b'/' ∷ [], name)
  | none ↦ ([], path)
]

-- stem and extension: the extension begins at the last dot that is not the name's first byte.
unfoldable pub split_extension : Bytes → Bytes × Bytes
split_extension [] = ([], [])
split_extension (b ∷ bs) = elim (cut_last b'.' bs) [
  | some (before, after) ↦ (b ∷ before, b'.' ∷ after)
  | none ↦ (b ∷ bs, [])
]

-- std::to_string, with `fuel` digits at most.
unfoldable pub decimal : ℕ → ℕ → Bytes
decimal zero n = []
decimal (suc fuel) n =
    let front = decimal fuel (n / 10) in
    if ltb n 10 then (48 + n) ∷ [] else front ++ (48 + n % 10) ∷ []

-- A std::uint64_t has at most 20 digits.
abbrev pub to_string : ℕ → Bytes
to_string n = decimal 20 n

-- ".conflict."
abbrev pub conflict_infix : Bytes
conflict_infix = b'.' ∷ b'c' ∷ b'o' ∷ b'n' ∷ b'f' ∷ b'l' ∷ b'i' ∷ b'c' ∷ b't' ∷ b'.' ∷ []

unfoldable pub conflict_path : Bytes → FileRecord → Result Bytes
conflict_path original losing = do
  forbid (empty? original || empty? losing.origin_device_id)
      (invalid_argument "conflict path identity is invalid")
  let (parent, name) = split_name original
  forbid (empty? name || bytes_eq name (b'.' ∷ []) || bytes_eq name (b'.' ∷ b'.' ∷ []))
      (invalid_argument "conflict path is invalid")
  let (stem, extension) = split_extension name
  ok (
      parent
      ++ stem
      ++ conflict_infix
      ++ safe_device_id losing.origin_device_id
      ++ b'.' ∷ to_string losing.logical_clock
      ++ extension)

pub data VersionResolutionAction : Type 0 where
  apply_remote keep_local conflict : VersionResolutionAction

pub record VersionResolution : Type 0 where
  pub action : VersionResolutionAction
  pub remote_wins : Bool
  pub conflict_path : Bytes

unfoldable pub remote_sorts_before_local : FileRecord → FileRecord → Bool
remote_sorts_before_local remote local =
    if remote.logical_clock == local.logical_clock
    then bytes_lt remote.origin_device_id local.origin_device_id
    else ltb remote.logical_clock local.logical_clock

-- A directory stays at the path against anything else.
unfoldable pub remote_wins_conflict : FileRecord → FileRecord → Bool
remote_wins_conflict remote local = elim (is_directory remote.kind) [
  | true ↦ if is_directory local.kind then remote_sorts_before_local remote local else true
  | false ↦ if is_directory local.kind then false else remote_sorts_before_local remote local
]

abbrev pub applied : VersionResolution
applied = record { action = apply_remote; remote_wins = true; conflict_path = [] }

abbrev pub kept : VersionResolution
kept = record { action = keep_local; remote_wins = false; conflict_path = [] }

-- Neither version descends from the other.
unfoldable pub resolve_conflict : FileRecord → FileRecord → Result VersionResolution
resolve_conflict local remote = do
  let wins = remote_wins_conflict remote local
  path ← conflict_path remote.relative_path (if wins then local else remote)
  ok (record { action = conflict; remote_wins = wins; conflict_path = path })

-- By the ancestry of two versions of one path.
unfoldable pub resolve_versions :
    Database → Bytes → FileRecord → FileRecord → Result VersionResolution
resolve_versions db task_id local remote =
    is_version_ancestor db task_id local.version_id remote.version_id >>= λ newer.
    if newer
    then ok applied
    else (is_version_ancestor db task_id remote.version_id local.version_id >>= λ older.
        if older then ok kept else resolve_conflict local remote)

unfoldable pub resolve_known : Database → Bytes → FileRecord → FileRecord → Result VersionResolution
resolve_known db task_id local remote = do
  forbid
      (not (bytes_eq local.task_id task_id)
        || not (bytes_eq local.relative_path remote.relative_path))
      (invalid_argument "version records do not identify the same path")
  if bytes_eq local.version_id remote.version_id
      then ok kept
      else resolve_versions db task_id local remote

unfoldable pub resolve :
    Database → Bytes → Option FileRecord → FileRecord → Result VersionResolution
resolve db task_id local remote = do
  forbid
      (empty? task_id
        || not (bytes_eq remote.task_id task_id)
        || empty? remote.relative_path
        || empty? remote.version_id)
      (invalid_argument "version resolution input is invalid")
  elim local [ none ↦ ok applied | some record_here ↦ resolve_known db task_id record_here remote ]
