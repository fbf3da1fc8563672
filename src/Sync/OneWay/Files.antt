-- ===== src/Sync/OneWay/Files.antt =====
-- What the node asks of engine/storage/safe_file_writer.cpp, on a task's files without symbolic links
-- and with an operating system that does what it is asked.
use veritas_sync_next.Prelude.{
  ◌+◌, Bool, not, ◌||◌, ◌&&◌, List, [], ◌∷◌, ◌++◌, Bytes, invalid_argument, runtime_error, any_of,
  bytes_eq, bytes_key, lookup, assign, erase, keep_if, length, take,
}
use veritas_sync_next.Storage.TaskPaths.{resolve_task_path}
use veritas_sync_next.Storage.Ignore.Rules.{prefixes}
use veritas_sync_next.Sync.Download.{is_some}
use veritas_sync_next.Sync.OneWay.Node.{
  Node, Action, modify, gets, raise_if, lift, for_each, when, ◌>>=◌, ◌>>◌,
}

unfoldable pub is_directory_at : Node → Bytes → Bool
is_directory_at n path = any_of (bytes_eq path) n.directories

unfoldable pub is_file_at : Node → Bytes → Bool
is_file_at n path = is_some (lookup path n.disk.files)

-- EnsureSafeDirectory for one of the directories from the root on.
unfoldable pub make_directory : Bytes → Action (Unit {0})
make_directory path = do
  blocked ← gets (λ n. is_file_at n path)
  raise_if blocked (invalid_argument "destination path traverses a non-directory or symlink")
  there ← gets (λ n. is_directory_at n path)
  when (not there) (modify λ n. record n { directories = path ∷ n.directories })

-- The directories that hold a path.
unfoldable pub parents : List Bytes → List Bytes
parents [] = []
parents (p ∷ []) = []
parents (p ∷ q ∷ rest) = p ∷ parents (q ∷ rest)

unfoldable pub ensure_directory : Bytes → Action (Unit {0})
ensure_directory path = do
  lift (resolve_task_path path)
  blocked ← gets (λ n. is_file_at n path)
  raise_if blocked (invalid_argument "synchronized directory path is unsafe")
  there ← gets (λ n. is_directory_at n path)
  when (not there) (for_each make_directory (prefixes path))

unfoldable pub remove_file : Bytes → Action (Unit {0})
remove_file path = do
  lift (resolve_task_path path)
  blocked ← gets (λ n. is_directory_at n path)
  raise_if blocked (invalid_argument "destination deletion requires a regular file")
  modify (λ n. record n { disk = record n.disk { files = erase path n.disk.files } })

-- Whether a path lies under a directory.
abbrev pub under : Bytes → Bytes → Bool
under directory path = bytes_eq (directory ++ b'/' ∷ []) (take (length directory + 1) path)

abbrev pub keys : List (Bytes × Bytes) → List Bytes
keys [] = []
keys ((k, v) ∷ rest) = k ∷ keys rest

-- Whether a directory holds something: a file, a partial file or a directory.
unfoldable pub has_content : Node → Bytes → Bool
has_content n path =
    any_of (under path) (keys n.disk.files)
    || any_of (under path) (keys n.disk.parts)
    || any_of (under path) n.directories

unfoldable pub remove_empty_directory : Bytes → Action (Unit {0})
remove_empty_directory path = do
  lift (resolve_task_path path)
  blocked ← gets (λ n. is_file_at n path)
  raise_if blocked (invalid_argument "synchronized directory deletion requires a directory")
  full ← gets (λ n. is_directory_at n path && has_content n path)
  raise_if full (runtime_error "cannot delete non-empty synchronized directory")
  modify (λ n. record n { directories = keep_if (λ d. not (bytes_eq path d)) n.directories })

unfoldable pub discard_partial : Bytes → Action (Unit {0})
discard_partial path = do
  lift (resolve_task_path path)
  modify (λ n. record n { disk = record n.disk { parts = erase path n.disk.parts } })

unfoldable pub write_atomically : Bytes → Bytes → Action (Unit {0})
write_atomically path bytes = do
  lift (resolve_task_path path)
  for_each make_directory (parents (prefixes path))
  blocked ← gets (λ n. is_directory_at n path)
  raise_if blocked (runtime_error "cannot atomically commit download")
  modify (λ n. record n { disk = record n.disk { files = assign path bytes n.disk.files } })
