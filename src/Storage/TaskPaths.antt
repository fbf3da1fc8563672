-- ===== src/Storage/TaskPaths.antt =====
-- ResolveTaskPath of engine/storage/safe_file_writer.cpp, for a task root that is an existing
-- directory: which relative paths it refuses. A path is a text with `/` and `\` as separators; the
-- iteration over std::filesystem::path leaves out the empty names between separators, except at
-- the end.
use veritas_sync_next.Prelude.{
  ℕ, ◌-◌, Bool, false, ◌||◌, ◌&&◌, List, [], ◌∷◌, Bytes, Result, ok, invalid_argument, forbid, ◌>>◌,
  any_of, empty?, map, length, bytes_eq, ltb, leb, ◌==◌, if◌then◌else◌, get_or, take,
}
use veritas_sync_next.Storage.Paths.{split}
use veritas_sync_next.Storage.Ignore.Texts.{first_is, last_is}
use veritas_sync_next.Storage.Ignore.Rules.{forward_slash, dots}

-- The names of a path: the last one may be empty.
unfoldable pub names_of : List Bytes → List Bytes
names_of [] = []
names_of (name ∷ []) = name ∷ []
names_of (name ∷ next ∷ rest) =
    let others = names_of (next ∷ rest) in if empty? name then others else name ∷ others

abbrev pub components : Bytes → List Bytes
components path = names_of (split b'/' (map forward_slash path))

-- A root name, `X:`, or a root directory.
abbrev pub drive : Bytes → Bool
drive [] = false
drive (a ∷ s) = first_is b':' s

abbrev pub rooted_path : Bytes → Bool
rooted_path path = drive path || first_is b'/' (map forward_slash path)

abbrev pub upper : ℕ → ℕ
upper c = if leb b'a' c && leb c b'z' then c - 32 else c

-- The name up to its first dot.
unfoldable pub stem : Bytes → Bytes
stem [] = []
stem (c ∷ s) = let rest = stem s in if c == b'.' then [] else c ∷ rest

abbrev pub windows_text : Bytes → Bool
windows_text name =
    last_is b' ' name
    || last_is b'.' name
    || any_of (λ c. c == b':') name
    || any_of (λ c. ltb c 32 || c == 127) name

-- CON, PRN, AUX, NUL, and COM1 to COM9 and LPT1 to LPT9
abbrev pub device_names : List Bytes
device_names =
    (b'C' ∷ b'O' ∷ b'N' ∷ [])
    ∷ (b'P' ∷ b'R' ∷ b'N' ∷ [])
    ∷ (b'A' ∷ b'U' ∷ b'X' ∷ [])
    ∷ (b'N' ∷ b'U' ∷ b'L' ∷ [])
    ∷ []

abbrev pub port_names : List Bytes
port_names = (b'C' ∷ b'O' ∷ b'M' ∷ []) ∷ (b'L' ∷ b'P' ∷ b'T' ∷ []) ∷ []

unfoldable pub device_name : Bytes → Bool
unfolding bytes_eq
device_name name =
    any_of (bytes_eq name) device_names
    || (length name == 4
        && any_of (bytes_eq (take 3 name)) port_names
        && leb b'1' (get_or name 3 0)
        && leb (get_or name 3 0) b'9')

abbrev pub bad_name : Bytes → Bool
bad_name c = empty? c || dots c

-- The loop over the names.
unfoldable pub check_names : List Bytes → Result (Unit {0})
unfolding stem device_name last_is
check_names [] = ok tt
check_names (c ∷ rest) = do
  forbid (bad_name c) (invalid_argument "path traversal is not allowed")
  forbid (windows_text c) (invalid_argument "Windows path component is invalid")
  forbid (device_name (map upper (stem c)))
      (invalid_argument "Windows device names are not allowed")
  check_names rest

unfoldable pub resolve_task_path : Bytes → Result (Unit {0})
unfolding names_of split check_names
resolve_task_path path = do
  forbid (empty? path) (invalid_argument "task root and relative path are required")
  forbid (rooted_path path) (invalid_argument "absolute paths are not allowed")
  check_names (components path)
