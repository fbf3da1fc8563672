-- ===== src/Storage/Paths.antt =====
-- ValidateRelativePath of engine/storage/database.cpp: a path is normalized and stays in its task.
use veritas_sync_next.Prelude.{
  ℕ, Bool, false, ◌||◌, Bytes, Result, invalid_argument, List, [], ◌∷◌, any_of, empty?, bytes_eq,
  if◌then◌else◌, ◌==◌, forbid, ◌>>◌,
}

-- A byte in front of the first of the parts.
abbrev pub into_first : ℕ → List Bytes → List Bytes
into_first b [] = (b ∷ []) ∷ []
into_first b (p ∷ ps) = (b ∷ p) ∷ ps

-- The parts between the separators, as the loops over `find(separator, begin)` visit them.
unfoldable pub split : ℕ → Bytes → List Bytes
split sep [] = [] ∷ []
split sep (b ∷ s) = let rest = split sep s in if b == sep then [] ∷ rest else into_first b rest

abbrev pub bad_component : Bytes → Bool
bad_component c = empty? c || bytes_eq c (b'.' ∷ []) || bytes_eq c (b'.' ∷ b'.' ∷ [])

abbrev pub starts_with_slash : Bytes → Bool
starts_with_slash [] = false
starts_with_slash (b ∷ s) = b == b'/'

unfoldable pub validate_relative_path : Bytes → Result (Unit {0})
unfolding split
validate_relative_path path = do
  forbid
      (empty? path
        || starts_with_slash path
        || any_of (λ b. b == 0x5c) path
        || any_of (λ b. b == b':') path)
      (invalid_argument "file record path must be normalized and task-relative")
  forbid (any_of bad_component (split b'/' path))
      (invalid_argument "file record path must not traverse directories")
