-- ===== src/Storage/Ignore/Validate.antt =====
-- IgnoreRules::Validate of engine/storage/ignore_rules.cpp.
use veritas_sync_next.Prelude.{
  ◌*◌, ℕ, ◌+◌, Bool, true, false, not, ◌||◌, ◌&&◌, List, Option, none, some, [], ◌∷◌, Bytes, Result,
  ok, err, invalid_argument, invalid_line, forbid, ◌>>◌, ◌>>=◌, any_of, empty?, length, bytes_eq,
  ltb, ◌==◌, if◌then◌else◌,
}
use veritas_sync_next.Storage.Paths.{split, bad_component}
use veritas_sync_next.Storage.Ignore.Texts.{
  first_is, last_is, content, without_return, no_rule, escaped, drop_first_if, drop_last_if,
}
use veritas_sync_next.Storage.Ignore.Glob.{cut_at}

abbrev pub maximum_bytes : ℕ
maximum_bytes = 16 * 1024

abbrev pub maximum_line_bytes : ℕ
maximum_line_bytes = 512

abbrev pub maximum_rules : ℕ
maximum_rules = 128

-- A class without an end, an empty one, or one that is only negated.
abbrev pub bad_class : Option (Bytes × Bytes) → Bool
bad_class none = true
bad_class (some (members, after)) = empty? members || bytes_eq members (b'!' ∷ [])

-- The loop over the bytes of a pattern; `inside` is true from a bracket to its end, where the loop
-- has moved its position.
unfoldable pub check_bytes : ℕ → Bool → Bytes → Result (Unit {0})
unfolding cut_at
check_bytes line inside [] = ok tt
check_bytes line true (b ∷ s) = elim (b == b']') [
  | true ↦ check_bytes line false s
  | false ↦ check_bytes line true s
]
check_bytes line false (b ∷ s) = elim (ltb b 0x20) [
  | true ↦ err (invalid_line line " contains a control character")
  | false ↦ elim (b == b'[') [
    | true ↦ elim (bad_class (cut_at b']' s)) [
      | true ↦ err (invalid_line line " has an invalid character class")
      | false ↦ check_bytes line true s
    ]
    | false ↦ elim (b == b']') [
      | true ↦ err (invalid_line line " has an unmatched bracket")
      | false ↦ check_bytes line false s
    ]
  ]
]

unfoldable pub check_pattern : ℕ → Bytes → Result (Unit {0})
unfolding split check_bytes
check_pattern line pattern = do
  forbid (empty? pattern) (invalid_line line " has no pattern")
  forbid (any_of (λ b. b == 0x5c) pattern) (invalid_line line " contains an unsupported escape")
  forbid (any_of bad_component (split b'/' pattern))
      (invalid_line line " contains an invalid path component")
  check_bytes line false pattern

-- A line without its escape, its `!` and the slashes at its ends.
abbrev pub strip_marks : Bytes → Bytes
strip_marks text =
    let unescaped = drop_first_if (escaped text) text in
    let positive = drop_first_if (first_is b'!' unescaped) unescaped in
    let relative = drop_first_if (first_is b'/' positive) positive in
    drop_last_if (last_is b'/' relative) relative

-- The rounds of the loop over the lines; the answer tells whether the line counts as a rule.
unfoldable pub validate_line : ℕ → Bytes → Result Bool
unfolding content without_return last_is check_pattern
validate_line line bytes = do
  forbid (ltb maximum_line_bytes (length (without_return bytes)))
      (invalid_line line " exceeds 512 bytes")
  let text = content bytes
  if no_rule text then ok false else (do check_pattern line (strip_marks text); ok true)

unfoldable pub validate_lines : ℕ → ℕ → List Bytes → Result ℕ
unfolding validate_line
validate_lines line count [] = ok count
validate_lines line count (bytes ∷ rest) = do
  counted ← validate_line line bytes
  let rules = if counted then count + 1 else count
  forbid (counted && ltb maximum_rules rules) (invalid_argument "ignore rules exceed 128 patterns")
  validate_lines (line + 1) rules rest

unfoldable pub validate : Bytes → Result (Unit {0})
unfolding split validate_lines
validate text = do
  forbid (ltb maximum_bytes (length text)) (invalid_argument "ignore rules exceed 16 KiB")
  forbid (any_of (λ b. b == 0) text) (invalid_argument "ignore rules contain a null byte")
  count ← validate_lines 1 0 (split 10 text)
  forbid (count == 0 && not (empty? text))
      (invalid_argument "ignore rules do not contain a pattern")
