-- ===== src/Storage/Ignore/Texts.antt =====
-- What engine/storage/ignore_rules.cpp uses of std::string: front, back, pop_back, starts_with, find
-- of two bytes, and the blanks at the two ends of a line.
use veritas_sync_next.Prelude.{
  ℕ, Bool, false, ◌||◌, ◌&&◌, [], ◌∷◌, Bytes, empty?, ◌==◌, if◌then◌else◌,
}

-- `front() == c` of a text that may be empty.
abbrev pub first_is : ℕ → Bytes → Bool
first_is c [] = false
first_is c (b ∷ s) = b == c

unfoldable pub last_is : ℕ → Bytes → Bool
last_is c [] = false
last_is c (b ∷ []) = b == c
last_is c (b ∷ d ∷ s) = last_is c (d ∷ s)

unfoldable pub drop_last : Bytes → Bytes
drop_last [] = []
drop_last (b ∷ []) = []
drop_last (b ∷ d ∷ s) = b ∷ drop_last (d ∷ s)

abbrev pub drop_first : Bytes → Bytes
drop_first [] = []
drop_first (b ∷ s) = s

abbrev pub starts_with_pair : ℕ → ℕ → Bytes → Bool
starts_with_pair c d [] = false
starts_with_pair c d (a ∷ s) = a == c && first_is d s

-- find of a text of two bytes
unfoldable pub has_pair : ℕ → ℕ → Bytes → Bool
has_pair c d [] = false
has_pair c d (b ∷ s) = b == c && first_is d s || has_pair c d s

abbrev pub blank : ℕ → Bool
blank b = b == b' ' || b == 9

unfoldable pub trim_start : Bytes → Bytes
trim_start [] = []
trim_start (b ∷ s) = let rest = trim_start s in if blank b then rest else b ∷ s

unfoldable pub trim_end : Bytes → Bytes
trim_end [] = []
trim_end (b ∷ s) = let rest = trim_end s in if empty? rest && blank b then [] else b ∷ rest

-- What a line says: without its carriage return and the blanks around it.
unfoldable pub without_return : Bytes → Bytes
unfolding last_is drop_last
without_return line = if last_is 13 line then drop_last line else line

unfoldable pub content : Bytes → Bytes
unfolding without_return trim_start trim_end
content line = trim_end (trim_start (without_return line))

-- A line that holds no rule: blank, or a comment.
abbrev pub no_rule : Bytes → Bool
no_rule text = empty? text || first_is b'#' text

abbrev pub escaped_bang : Bytes → Bool
escaped_bang text = starts_with_pair 0x5c b'!' text

abbrev pub escaped : Bytes → Bool
escaped text = escaped_bang text || starts_with_pair 0x5c b'#' text

abbrev pub drop_first_if : Bool → Bytes → Bytes
drop_first_if c text = if c then drop_first text else text

abbrev pub drop_last_if : Bool → Bytes → Bytes
drop_last_if c text = if c then drop_last text else text
