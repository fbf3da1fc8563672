-- ===== src/Storage/Ignore/Glob.antt =====
-- GlobMatches and MatchCharacterClass of engine/storage/ignore_rules.cpp. A position in a text is the
-- rest of the text from there.
use veritas_sync_next.Prelude.{
  ℕ, zero, suc, ◌+◌, ◌%◌, Bool, false, not, ◌||◌, ◌&&◌, Option, none, some, List, [], ◌∷◌, Bytes,
  any_of, empty?, length, ◌==◌, leb, if◌then◌else◌,
}

-- `a <= b` of two values of type char, which is signed in the builds of the engine.
abbrev pub char_leb : ℕ → ℕ → Bool
char_leb a b = leb ((a + 128) % 256) ((b + 128) % 256)

-- The text before the first of a byte, and the text after it.
unfoldable pub cut_at : ℕ → Bytes → Option (Bytes × Bytes)
cut_at stop [] = none
cut_at stop (b ∷ s) =
    let rest = cut_at stop s in
    if b == stop
    then some ([], s)
    else elim rest [ none ↦ none | some (before, after) ↦ some (b ∷ before, after) ]

-- The loop over the members of a class: ranges and single bytes.
unfoldable pub in_class : Bytes → ℕ → Bool
in_class [] value = false
in_class (a ∷ []) value = value == a
in_class (a ∷ d ∷ []) value = value == a || value == d
in_class (a ∷ d ∷ b ∷ s) value =
    let range = in_class s value in
    let single = in_class (d ∷ b ∷ s) value in
    if d == b'-' then char_leb a value && char_leb value b || range else value == a || single

abbrev pub class_matches : Bytes → ℕ → Bool
class_matches [] value = false
class_matches (b ∷ members) value =
    if b == b'!' then not (in_class members value) else in_class (b ∷ members) value

-- What the pattern after `[` says of a byte: the rest of the pattern, where the byte is a member.
unfoldable pub match_character_class : Bytes → ℕ → Option Bytes
unfolding cut_at in_class
match_character_class pattern value = elim (cut_at b']' pattern) [
  | none ↦ none
  | some (members, after) ↦ if class_matches members value then some after else none
]

-- Every rest of a path.
unfoldable pub suffixes : Bytes → List Bytes
suffixes [] = [] ∷ []
suffixes (b ∷ s) = (b ∷ s) ∷ suffixes s

-- The rests that begin after a `/`.
unfoldable pub after_slashes : Bytes → List Bytes
after_slashes [] = []
after_slashes (b ∷ s) = let rest = after_slashes s in if b == b'/' then s ∷ rest else rest

-- The rests up to the end of the first component.
unfoldable pub in_component : Bytes → List Bytes
in_component [] = [] ∷ []
in_component (b ∷ s) =
    let rest = in_component s in if b == b'/' then (b ∷ s) ∷ [] else (b ∷ s) ∷ rest

-- The calls that the branches of GlobMatches make for the rest of the pattern.
abbrev pub one_byte : (Bytes → Bool) → Bytes → Bool
one_byte onward [] = false
one_byte onward (c ∷ s) = not (c == b'/') && onward s

abbrev pub same_byte : ℕ → (Bytes → Bool) → Bytes → Bool
same_byte p onward [] = false
same_byte p onward (c ∷ s) = p == c && onward s

abbrev pub star : (Bytes → Bool) → Bytes → Bool
star onward [] = false
star onward (c ∷ s) = any_of onward (in_component (c ∷ s))

abbrev pub directories : (Bytes → Bool) → Bytes → Bool
directories onward s = onward s || any_of onward (after_slashes s)

abbrev pub of_class : (Bytes → Bytes → Bool) → ℕ → Bytes → Option Bytes → Bool
of_class onward c s none = false
of_class onward c s (some next) = not (c == b'/') && onward next s

abbrev pub class : Bytes → (Bytes → Bytes → Bool) → Bytes → Bool
class pattern onward [] = false
class pattern onward (c ∷ s) = of_class onward c s (match_character_class pattern c)

-- The branches for a pattern that does not begin with `*`.
abbrev pub one_of_them : (Bytes → Bytes → Bool) → ℕ → Bytes → Bytes → Bool
one_of_them onward p ps path =
    if p == b'?'
    then one_byte (onward ps) path
    else if p == b'['
    then class ps onward path
    else same_byte p (onward ps) path

-- The branches for a pattern that begins with `*`: `**/`, `**` and `*`.
abbrev pub stars : (Bytes → Bytes → Bool) → Bytes → Bytes → Bool
stars onward [] path = star (onward []) path
stars onward (q ∷ []) path =
    if q == b'*' then any_of (onward []) (suffixes path) else star (onward (q ∷ [])) path
stars onward (q ∷ r ∷ rest) path =
    if q == b'*' && r == b'/'
    then directories (onward rest) path
    else if q == b'*'
    then any_of (onward (r ∷ rest)) (suffixes path)
    else star (onward (q ∷ r ∷ rest)) path

-- GlobMatches: every call takes a byte of the pattern at least, so its length is enough fuel.
unfoldable pub glob : ℕ → Bytes → Bytes → Bool
unfolding suffixes after_slashes in_component match_character_class
glob fuel [] path = empty? path
glob zero (p ∷ ps) path = false
glob (suc f) (p ∷ ps) path =
    if p == b'*' then stars (glob f) ps path else one_of_them (glob f) p ps path

abbrev pub glob_matches : Bytes → Bytes → Bool
glob_matches pattern path = glob (length pattern) pattern path
