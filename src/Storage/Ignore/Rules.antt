-- ===== src/Storage/Ignore/Rules.antt =====
-- The rules of engine/storage/ignore_rules.cpp: Load, Normalize, Matches and IsIgnored.
pub mod Laws
pub mod Limits
use veritas_sync_next.Prelude.{
  ℕ, Bool, true, false, not, ◌||◌, ◌&&◌, List, Option, none, some, [], ◌∷◌, Bytes, Result, ok, map,
  invalid_argument, forbid, ◌>>◌, ◌>>=◌, any_of, empty?, bytes_eq, ◌==◌, if◌then◌else◌,
}
use veritas_sync_next.Storage.Paths.{split}
use veritas_sync_next.Storage.Ignore.Texts.{
  first_is, last_is, has_pair, content, no_rule, escaped_bang, escaped, drop_first_if, drop_last_if,
}
use veritas_sync_next.Storage.Ignore.Glob.{glob, glob_matches}
use veritas_sync_next.Storage.Ignore.Validate.{validate}

pub record Rule : Type 0 where
  pub pattern : Bytes
  pub negated : Bool
  pub rooted : Bool
  pub directory_only : Bool

pub record IgnoreRules : Type 0 where
  pub defaults : List Rule
  pub rules : List Rule

abbrev pub part_suffix : Bytes
part_suffix = b'.' ∷ b'p' ∷ b'a' ∷ b'r' ∷ b't' ∷ []

abbrev pub git_directory : Bytes
git_directory = b'.' ∷ b'g' ∷ b'i' ∷ b't' ∷ []

abbrev pub rules_file : Bytes
rules_file =
    b'.' ∷ b'v' ∷ b'e' ∷ b'r' ∷ b'i' ∷ b't' ∷ b'a' ∷ b's' ∷ b'i' ∷ b'g' ∷ b'n' ∷ b'o' ∷ b'r' ∷ b'e'
    ∷ []

abbrev pub plain : Bytes → Rule
plain pattern = record {
  pattern = pattern;
  negated = false;
  rooted = false;
  directory_only = false;
}

abbrev pub create : IgnoreRules
create = record {
  defaults =
      plain (b'*' ∷ part_suffix)
      ∷ record (plain git_directory) { directory_only = true }
      ∷ plain rules_file
      ∷ [];
  rules = [];
}

-- The body of the loop of Load: a line that holds a rule.
abbrev pub rule_of : Bytes → Option Rule
rule_of text =
    let unescaped = drop_first_if (escaped text) text in
    let negated = not (escaped_bang text) && first_is b'!' unescaped in
    let positive = drop_first_if negated unescaped in
    let rooted = first_is b'/' positive in
    let relative = drop_first_if rooted positive in
    let directory_only = last_is b'/' relative in
    let pattern = drop_last_if directory_only relative in
    if empty? pattern
    then none
    else some (record {
      pattern = pattern;
      negated = negated;
      rooted = rooted;
      directory_only = directory_only;
    })

unfoldable pub parse_line : Bytes → Option Rule
unfolding content last_is
parse_line bytes = let text = content bytes in if no_rule text then none else rule_of text

abbrev pub push : Option Rule → List Rule → List Rule
push none rest = rest
push (some rule) rest = rule ∷ rest

unfoldable pub parse_lines : List Bytes → List Rule
unfolding parse_line
parse_lines [] = []
parse_lines (bytes ∷ rest) = push (parse_line bytes) (parse_lines rest)

unfoldable pub load : IgnoreRules → Bytes → Result IgnoreRules
unfolding validate split parse_lines
load self text = do validate text; ok (record self { rules = parse_lines (split 10 text) })

-- The loop that erases `./` at the front.
unfoldable pub strip_here : Bytes → Bytes
strip_here [] = []
strip_here (a ∷ []) = a ∷ []
strip_here (a ∷ b ∷ s) =
    let rest = strip_here s in if a == b'.' && b == b'/' then rest else a ∷ b ∷ s

abbrev pub forward_slash : ℕ → ℕ
forward_slash b = if b == 0x5c then b'/' else b

abbrev pub dots : Bytes → Bool
dots c = bytes_eq c (b'.' ∷ []) || bytes_eq c (b'.' ∷ b'.' ∷ [])

unfoldable pub normalize : Bytes → Result Bytes
unfolding has_pair last_is strip_here split bytes_eq
normalize value = do
  forbid (empty? value) (invalid_argument "ignore path is required")
  let slashed = map forward_slash value
  forbid (first_is b'/' slashed || has_pair b':' b'/' slashed)
      (invalid_argument "ignore path must be task-relative")
  let result = strip_here slashed
  forbid (empty? result || last_is b'/' result || has_pair b'/' b'/' result)
      (invalid_argument "ignore path must name a file or directory")
  forbid (any_of dots (split b'/' result))
      (invalid_argument "ignore path must not traverse directories")
  ok result

-- The starts of a path that end in front of a slash, and the whole path.
unfoldable pub prefixes : Bytes → List Bytes
prefixes [] = [] ∷ []
prefixes (b ∷ s) = let rest = map (◌∷◌ b) (prefixes s) in if b == b'/' then [] ∷ rest else rest

abbrev pub has_slash : Bytes → Bool
has_slash value = any_of (λ b. b == b'/') value

abbrev pub matches_any_component : Bytes → Bytes → Bool
matches_any_component pattern path = any_of (glob_matches pattern) (split b'/' path)

abbrev pub component_pattern : Rule → Bool
component_pattern rule = not rule.rooted && not (has_slash rule.pattern)

unfoldable pub matches : Rule → Bytes → Bool
unfolding glob split prefixes
matches rule path =
    if not rule.directory_only
    then if component_pattern rule
      then matches_any_component rule.pattern path
      else glob_matches rule.pattern path
    else any_of (glob_matches rule.pattern)
        (if component_pattern rule then split b'/' path else prefixes path)

-- The loop over the rules: the last one that matches decides.
unfoldable pub verdict : Bool → List Rule → Bytes → Bool
unfolding matches
verdict ignored [] path = ignored
verdict ignored (rule ∷ rest) path =
    verdict (if matches rule path then not rule.negated else ignored) rest path

unfoldable pub is_ignored : IgnoreRules → Bytes → Result Bool
unfolding normalize verdict matches
is_ignored self relative_path = do
  path ← normalize relative_path
  ok (any_of (λ rule. matches rule path) self.defaults || verdict false self.rules path)
