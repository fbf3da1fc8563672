-- ===== src/Storage/Ignore/Rules/Limits.antt =====
-- How many rules Load of engine/storage/ignore_rules.cpp keeps.
use veritas_sync_next.Prelude.{
  ◌==◌, any_of, Error, ℕ, ◌+◌, ◌≤◌, ◌≡◌, Bool, true, false, ◌&&◌, List, Option, none, some, [], ◌∷◌,
  Bytes, ok, forbid, length, ltb, if◌then◌else◌, refl, Bool-cases, inl, inr, arith, bind_ok,
  invalid_argument, invalid_line,
}
use veritas_sync_next.Storage.Paths.{split}
use veritas_sync_next.Storage.Ignore.Texts.{content, no_rule, without_return}
use veritas_sync_next.Storage.Ignore.Validate.{
  maximum_bytes, validate, validate_line, validate_lines, check_pattern, strip_marks, maximum_rules,
  maximum_line_bytes,
}
use veritas_sync_next.Storage.Ignore.Rules.{IgnoreRules, Rule, load, parse_line, parse_lines, push}

abbrev as_number : Bool → ℕ
as_number true = 1
as_number false = 0

length-push :
    (found : Option Rule) (rules : List Rule) → length (push found rules) ≤ length rules + 1
length-push none rules = omega arith
length-push (some rule) rules = omega arith

-- A line that does not count holds no rule.
validate_line-none :
    (line : ℕ) (bytes : Bytes) → validate_line line bytes ≡ ok false → parse_line bytes ≡ none
unfolding validate_line parse_line
validate_line-none line bytes h = elim (Bool-cases (no_rule (content bytes))) [
  | inl nothing ↦ rw nothing refl
  | inr something ↦
      let (_, _, rest) =
        bind_ok
          (forbid (ltb maximum_line_bytes (length (without_return bytes)))
            (invalid_line line " exceeds 512 bytes"))
          _ h in
      let (_, _, counted) =
        bind_ok (check_pattern line (strip_marks (content bytes))) _ (rw something at rest) in
      absurd (cc counted)
]

length-push_counted :
    (counted : Bool) (line : ℕ) (bytes : Bytes) (rules : List Rule)
    → validate_line line bytes ≡ ok counted
    → length (push (parse_line bytes) rules) ≤ length rules + as_number counted
length-push_counted true line bytes rules h = length-push (parse_line bytes) rules
length-push_counted false line bytes rules h = rw (validate_line-none line bytes h) (omega arith)

after : Bool → ℕ → ℕ
after counted count = if counted then count + 1 else count

after-sum : (counted : Bool) (count : ℕ) → after counted count ≡ count + as_number counted
unfolding after
after-sum true count = refl
after-sum false count = omega arith

after-within :
    (counted : Bool) (count : ℕ) (e : Error)
    → forbid (counted && ltb maximum_rules (after counted count)) e ≡ ok tt
    → count ≤ maximum_rules
    → after counted count ≤ maximum_rules
unfolding after
after-within true count e h b = ground (arith, h)
after-within false count e h b = b

validate_lines-counts :
    (lines : List Bytes) (line count total : ℕ)
    → validate_lines line count lines ≡ ok total
    → count ≤ maximum_rules
    → (count + length (parse_lines lines) ≤ total) × (total ≤ maximum_rules)
unfolding validate_lines parse_lines after
validate_lines-counts [] line count total h b = ground (arith, h)
validate_lines-counts (bytes ∷ rest) line count total h b =
    let (counted, valid, next) = bind_ok (validate_line line bytes) _ h in
    let (_, within, last) = bind_ok (forbid _ _) _ next in
    let fits = after-within counted count _ within b in
    let (lower, upper) =
      validate_lines-counts rest (line + 1) (after counted count) total last fits in
    (
      omega (
        arith,
        length-push_counted counted line bytes (parse_lines rest) valid,
        after-sum counted count,
      ),
      upper,
    )

validate-counts :
    (text : Bytes)
    → validate text ≡ ok tt
    → (total : ℕ) × (validate_lines 1 0 (split 10 text) ≡ ok total)
unfolding validate
validate-counts text h =
    let (_, _, small) =
      bind_ok
        (forbid (ltb maximum_bytes (length text)) (invalid_argument "ignore rules exceed 16 KiB")) _
        h in
    let (_, _, plain) =
      bind_ok
        (forbid (any_of (λ b. b == 0) text) (invalid_argument "ignore rules contain a null byte")) _
        small in
    let (total, counted, _) = bind_ok (validate_lines 1 0 (split 10 text)) _ plain in
    (total, counted)

-- The rules that are loaded are at most 128: the lines that validation counts are all that hold one.
pub load-bounds :
    (self loaded : IgnoreRules) (text : Bytes)
    → load self text ≡ ok loaded
    → length loaded.rules ≤ maximum_rules
unfolding load
load-bounds self loaded text h =
    let (_, valid, made) = bind_ok (validate text) _ h in
    let (total, counted) = validate-counts text valid in
    let (lower, upper) = validate_lines-counts (split 10 text) 1 0 total counted (omega arith) in
    ground (arith, made, lower, upper)
