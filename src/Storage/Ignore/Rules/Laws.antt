-- ===== src/Storage/Ignore/Rules/Laws.antt =====
-- IsIgnored of engine/storage/ignore_rules.cpp: the last rule decides, and the built-in ones stay.
use veritas_sync_next.Prelude.{
  any_of-implies, subst, bind_ext, ◌≡◌, Bool, true, false, not, ◌||◌, List, Option, none, some, [],
  ◌∷◌, ◌++◌, Bytes, Result, ok, any_of, find_if, bytes_eq, if◌then◌else◌, refl, ap, sym, ◌∙◌, ◌>>=◌,
  Option-cases, inl, inr, arith, find_if_hit, find_if_miss, find_if-append_some,
  find_if-append_none, bytes_eq→eq, bind_ok,
}
use veritas_sync_next.Storage.Paths.{split}
use veritas_sync_next.Storage.Ignore.Glob.{glob_matches}
use veritas_sync_next.Storage.Ignore.Splits.{NoSlash}
use veritas_sync_next.Storage.Ignore.Matching.{IsMatch, any_in_component, done, same}
use veritas_sync_next.Storage.Ignore.Matching.Complete.{glob_matches_iff}
use veritas_sync_next.Storage.Ignore.Validate.{validate}
use veritas_sync_next.Storage.Ignore.Rules.{
  rules_file, git_directory, Rule, IgnoreRules, create, load, normalize, matches, verdict,
  is_ignored, part_suffix, plain,
}

abbrev pub backwards {ℓ} : {A : Type ℓ} → List A → List A
backwards [] = []
backwards (x ∷ xs) = backwards xs ++ x ∷ []

-- What the rules of a user say of a path: the last rule that matches decides.
abbrev pub of_last : Bool → Option Rule → Bool
of_last otherwise none = otherwise
of_last otherwise (some rule) = not rule.negated

abbrev pub last_match : List Rule → Bytes → Option Rule
last_match rules path = find_if (λ rule. matches rule path) (backwards rules)

of_last-snoc :
    (start : Bool) (test : Rule → Bool) (rule : Rule) (rules : List Rule)
    → of_last (if test rule then not rule.negated else start) (find_if test rules)
      ≡ of_last start (find_if test (rules ++ rule ∷ []))
of_last-snoc start test rule rules = elim (Option-cases (find_if test rules)) [
  | inr (r, e) ↦ ap (of_last _) e ∙ ap (of_last start) (sym (find_if-append_some test rules _ r e))
  | inl e ↦
      ap (of_last _) e
      ∙ last_one (test rule) refl
      ∙ ap (of_last start) (sym (find_if-append_none test rules (rule ∷ []) e))
]
  where
    last_one :
        (b : Bool)
        → test rule ≡ b
        → (if test rule then not rule.negated else start) ≡ of_last start (find_if test (rule ∷ []))
    last_one true e = rw e (ap (of_last start) (sym (find_if_hit test rule [] e)))
    last_one false e = rw e (ap (of_last start) (sym (find_if_miss test rule [] e)))

verdict-last :
    (rules : List Rule) (path : Bytes) (start : Bool)
    → verdict start rules path ≡ of_last start (last_match rules path)
unfolding verdict
verdict-last [] path start = refl
verdict-last (rule ∷ rest) path start =
    verdict-last rest path (if matches rule path then not rule.negated else start)
    ∙ of_last-snoc start (λ r. matches r path) rule (backwards rest)

abbrev pub by_last : IgnoreRules → Bytes → Result Bool
by_last self normal = ok (
    any_of (λ rule. matches rule normal) self.defaults
    || of_last false (last_match self.rules normal))

-- A path is ignored when a built-in rule matches its normalized form, and else as the last of the
-- user's rules says that matches it; without one it is not ignored. A path that has no normalized
-- form is an error.
pub is_ignored-last :
    (self : IgnoreRules) (path : Bytes) → is_ignored self path ≡ (normalize path >>= by_last self)
unfolding is_ignored
is_ignored-last self path = bind_ext (normalize path) _ _ λ normal.
    ap (λ user. ok (any_of (λ rule. matches rule normal) self.defaults || user))
      (verdict-last self.rules normal false)

part_itself : IsMatch part_suffix part_suffix
part_itself = same refl (same refl (same refl (same refl (same refl done))))

part-IsMatch : (u : Bytes) → NoSlash u → IsMatch (b'*' ∷ part_suffix) (u ++ part_suffix)
part-IsMatch [] free = any_in_component [] part_suffix refl refl tt part_itself
part-IsMatch (c ∷ u) free = any_in_component (c ∷ u) part_suffix refl refl free part_itself

-- The rule `*.part` matches a path with a component that ends in `.part`.
part-matches :
    (u path : Bytes)
    → NoSlash u
    → any_of (bytes_eq (u ++ part_suffix)) (split b'/' path) ≡ true
    → matches (plain (b'*' ∷ part_suffix)) path ≡ true
unfolding matches
part-matches u path free h =
    any_of-implies (bytes_eq (u ++ part_suffix)) (glob_matches (b'*' ∷ part_suffix))
      (λ name e.
        subst (λ x. glob_matches (b'*' ∷ part_suffix) x ≡ true)
          (bytes_eq→eq (u ++ part_suffix) name e)
          ((glob_matches_iff (b'*' ∷ part_suffix) (u ++ part_suffix)).1 (part-IsMatch u free)))
      (split b'/' path) h

built_in-decides :
    (self : IgnoreRules) (path normal : Bytes)
    → normalize path ≡ ok normal
    → any_of (λ rule. matches rule normal) self.defaults ≡ true
    → is_ignored self path ≡ ok true
built_in-decides self path normal e hit =
    is_ignored-last self path
    ∙ ap (λ (r : Result Bytes). r >>= by_last self) e
    ∙ ap (λ b. ok (b || of_last false (last_match self.rules normal))) hit

any_of-first :
    (p : Rule → Bool) (rule : Rule) (rest : List Rule)
    → p rule ≡ true
    → any_of p (rule ∷ rest) ≡ true
any_of-first p rule rest e = ground arith

load-keeps_defaults :
    (self loaded : IgnoreRules) (text : Bytes)
    → load self text ≡ ok loaded
    → loaded.defaults ≡ self.defaults
unfolding load
load-keeps_defaults self loaded text h =
    let (_, _, e) = bind_ok (validate text) _ h in ground (arith, e)

-- Whatever rules are loaded, a path with a component that ends in `.part` is ignored.
pub part-ignored :
    (text path normal u : Bytes) (self : IgnoreRules)
    → load create text ≡ ok self
    → normalize path ≡ ok normal
    → NoSlash u
    → any_of (bytes_eq (u ++ part_suffix)) (split b'/' normal) ≡ true
    → is_ignored self path ≡ ok true
part-ignored text path normal u self loaded e free component = built_in-decides self path normal e (
    subst (λ rules. any_of (λ rule. matches rule normal) rules ≡ true)
      (sym (load-keeps_defaults create self text loaded))
      (any_of-first (λ rule. matches rule normal) (plain (b'*' ∷ part_suffix))
        (record (plain git_directory) { directory_only = true } ∷ plain rules_file ∷ [])
        (part-matches u normal free component)))
