-- ===== src/Storage/Ignore/Matching/Classes.antt =====
-- Which bytes a bracket class of an ignore rule has: MatchCharacterClass of
-- engine/storage/ignore_rules.cpp against a description of [abc], [a-z] and [!abc].
use veritas_sync_next.Prelude.{
  ℕ, ◌≡◌, refl, sym, ap, subst, ◌∙◌, inl, inr, Bool, true, false, ◌&&◌, Bytes, [], ◌∷◌, ◌++◌, some,
  All, ◌==◌, ==→eq, Bool-cases, Option-cases, arith,
}
use veritas_sync_next.Storage.Ignore.Texts.{first_is}
use veritas_sync_next.Storage.Ignore.Glob.{
  char_leb, cut_at, in_class, class_matches, match_character_class,
}

-- A hyphen with a byte after it.
abbrev starts_range : Bytes → Bool
starts_range [] = false
starts_range (d ∷ []) = false
starts_range (d ∷ b ∷ s) = d == b'-'

-- The members of a class without `!`: ranges, and single bytes that begin no range.
pub data InSet : Bytes → ℕ → Type 0 where
  in_range :
      {a b c : ℕ} {s : Bytes}
      → char_leb a c ≡ true
      → char_leb c b ≡ true
      → InSet (a ∷ b'-' ∷ b ∷ s) c
  past_range : {a b c : ℕ} {s : Bytes} → InSet s c → InSet (a ∷ b'-' ∷ b ∷ s) c
  single : {a c : ℕ} {s : Bytes} → starts_range s ≡ false → (c == a) ≡ true → InSet (a ∷ s) c
  past_single : {a c : ℕ} {s : Bytes} → starts_range s ≡ false → InSet s c → InSet (a ∷ s) c

-- A class that begins with `!` has the other bytes.
pub data ClassHas : Bytes → ℕ → Type 0 where
  includes : {m : Bytes} {c : ℕ} → first_is b'!' m ≡ false → InSet m c → ClassHas m c
  excludes : {m : Bytes} {c : ℕ} → ¬ InSet m c → ClassHas (b'!' ∷ m) c

in_class-InSet : {m : Bytes} {c : ℕ} → InSet m c → in_class m c ≡ true
unfolding in_class
in_class-InSet (in_range low high) = ground (arith, low, high)
in_class-InSet (past_range rest) = ground (arith, in_class-InSet rest)
in_class-InSet (single {a = a} {c = c} {s = []} begins same) = same
in_class-InSet (single {a = a} {c = c} {s = d ∷ []} begins same) = ground (arith, same)
in_class-InSet (single {a = a} {c = c} {s = d ∷ b ∷ s} begins same) = ground (arith, begins, same)
in_class-InSet (past_single {a = a} {c = c} {s = []} begins rest) =
    absurd (cc (in_class-InSet rest))
in_class-InSet (past_single {a = a} {c = c} {s = d ∷ []} begins rest) =
    ground (arith, in_class-InSet rest)
in_class-InSet (past_single {a = a} {c = c} {s = d ∷ b ∷ s} begins rest) =
    ground (arith, begins, in_class-InSet rest)

InSet-in_class : (m : Bytes) (c : ℕ) → in_class m c ≡ true → InSet m c
unfolding in_class
InSet-in_class [] c h = absurd (cc h)
InSet-in_class (a ∷ []) c h = single refl h
InSet-in_class (a ∷ d ∷ []) c h = elim (Bool-cases (c == a)) [
  | inl same ↦ single refl same
  | inr other ↦ past_single refl (single refl (ground (arith, h, other)))
]
InSet-in_class (a ∷ d ∷ b ∷ s) c h = elim (Bool-cases (d == b'-')) [
  | inl hyphen ↦
      subst (λ x. InSet (a ∷ x ∷ b ∷ s) c) (sym (==→eq d b'-' hyphen))
        (elim (Bool-cases (char_leb a c && char_leb c b)) [
          | inl between ↦ in_range (ground (arith, between)) (ground (arith, between))
          | inr beside ↦ past_range (InSet-in_class s c (ground (arith, h, hyphen, beside)))
        ])
  | inr alone ↦ elim (Bool-cases (c == a)) [
    | inl same ↦ single alone same
    | inr other ↦ past_single alone (InSet-in_class (d ∷ b ∷ s) c (ground (arith, h, alone, other)))
  ]
]

class_matches-ClassHas : {m : Bytes} {c : ℕ} → ClassHas m c → class_matches m c ≡ true
unfolding in_class
class_matches-ClassHas (includes {m = []} plain inside) = absurd (cc (in_class-InSet inside))
class_matches-ClassHas (includes {m = b ∷ m} plain inside) = rw plain (in_class-InSet inside)
class_matches-ClassHas (excludes {m} {c} outside) = elim (Bool-cases (in_class m c)) [
  | inl hit ↦ absurd (outside (InSet-in_class m c hit))
  | inr miss ↦ rw miss refl
]

ClassHas-class_matches : (m : Bytes) (c : ℕ) → class_matches m c ≡ true → ClassHas m c
ClassHas-class_matches [] c h = absurd (cc h)
ClassHas-class_matches (b ∷ m) c h = elim (Bool-cases (b == b'!')) [
  | inl bang ↦
      subst (λ x. ClassHas (x ∷ m) c) (sym (==→eq b b'!' bang))
        (excludes (λ inside. cc (in_class-InSet inside, the_rest bang)))
  | inr plain ↦ includes plain (InSet-in_class (b ∷ m) c (rw plain at h))
]
  where
    the_rest : (b == b'!') ≡ true → in_class m c ≡ false
    the_rest bang = ground (arith, h, bang)

-- The bytes before the closing bracket.
abbrev pub NoClose : Bytes → Type 0
NoClose m = All (λ b. (b == b']') ≡ false) m

cut_at-close : (m s : Bytes) → NoClose m → cut_at b']' (m ++ b']' ∷ s) ≡ some (m, s)
unfolding cut_at
cut_at-close [] s h = ground arith
cut_at-close (b ∷ m) s (other, rest) = rw (other, cut_at-close m s rest) refl

at_close :
    (b : ℕ) (p m s : Bytes)
    → (b == b']') ≡ true
    → m ≡ []
    → s ≡ p
    → (b ∷ p ≡ m ++ b']' ∷ s) × NoClose m
at_close b p m s stop none_before rest =
    rw (none_before, rest) (ap (λ x. x ∷ p) (==→eq b b']' stop), tt)

close-cut_at : (p m s : Bytes) → cut_at b']' p ≡ some (m, s) → (p ≡ m ++ b']' ∷ s) × NoClose m
unfolding cut_at
close-cut_at [] m s h = absurd (cc h)
close-cut_at (b ∷ p) m s h = elim (Bool-cases (b == b']')) [
  | inl stop ↦ at_close b p m s stop (ground (arith, h, stop)) (ground (arith, h, stop))
  | inr onward ↦ elim (Option-cases (cut_at b']' p)) [
    | inl nowhere ↦ absurd (ground (arith, h, onward, nowhere))
    | inr ((first, last), e) ↦
        let (rest, free) = close-cut_at p first last e in
        let here : m ≡ b ∷ first = ground (arith, h, onward, e) in
        let same : s ≡ last = ground (arith, h, onward, e) in
        rw (here, same) (ap (◌∷◌ b) rest, (onward, free))
  ]
]

pub match_character_class-ClassHas :
    (m next : Bytes) (c : ℕ)
    → NoClose m
    → ClassHas m c
    → match_character_class (m ++ b']' ∷ next) c ≡ some next
unfolding match_character_class
match_character_class-ClassHas m next c closed has =
    ground (arith, cut_at-close m next closed, class_matches-ClassHas has)

pub ClassHas-match_character_class :
    (p next : Bytes) (c : ℕ)
    → match_character_class p c ≡ some next
    → (m : Bytes) × (p ≡ m ++ b']' ∷ next) × NoClose m × ClassHas m c
unfolding match_character_class
ClassHas-match_character_class p next c h = elim (Option-cases (cut_at b']' p)) [
  | inl nowhere ↦ absurd (ground (arith, h, nowhere))
  | inr ((m, after), e) ↦
      let (shape, closed) = close-cut_at p m after e in
      let has : class_matches m c ≡ true = ground (arith, h, e) in
      let same : after ≡ next = ground (arith, h, e) in
      (m, shape ∙ ap (λ x. m ++ b']' ∷ x) same, closed, ClassHas-class_matches m c has)
]
