-- ===== src/Storage/Ignore/Matching/Sound.antt =====
-- A path that GlobMatches of engine/storage/ignore_rules.cpp accepts matches the pattern.
use veritas_sync_next.Prelude.{
  Option, ℕ, zero, suc, Bool, true, false, not, ◌&&◌, ◌≡◌, refl, sym, ap, subst, ◌∙◌, inl, inr,
  none, some, [], ◌∷◌, Bytes, any_of, ◌==◌, Bool-cases, Option-cases, and_true, ==→eq, arith,
  if◌then◌else◌,
}
use veritas_sync_next.Storage.Ignore.Texts.{first_is}
use veritas_sync_next.Storage.Ignore.Glob.{
  of_class, glob, match_character_class, stars, star, directories, class, one_byte, same_byte,
  one_of_them, suffixes,
}
use veritas_sync_next.Storage.Ignore.Splits.{
  suffixes_sound, after_slashes_sound, in_component_sound,
}
use veritas_sync_next.Storage.Ignore.Matching.{
  IsMatch, done, no_directory, some_directories, any_bytes, any_in_component, one, member, same,
  wild,
}

and_right_false : (a : Bool) {b : Bool} → b ≡ false → (a && b) ≡ false
and_right_false a e = ground arith

both : {a b : Bool} → a ≡ true → b ≡ true → (a && b) ≡ true
both e g = ground arith

-- A call of GlobMatches is right for the patterns that a shorter fuel is enough for.
abbrev Sound : (Bytes → Bytes → Bool) → Type 0
Sound onward = (p s : Bytes) → onward p s ≡ true → IsMatch p s

module _ (onward : Bytes → Bytes → Bool) (ih : Sound onward) where
  star_sound :
      (p s : Bytes) → first_is b'*' p ≡ false → star (onward p) s ≡ true → IsMatch (b'*' ∷ p) s
  star_sound p [] n h = absurd (cc h)
  star_sound p (c ∷ s) n h =
      let (u, v, e, free, hit) = in_component_sound (onward p) (c ∷ s) h in
      any_in_component u v n e free (ih p v hit)

  deep_sound :
      (p s : Bytes)
      → first_is b'/' p ≡ false
      → any_of (onward p) (suffixes s) ≡ true
      → IsMatch (b'*' ∷ b'*' ∷ p) s
  deep_sound p s n h =
      let (u, v, e, _, hit) = suffixes_sound (onward p) s h in any_bytes u v n e (ih p v hit)

  directories_sound :
      (p s : Bytes) → directories (onward p) s ≡ true → IsMatch (b'*' ∷ b'*' ∷ b'/' ∷ p) s
  directories_sound p s h = elim (Bool-cases (onward p s)) [
    | inl hit ↦ no_directory (ih p s hit)
    | inr miss ↦
        let (u, v, e, hit) = after_slashes_sound (onward p) s (ground (arith, h)) in
        some_directories u v e (ih p v hit)
  ]

  -- Two stars before a byte that is no slash, or one before a byte that is no star.
  some_stars_sound :
      (q : ℕ) (ps s : Bytes)
      → first_is b'/' ps ≡ false
      → (if q == b'*' then any_of (onward ps) (suffixes s) else star (onward (q ∷ ps)) s) ≡ true
      → IsMatch (b'*' ∷ q ∷ ps) s
  some_stars_sound q ps s n h = elim (Bool-cases (q == b'*')) [
    | inl two ↦
        subst (λ x. IsMatch (b'*' ∷ x ∷ ps) s) (sym (==→eq q b'*' two))
          (deep_sound ps s n (rw two at h))
    | inr single ↦ star_sound (q ∷ ps) s single (rw single at h)
  ]

  stars_sound : (ps s : Bytes) → stars onward ps s ≡ true → IsMatch (b'*' ∷ ps) s
  stars_sound [] s h = star_sound [] s refl h
  stars_sound (q ∷ []) s h = some_stars_sound q [] s refl h
  stars_sound (q ∷ r ∷ rest) s h = elim (Bool-cases (r == b'/')) [
    | inr other ↦
        some_stars_sound q (r ∷ rest) s other (rw (and_right_false (q == b'*') other) at h)
    | inl slash ↦ elim (Bool-cases (q == b'*')) [
      | inl two ↦
          subst (λ x. IsMatch (b'*' ∷ x ∷ r ∷ rest) s) (sym (==→eq q b'*' two))
            (subst (λ x. IsMatch (b'*' ∷ b'*' ∷ x ∷ rest) s) (sym (==→eq r b'/' slash))
              (directories_sound rest s (rw (both two slash) at h)))
      | inr single ↦ star_sound (q ∷ r ∷ rest) s single (ground (arith, h))
    ]
  ]

  class_step :
      (ps : Bytes) (c : ℕ) (s : Bytes) (found : Option Bytes)
      → match_character_class ps c ≡ found
      → of_class onward c s found ≡ class ps onward (c ∷ s)
  class_step ps c s found e = ap (of_class onward c s) (sym e)

  member_sound :
      (ps : Bytes) (c : ℕ) (s : Bytes)
      → class ps onward (c ∷ s) ≡ true
      → IsMatch (b'[' ∷ ps) (c ∷ s)
  member_sound ps c s h = elim (Option-cases (match_character_class ps c)) [
    | inl outside ↦ absurd (cc (class_step ps c s none outside, h))
    | inr (next, inside) ↦
        let (free, hit) =
          and_true (not (c == b'/')) (onward next s) (class_step ps c s (some next) inside ∙ h) in
        member inside (ground (arith, free)) (ih next s hit)
  ]

  class_sound : (ps s : Bytes) → class ps onward s ≡ true → IsMatch (b'[' ∷ ps) s
  class_sound ps [] h = absurd (cc h)
  class_sound ps (c ∷ s) h = member_sound ps c s h

  one_sound : (ps s : Bytes) → one_byte (onward ps) s ≡ true → IsMatch (b'?' ∷ ps) s
  one_sound ps [] h = absurd (cc h)
  one_sound ps (c ∷ s) h =
      let (free, hit) = and_true (not (c == b'/')) (onward ps s) h in
      one (ground (arith, free)) (ih ps s hit)

  same_sound :
      (p : ℕ) (ps s : Bytes)
      → wild p ≡ false
      → same_byte p (onward ps) s ≡ true
      → IsMatch (p ∷ ps) s
  same_sound p ps [] n h = absurd (cc h)
  same_sound p ps (c ∷ s) n h =
      let (e, hit) = and_true (p == c) (onward ps s) h in
      subst (λ x. IsMatch (p ∷ ps) (x ∷ s)) (==→eq p c e) (same n (ih ps s hit))

  others_sound :
      (p : ℕ) (ps s : Bytes)
      → (p == b'*') ≡ false
      → one_of_them onward p ps s ≡ true
      → IsMatch (p ∷ ps) s
  others_sound p ps s n h = elim (Bool-cases (p == b'?')) [
    | inl any ↦
        subst (λ x. IsMatch (x ∷ ps) s) (sym (==→eq p b'?' any)) (one_sound ps s (rw any at h))
    | inr particular ↦ elim (Bool-cases (p == b'[')) [
      | inl bracket ↦
          subst (λ x. IsMatch (x ∷ ps) s) (sym (==→eq p b'[' bracket))
            (class_sound ps s (rw (particular, bracket) at h))
      | inr literal ↦
          same_sound p ps s (ground (arith, n, particular, literal)) (rw (particular, literal) at h)
    ]
  ]

pub glob_sound : (f : ℕ) (p s : Bytes) → glob f p s ≡ true → IsMatch p s
unfolding glob
glob_sound f [] [] h = done
glob_sound f [] (c ∷ s) h = absurd (cc h)
glob_sound zero (p ∷ ps) s h = absurd (cc h)
glob_sound (suc f) (p ∷ ps) s h = elim (Bool-cases (p == b'*')) [
  | inl wildcard ↦
      subst (λ x. IsMatch (x ∷ ps) s) (sym (==→eq p b'*' wildcard))
        (stars_sound (glob f) (glob_sound f) ps s (rw wildcard at h))
  | inr other ↦ others_sound (glob f) (glob_sound f) p ps s other (rw other at h)
]
