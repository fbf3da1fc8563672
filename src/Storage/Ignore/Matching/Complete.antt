-- ===== src/Storage/Ignore/Matching/Complete.antt =====
-- GlobMatches of engine/storage/ignore_rules.cpp finds every path that matches the way it reads
-- patterns.
use veritas_sync_next.Prelude.{
  ℕ, zero, suc, ◌≤◌, Bool, true, false, ◌||◌, ◌≡◌, ◌↔◌, refl, sym, subst, inl, inr, some, [], ◌∷◌,
  ◌++◌, Bytes, any_of, length, ◌==◌, Bool-cases, Option-cases, arith,
}
use veritas_sync_next.Storage.Ignore.Texts.{first_is}
use veritas_sync_next.Storage.Ignore.Glob.{
  glob, glob_matches, match_character_class, stars, cut_at, suffixes, in_component,
}
use veritas_sync_next.Storage.Ignore.Splits.{
  suffixes_complete, after_slashes_complete, in_component_complete,
}
use veritas_sync_next.Storage.Ignore.Matching.{
  IsMatch, done, no_directory, some_directories, any_bytes, any_in_component, one, member, same,
}
use veritas_sync_next.Storage.Ignore.Matching.Sound.{glob_sound}

or_true : (a : Bool) {b : Bool} → b ≡ true → (a || b) ≡ true
or_true a e = ground arith

length-cut_at :
    (stop : ℕ) (s before after : Bytes)
    → cut_at stop s ≡ some (before, after)
    → length after ≤ length s
unfolding cut_at
length-cut_at stop [] before after h = absurd (cc h)
length-cut_at stop (b ∷ s) before after h = elim (Bool-cases (b == stop)) [
  | inl found ↦ ground (arith, h, found)
  | inr onward ↦ elim (Option-cases (cut_at stop s)) [
    | inl nowhere ↦ ground (arith, h, onward, nowhere)
    | inr ((first, last), e) ↦ ground (arith, h, onward, e, length-cut_at stop s first last e)
  ]
]

length-match_character_class :
    (p : Bytes) (c : ℕ) (next : Bytes)
    → match_character_class p c ≡ some next
    → length next ≤ length p
unfolding match_character_class
length-match_character_class p c next h = elim (Option-cases (cut_at b']' p)) [
  | inl nowhere ↦ ground (arith, h, nowhere)
  | inr ((members, after), e) ↦ ground (arith, h, e, length-cut_at b']' p members after e)
]

stars_deep :
    (onward : Bytes → Bytes → Bool) (p s : Bytes)
    → first_is b'/' p ≡ false
    → any_of (onward p) (suffixes s) ≡ true
    → stars onward (b'*' ∷ p) s ≡ true
stars_deep onward [] s g h = h
stars_deep onward (r ∷ p) s g h = rw g h

stars_single :
    (onward : Bytes → Bytes → Bool) (p : Bytes) (c : ℕ) (s : Bytes)
    → first_is b'*' p ≡ false
    → any_of (onward p) (in_component (c ∷ s)) ≡ true
    → stars onward p (c ∷ s) ≡ true
stars_single onward [] c s g h = h
stars_single onward (q ∷ []) c s g h = rw g h
stars_single onward (q ∷ r ∷ p) c s g h = rw g h

glob_complete : {p s : Bytes} (f : ℕ) → length p ≤ f → IsMatch p s → glob f p s ≡ true
unfolding glob
glob_complete f n done = refl
glob_complete zero n (no_directory d) = absurd (omega arith)
glob_complete (suc f) n (no_directory d) = ground (arith, glob_complete f (omega arith) d)
glob_complete zero n (some_directories u s e d) = absurd (omega arith)
glob_complete (suc f) n (some_directories u s e d) =
    rw e (
      or_true (glob f _ _)
        (after_slashes_complete (glob f _) u s (glob_complete f (omega arith) d)))
glob_complete zero n (any_bytes u s g e d) = absurd (omega arith)
glob_complete (suc f) n (any_bytes {p} {path} u s g e d) = rw e (
    stars_deep (glob f) p (u ++ s) g
      (suffixes_complete (glob f p) u s (glob_complete f (omega arith) d)))
glob_complete zero n (any_in_component u s g e free d) = absurd (omega arith)
glob_complete (suc f) n (any_in_component {p} {c} {path} u s g e free d) =
    stars_single (glob f) p c path g (
      subst (λ x. any_of (glob f p) (in_component x) ≡ true) (sym e)
        (in_component_complete (glob f p) u s free (glob_complete f (omega arith) d)))
glob_complete zero n (one free d) = absurd (omega arith)
glob_complete (suc f) n (one free d) = ground (arith, free, glob_complete f (omega arith) d)
glob_complete zero n (member inside free d) = absurd (omega arith)
glob_complete (suc f) n (member {p} {next} inside free d) = rw inside (
    ground (
      arith,
      free,
      glob_complete f (omega (arith, length-match_character_class p _ next inside)) d,
    ))
glob_complete zero n (same g d) = absurd (omega arith)
glob_complete (suc f) n (same {p} {c} {s} g d) = ground (arith, g, glob_complete f (omega arith) d)

-- The matcher answers true exactly on the paths that IsMatch describes: its fuel is enough for every
-- pattern.
pub glob_matches_iff : (p s : Bytes) → (glob_matches p s ≡ true) ↔ IsMatch p s
glob_matches_iff p s = (glob_sound (length p) p s, glob_complete (length p) (omega arith))
