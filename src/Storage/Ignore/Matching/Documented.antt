-- ===== src/Storage/Ignore/Matching/Documented.antt =====
-- The patterns that docs/IGNORE_RULES.md describes against GlobMatches of
-- engine/storage/ignore_rules.cpp, which differs from it in one case.
use veritas_sync_next.Prelude.{ℕ, ◌≡◌, ◌⊎◌, false, Bytes, [], ◌∷◌, ◌++◌, ◌==◌}
use veritas_sync_next.Storage.Ignore.Texts.{first_is}
use veritas_sync_next.Storage.Ignore.Splits.{NoSlash}
use veritas_sync_next.Storage.Ignore.Matching.{IsMatch, wild}
use veritas_sync_next.Storage.Ignore.Matching.Classes.{NoClose, ClassHas}

-- `*` stands for any run of bytes of one component, the empty run included; two stars stand for any
-- bytes, and with a slash for any directories or none; `?` and a class stand for one byte that is
-- no slash; every other byte stands for itself.
pub data DocMatch : Bytes → Bytes → Type 0 where
  nothing : DocMatch [] []
  zero_directories : {p s : Bytes} → DocMatch p s → DocMatch (b'*' ∷ b'*' ∷ b'/' ∷ p) s
  directories_of :
      {p path : Bytes} (u s : Bytes)
      → path ≡ u ++ b'/' ∷ s
      → DocMatch p s
      → DocMatch (b'*' ∷ b'*' ∷ b'/' ∷ p) path
  anything :
      {p path : Bytes} (u s : Bytes)
      → first_is b'/' p ≡ false
      → path ≡ u ++ s
      → DocMatch p s
      → DocMatch (b'*' ∷ b'*' ∷ p) path
  run :
      {p path : Bytes} (u s : Bytes)
      → first_is b'*' p ≡ false
      → path ≡ u ++ s
      → NoSlash u
      → DocMatch p s
      → DocMatch (b'*' ∷ p) path
  any_byte :
      {p : Bytes} {c : ℕ} {s : Bytes}
      → (c == b'/') ≡ false
      → DocMatch p s
      → DocMatch (b'?' ∷ p) (c ∷ s)
  of_set :
      {pattern p : Bytes} {c : ℕ} {s : Bytes} (m : Bytes)
      → pattern ≡ m ++ b']' ∷ p
      → NoClose m
      → ClassHas m c
      → (c == b'/') ≡ false
      → DocMatch p s
      → DocMatch (b'[' ∷ pattern) (c ∷ s)
  itself :
      {p : Bytes} {c : ℕ} {s : Bytes} → wild c ≡ false → DocMatch p s → DocMatch (c ∷ p) (c ∷ s)

-- What is short of a star: a pattern with a star behind one that matches.
abbrev ShortOfStar : Bytes → Bytes → Type 0
ShortOfStar p s = (q : Bytes) × (p ≡ q ++ b'*' ∷ []) × IsMatch q s

abbrev Close : Bytes → Bytes → Type 0
Close p s = IsMatch p s ⊎ ShortOfStar p s
