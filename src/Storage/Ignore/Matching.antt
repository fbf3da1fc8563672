-- ===== src/Storage/Ignore/Matching.antt =====
-- What it means for a path to match a pattern the way engine/storage/ignore_rules.cpp reads it, with
-- no search order in it; Documented is the same by the documentation.
pub mod Sound
pub mod Classes
pub mod Complete
pub mod Documented
use veritas_sync_next.Prelude.{Bool, false, ◌||◌, ◌≡◌, ℕ, some, [], ◌∷◌, ◌++◌, Bytes, ◌==◌}
use veritas_sync_next.Storage.Ignore.Texts.{first_is}
use veritas_sync_next.Storage.Ignore.Glob.{match_character_class}
use veritas_sync_next.Storage.Ignore.Splits.{NoSlash}

abbrev pub wild : ℕ → Bool
wild p = p == b'*' || p == b'?' || p == b'['

-- A pattern that goes on with `*` is not a single star, and one that goes on with `/` after two
-- stars is not a double star.
pub data IsMatch : Bytes → Bytes → Type 0 where
  done : IsMatch [] []
  no_directory : {p s : Bytes} → IsMatch p s → IsMatch (b'*' ∷ b'*' ∷ b'/' ∷ p) s
  some_directories :
      {p path : Bytes} (u s : Bytes)
      → path ≡ u ++ b'/' ∷ s
      → IsMatch p s
      → IsMatch (b'*' ∷ b'*' ∷ b'/' ∷ p) path
  any_bytes :
      {p path : Bytes} (u s : Bytes)
      → first_is b'/' p ≡ false
      → path ≡ u ++ s
      → IsMatch p s
      → IsMatch (b'*' ∷ b'*' ∷ p) path
  any_in_component :
      {p : Bytes} {c : ℕ} {path : Bytes} (u s : Bytes)
      → first_is b'*' p ≡ false
      → c ∷ path ≡ u ++ s
      → NoSlash u
      → IsMatch p s
      → IsMatch (b'*' ∷ p) (c ∷ path)
  one :
      {p : Bytes} {c : ℕ} {s : Bytes}
      → (c == b'/') ≡ false
      → IsMatch p s
      → IsMatch (b'?' ∷ p) (c ∷ s)
  member :
      {p next : Bytes} {c : ℕ} {s : Bytes}
      → match_character_class p c ≡ some next
      → (c == b'/') ≡ false
      → IsMatch next s
      → IsMatch (b'[' ∷ p) (c ∷ s)
  same : {p : Bytes} {c : ℕ} {s : Bytes} → wild c ≡ false → IsMatch p s → IsMatch (c ∷ p) (c ∷ s)
