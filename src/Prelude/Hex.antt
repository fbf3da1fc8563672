-- ===== src/Prelude/Hex.antt =====
-- Bytes as two hexadecimal digits each, as engine/storage/ignore_policy.cpp and
-- engine/sync/one_way_sync.cpp write hashes.
use Prim.Native.Nat.{ℕ, ◌*◌, ◌/◌, ◌%◌}
use mathlib.Core.Path.{◌≡◌}
use mathlib.Core.List.{[], ◌∷◌}
use native.Mathlib.Omega.{arith}
use veritas_sync_next.Prelude.Lists.{length, get_or}
use veritas_sync_next.Prelude.ByteStrings.{Bytes}

-- "0123456789abcdef"
abbrev pub hex_digits : Bytes
hex_digits =
    b'0' ∷ b'1' ∷ b'2' ∷ b'3' ∷ b'4' ∷ b'5' ∷ b'6' ∷ b'7' ∷ b'8' ∷ b'9' ∷ b'a' ∷ b'b' ∷ b'c' ∷ b'd'
    ∷ b'e' ∷ b'f' ∷ []

unfoldable pub hex_digit : ℕ → ℕ
hex_digit n = get_or hex_digits n 0

-- `byte >> 4` and `byte & 0x0F`
unfoldable pub to_hex : Bytes → Bytes
unfolding hex_digit
to_hex [] = []
to_hex (b ∷ s) = hex_digit (b / 16) ∷ hex_digit (b % 16) ∷ to_hex s

pub length-to_hex : (s : Bytes) → length (to_hex s) ≡ 2 * length s
unfolding to_hex
length-to_hex [] = omega arith
length-to_hex (b ∷ s) = omega (arith, length-to_hex s)
