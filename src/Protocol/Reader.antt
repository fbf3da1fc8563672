-- ===== src/Protocol/Reader.antt =====
-- class Reader of engine/common/protocol.cpp. The state is what stands behind `position_`.
use veritas_sync_next.Prelude.{
  ℕ, zero, suc, ◌*◌, ◌+◌, Bytes, Result, ok, err, Error, invalid_argument, [], ◌∷◌, List, length,
  ltb, if◌then◌else◌, take, drop, Bool, true, false,
}

abbrev pub Reader {ℓ} : Type ℓ → Type ℓ
Reader A = Bytes → Result (A × Bytes)

infixl 5 ◌>>=◌ ◌>>◌
abbrev pub ◌>>=◌ {ℓ κ} : {A : Type ℓ} {B : Type κ} → Reader A → (A → Reader B) → Reader B
◌>>=◌ m f s = elim (m s) [ ok (a, s') ↦ f a s' | err e ↦ err e ]

abbrev pub ◌>>◌ {ℓ κ} : {A : Type ℓ} {B : Type κ} → Reader A → Reader B → Reader B
m >> k = m >>= λ _. k

abbrev pub pure {ℓ} : {A : Type ℓ} → A → Reader A
pure a s = ok (a, s)

-- `if (b) throw e;`
abbrev pub forbid : Bool → Error → Reader (Unit {0})
forbid true e s = err e
forbid false e s = ok (tt, s)

-- `Need`, and what follows it: `count` bytes, or "truncated payload".
unfoldable pub read_bytes : ℕ → Reader Bytes
read_bytes count s =
    if ltb (length s) count
    then err (invalid_argument "truncated payload")
    else ok (take count s, drop count s)

-- The bits of `byte << (i * 8)` are free in the sum so far, so `|=` adds.
unfoldable pub le_value : Bytes → ℕ
le_value [] = 0
le_value (b ∷ bs) = b + 256 * le_value bs

unfoldable pub read_u8 : Reader ℕ
read_u8 [] = err (invalid_argument "truncated payload")
read_u8 (b ∷ s) = ok (b, s)

-- `Int` of `width` bytes.
unfoldable pub read_int : ℕ → Reader ℕ
read_int width = do bs ← read_bytes width; pure (le_value bs)

-- `String`: a 16-bit length, then the bytes.
unfoldable pub read_string : Reader Bytes
read_string = do n ← read_int 2; read_bytes n

unfoldable pub finish : Reader (Unit {0})
finish [] = ok (tt, [])
finish (b ∷ s) = err (invalid_argument "trailing bytes")

-- A counted loop that reads one element after the other.
unfoldable pub read_each {ℓ} : {A : Type ℓ} → Reader A → ℕ → Reader (List A)
read_each g zero = pure []
read_each g (suc n) = do x ← g; xs ← read_each g n; pure (x ∷ xs)

-- A decoder runs its reader over the whole payload.
unfoldable pub run {ℓ} : {A : Type ℓ} → Reader A → Bytes → Result A
run g s = elim (g s) [ ok (a, _) ↦ ok a | err e ↦ err e ]
