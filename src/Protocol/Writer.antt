-- ===== src/Protocol/Writer.antt =====
-- class Writer of engine/common/protocol.cpp. A `Put` is what one call appends, or what it throws;
-- `⊕` is two calls one after the other.
use veritas_sync_next.Prelude.{
  ℕ, zero, suc, ◌/◌, ◌%◌, Bytes, Result, ok, ◌>>=◌, invalid_argument, err, [], ◌∷◌, ◌++◌, length,
  ltb, if◌then◌else◌, List,
}

abbrev pub Put : Type 0
Put = Result Bytes

infixr 60 ◌⊕◌
abbrev pub ◌⊕◌ : Put → Put → Put
p ⊕ q = p >>= λ a. q >>= λ b. ok (a ++ b)

-- `Int`: the low byte first, `n` bytes.
unfoldable pub le_bytes : ℕ → ℕ → Bytes
le_bytes zero v = []
le_bytes (suc n) v = (v % 256) ∷ le_bytes n (v / 256)

unfoldable pub put_u8 : ℕ → Put
put_u8 v = ok (v ∷ [])

unfoldable pub put_int : ℕ → ℕ → Put
put_int width v = ok (le_bytes width v)

unfoldable pub put_bytes : Bytes → Put
put_bytes s = ok s

-- `String`: a 16-bit length, then the bytes.
unfoldable pub put_string : Bytes → Put
unfolding put_int
put_string s =
    if ltb 65535 (length s)
    then err (invalid_argument "string too long")
    else (put_int 2 (length s % 65536) ⊕ ok s)

-- A range-for that writes one element after the other.
unfoldable pub put_each {ℓ} : {A : Type ℓ} → (A → Put) → List A → Put
put_each f [] = ok []
put_each f (x ∷ xs) = f x ⊕ put_each f xs
