-- ===== src/Sync/OneWay/Hashes.antt =====
-- EncodeHash, DecodeHash and ChunkCount of engine/sync/one_way_sync.cpp.
use veritas_sync_next.Prelude.{
  ◌≤◌, Bool-cases, ==→eq, subst, sym, inl, inr, ℕ, zero, suc, ◌+◌, ◌-◌, ◌*◌, ◌/◌, ◌%◌, ◌<◌, ◌≡◌,
  refl, not, ◌&&◌, Bytes, Result, ok, err, invalid_argument, bind_to, arith, [], ◌∷◌, length,
  to_hex, length-to_hex, hex_digit, forbid, ◌>>=◌, ◌>>◌, leb, ◌==◌, if◌then◌else◌, All, ◌∙◌, ap,
}
use veritas_sync_next.Protocol.Types.{logical_chunk_size}

-- Two digits for each byte.
abbrev pub encode_hash : Bytes → Bytes
encode_hash hash = to_hex hash

unfoldable pub decode_hex_digit : ℕ → Result ℕ
decode_hex_digit c =
    if leb b'0' c && leb c b'9'
    then ok (c - b'0')
    else if leb b'a' c && leb c b'f'
    then ok (c - b'a' + 10)
    else if leb b'A' c && leb c b'F'
    then ok (c - b'A' + 10)
    else err (invalid_argument "manifest content hash is not hexadecimal")

-- The loop over the bytes of the result, on a text of even length.
unfoldable pub decode_pairs : Bytes → Result Bytes
unfolding decode_hex_digit
decode_pairs [] = ok []
decode_pairs (h ∷ []) = ok []
decode_pairs (h ∷ l ∷ rest) = do
  high ← decode_hex_digit h
  low ← decode_hex_digit l
  bytes ← decode_pairs rest
  ok ((high * 16 + low) ∷ bytes)

unfoldable pub decode_hash : Bytes → Result Bytes
unfolding decode_pairs
decode_hash value = do
  forbid (not (length value == 64)) (invalid_argument "manifest content hash has invalid length")
  decode_pairs value

unfoldable pub chunk_count : ℕ → ℕ
chunk_count size =
    if size == 0
    then 0
    else (size + logical_chunk_size - 1) % 18446744073709551616 / logical_chunk_size

-- A property of the numbers from `start` on, `k` of them.
abbrev Run : (ℕ → Type 0) → ℕ → ℕ → Type 0
Run P start zero = Unit
Run P start (suc k) = P start × Run P (start + 1) k

in_run : (P : ℕ → Type 0) (k start n : ℕ) → Run P start k → start ≤ n → n < start + k → P n
in_run P zero start n all low high = absurd (omega arith)
in_run P (suc k) start n all low high = elim (Bool-cases (n == start)) [
  | inl same ↦ subst P (sym (==→eq n start same)) all.0
  | inr other ↦ in_run P k (start + 1) n all.1 (ground (arith, other)) (omega arith)
]

decode-hex_digit : (n : ℕ) → n < 16 → decode_hex_digit (hex_digit n) ≡ ok n
unfolding decode_hex_digit hex_digit
decode-hex_digit n h =
    in_run (λ k. decode_hex_digit (hex_digit k) ≡ ok k) 16 0 n (ground arith) (omega arith) h

decode_pairs-to_hex : (s : Bytes) → All (λ b. b < 256) s → decode_pairs (to_hex s) ≡ ok s
unfolding decode_pairs to_hex
decode_pairs-to_hex [] h = refl
decode_pairs-to_hex (b ∷ s) h =
    bind_to (decode_hex_digit (hex_digit (b / 16))) _
      (decode-hex_digit (b / 16) (omega (arith, h.0)))
    ∙ bind_to (decode_hex_digit (hex_digit (b % 16))) _ (decode-hex_digit (b % 16) (omega arith))
    ∙ bind_to (decode_pairs (to_hex s)) _ (decode_pairs-to_hex s h.1)
    ∙ ap (λ x. ok (x ∷ s)) (omega arith)

-- A hash of 32 bytes is read back from its hexadecimal digits.
pub decode-encode_hash :
    (hash : Bytes)
    → length hash ≡ 32
    → All (λ b. b < 256) hash
    → decode_hash (encode_hash hash) ≡ ok hash
unfolding decode_hash
decode-encode_hash hash size small =
    bind_to (forbid (not (length (to_hex hash) == 64)) _) _
      (ground (arith, length-to_hex hash, size))
    ∙ decode_pairs-to_hex hash small
