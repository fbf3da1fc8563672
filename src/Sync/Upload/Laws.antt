-- ===== src/Sync/Upload/Laws.antt =====
-- The chunks that a source reads are those that a receiver of the same file takes.
use veritas_sync_next.Prelude.{
  ◌≤◌, ◌%◌, true, false, length-take, length-drop, subst, sym, ap, ◌∙◌, bytes_eq_refl, bytes_eq,
  get_or, ℕ, ◌+◌, ◌-◌, ◌*◌, ◌/◌, ◌<◌, ◌≡◌, min, Bytes, ok, length, take, drop, arith,
}
use veritas_sync_next.Protocol.Types.{Chunk, logical_chunk_size}
use veritas_sync_next.Sync.Download.{
  written_partial, mark_if, chunks_of, chunk_length, accept_chunk, accepted_chunk, write_partial,
  Session,
}
use veritas_sync_next.Sync.Upload.{ChunkSource, read_chunk}

piece-length :
    (content bytes : Bytes) (offset : ℕ)
    → bytes ≡ take (min logical_chunk_size (length content - offset)) (drop offset content)
    → length bytes ≡ min logical_chunk_size (length content - offset)
piece-length content bytes offset e =
    ap length e
    ∙ length-take (min logical_chunk_size (length content - offset)) (drop offset content)
    ∙ rw (length-drop offset content) (omega arith)

chunk_length-before :
    (size offset n : ℕ)
    → n ≡ min logical_chunk_size (size - offset)
    → offset < size
    → n ≡ chunk_length size offset
chunk_length-before size offset n e h = ground (arith, e, h)

module _ (blake3 : Bytes → Bytes) where
  read_chunk-cases :
      (source : ChunkSource) (content : Bytes) (index : ℕ) (c : Chunk)
      → read_chunk blake3 source content index ≡ ok c
      → (index < (length content + logical_chunk_size - 1) / logical_chunk_size)
        × (c.offset ≡ index * logical_chunk_size)
        × (c.chunk_hash ≡ blake3 c.bytes)
        × (c.bytes
            ≡ take
                (min logical_chunk_size (length content - index * logical_chunk_size))
                (drop (index * logical_chunk_size) content))
  unfolding read_chunk
  read_chunk-cases source content index c e = ground arith

  accept_fresh :
      (s : Session) (index offset : ℕ) (bytes hash : Bytes) (time : ℕ)
      → s.receiver.cancelled ≡ false
      → index < s.receiver.chunk_count
      → offset ≡ (index * logical_chunk_size) % 18446744073709551616
      → length bytes ≡ chunk_length s.receiver.expected_size offset
      → bytes_eq (blake3 bytes) hash ≡ true
      → get_or s.receiver.accepted index false ≡ false
      → offset ≤ 9223372036854775807
      → length bytes ≤ 18446744073709551615 - offset
      → accept_chunk blake3 s index offset bytes hash time false
        ≡ ok (
          true,
          accepted_chunk s index bytes s.db
              (written_partial s.disk s.receiver.relative_path offset bytes),
        )
  unfolding accept_chunk mark_if write_partial
  accept_fresh s index offset bytes hash time h1 h2 h3 h4 h5 h6 h7 h8 =
      ground (arith, h1, h2, h3, h4, h5, h6, h7, h8)

  chunk_fits :
      (size index offset : ℕ)
      → size < 9223372036854775808
      → index < (size + logical_chunk_size - 1) / logical_chunk_size
      → offset ≡ index * logical_chunk_size
      → (index < chunks_of size)
        × (offset ≡ (index * logical_chunk_size) % 18446744073709551616)
        × (offset < size)
  chunk_fits size index offset small h e =
      (ground (arith, h), ground (arith, small, h, e), ground (arith, h, e))

  -- What the uploading side reads of a file, the downloading side takes: a chunk that the source
  -- reads of a file below 2 ^ 63 bytes is accepted by a receiver that waits for a file of that size
  -- and has not got the chunk, and its bytes are those of the file at the chunk's offset.
  pub read_chunk-accept_chunk :
      (source : ChunkSource) (content : Bytes) (index : ℕ) (c : Chunk) (s : Session) (time : ℕ)
      → length content < 9223372036854775808
      → read_chunk blake3 source content index ≡ ok c
      → s.receiver.expected_size ≡ length content
      → s.receiver.chunk_count ≡ chunks_of (length content)
      → s.receiver.cancelled ≡ false
      → get_or s.receiver.accepted index false ≡ false
      → (accept_chunk blake3 s index c.offset c.bytes c.chunk_hash time false
          ≡ ok (
            true,
            accepted_chunk s index c.bytes s.db
                (written_partial s.disk s.receiver.relative_path c.offset c.bytes),
          ))
        × (c.bytes ≡ take (length c.bytes) (drop c.offset content))
  read_chunk-accept_chunk source content index c s time small e size count live fresh =
      let (inside, offset, hashed, bytes) = read_chunk-cases source content index c e in
      let (below, wrapped, before) =
        chunk_fits (length content) index c.offset small inside offset in
      let piece : c.bytes
          ≡ take (min logical_chunk_size (length content - c.offset)) (drop c.offset content) =
        bytes
        ∙ ap (λ o. take (min logical_chunk_size (length content - o)) (drop o content))
            (sym offset) in
      let long = piece-length content c.bytes c.offset piece in
      (
        accept_fresh s index c.offset c.bytes c.chunk_hash time live (omega (arith, below, count))
            wrapped
            (chunk_length-before (length content) c.offset (length c.bytes) long before
              ∙ ap (λ n. chunk_length n c.offset) (sym size))
            (subst (λ x. bytes_eq (blake3 c.bytes) x ≡ true) (sym hashed)
              (bytes_eq_refl (blake3 c.bytes)))
            fresh (omega (arith, small, before)) (omega (arith, small, before, long)),
        piece ∙ ap (λ n. take n (drop c.offset content)) (sym long),
      )
