-- ===== src/Protocol/TransferLaws.antt =====
-- Chunks and file requests survive the wire, and a decoded chunk has the bytes that its hash names.
use veritas_sync_next.Prelude.{
  bytes_eq→eq, ◌≤◌, length-take, All, ◌^◌, ℕ, ◌+◌, ◌≡◌, ◌<◌, refl, false, Bytes, ok, arith, List,
  length, ltb, empty?, bytes_eq_refl, [], ◌∷◌, ◌==◌, ◌||◌,
}
use veritas_sync_next.Protocol.Types.{logical_chunk_size, Chunk, ChunkRange, FileRequest}
use veritas_sync_next.Protocol.Writer.{put_int, put_bytes}
use veritas_sync_next.Protocol.Reader.{run, read_int, read_bytes, finish}
use veritas_sync_next.Protocol.RoundTrip.{
  Reads, Reads-seq, Reads-last, Reads-forbid, Reads-unless, run-Reads, int-Reads, bytes-Reads,
}
use veritas_sync_next.Protocol.Handshake.{whole}
use veritas_sync_next.Protocol.ManifestLaws.{IsU64}
use veritas_sync_next.Protocol.Transfers.{
  encode_chunk, read_chunk, check_chunk, decode_chunk, range_rejected, put_ranges,
  encode_file_request, read_ranges, read_file_request, decode_file_request,
}

-- The fixed arrays have their sizes, and the offset is a 64-bit number.
pub record IsChunk (c : Chunk) : Type 0 where
  pub transfer : length c.transfer_id ≡ 16
  pub file : length c.file_hash ≡ 32
  pub hash : length c.chunk_hash ≡ 32
  pub offset : IsU64 c.offset

chunk-Reads : (c : Chunk) → IsChunk c → Reads (encode_chunk c) read_chunk c
unfolding encode_chunk read_chunk
chunk-Reads c h = Reads-unless _ _ _ read_chunk c λ fits.
    Reads-seq (put_bytes c.transfer_id) _ (read_bytes 16) _ c.transfer_id _
      (bytes-Reads c.transfer_id 16 h.transfer)
      (Reads-seq (put_bytes c.file_hash) _ (read_bytes 32) _ c.file_hash _
        (bytes-Reads c.file_hash 32 h.file)
        (Reads-seq (put_int 8 c.offset) _ (read_int 8) _ c.offset _ (int-Reads 8 c.offset h.offset)
          (Reads-seq (put_int 4 (length c.bytes)) _ (read_int 4) _ (length c.bytes) _
            (int-Reads 4 (length c.bytes) (ground arith))
            (Reads-forbid _ _ _ _ c fits (
              Reads-seq (put_bytes c.chunk_hash) _ (read_bytes 32) _ c.chunk_hash _
                (bytes-Reads c.chunk_hash 32 h.hash)
                (Reads-last (put_bytes c.bytes) (read_bytes (length c.bytes)) _ c.bytes
                  (bytes-Reads c.bytes (length c.bytes) refl)))))))

module _ (blake3 : Bytes → Bytes) where
  check_chunk_hashed :
      (c : Chunk) → c.chunk_hash ≡ blake3 c.bytes → check_chunk blake3 c [] ≡ ok (c, [])
  unfolding check_chunk finish
  check_chunk_hashed c h = rw (h, bytes_eq_refl (blake3 c.bytes))

  -- A chunk that carries the hash of its bytes is read back unchanged.
  pub decode-encode_chunk :
      (c : Chunk) (wire : Bytes)
      → IsChunk c
      → c.chunk_hash ≡ blake3 c.bytes
      → encode_chunk c ≡ ok wire
      → decode_chunk blake3 wire ≡ ok c
  unfolding decode_chunk
  decode-encode_chunk c wire h hashed e =
      run-Reads (encode_chunk c) read_chunk (check_chunk blake3) c c wire (chunk-Reads c h) e
        (check_chunk_hashed c hashed)

length-read_bytes : (n : ℕ) (s b rest : Bytes) → read_bytes n s ≡ ok (b, rest) → length b ≡ n
unfolding read_bytes
length-read_bytes n s b rest e = ground (arith, length-take n s)

-- A chunk that a node accepts from the wire has the bytes that its hash names, at most one logical
-- chunk of them, and identifiers of the right sizes.
pub decode_chunk_sound :
    (blake3 : Bytes → Bytes) (wire : Bytes) (c : Chunk)
    → decode_chunk blake3 wire ≡ ok c
    → (blake3 c.bytes ≡ c.chunk_hash)
      × (length c.bytes ≤ logical_chunk_size)
      × (length c.transfer_id ≡ 16)
      × (length c.file_hash ≡ 32)
      × (length c.chunk_hash ≡ 32)
unfolding decode_chunk read_chunk check_chunk run
decode_chunk_sound blake3 wire c e = grind (arith, bytes_eq→eq, length-read_bytes)

range_fits :
    (previous_end first count : ℕ) → range_rejected previous_end first count ≡ false → IsU64 first
unfolding range_rejected
range_fits previous_end first count h = ground arith

-- The number of chunks is a 32-bit field.
abbrev pub IsRange : ChunkRange → Type 0
IsRange r = r.chunk_count < 256 ^ 4

ranges-Reads :
    (previous_end : ℕ) (rs : List ChunkRange)
    → All IsRange rs
    → Reads (put_ranges previous_end rs) (read_ranges previous_end (length rs)) rs
unfolding put_ranges read_ranges
ranges-Reads previous_end [] h bs rest e = let nothing : bs ≡ [] = cc in rw nothing
ranges-Reads previous_end (r ∷ rs) h bs rest e =
    Reads-unless (range_rejected previous_end r.first_chunk r.chunk_count) _ _
      (read_ranges previous_end (length (r ∷ rs))) (r ∷ rs)
      (λ sound.
        Reads-seq (put_int 8 r.first_chunk) _ (read_int 8) _ r.first_chunk _
          (int-Reads 8 r.first_chunk (range_fits previous_end r.first_chunk r.chunk_count sound))
          (Reads-seq (put_int 4 r.chunk_count) _ (read_int 4) _ r.chunk_count _
            (int-Reads 4 r.chunk_count h.0)
            (Reads-forbid _ _ _ _ (r ∷ rs) sound (
              Reads-last (put_ranges (r.first_chunk + r.chunk_count) rs)
                (read_ranges (r.first_chunk + r.chunk_count) (length rs)) _ rs
                (ranges-Reads (r.first_chunk + r.chunk_count) rs h.1)))))
      bs rest e

pub record IsFileRequest (q : FileRequest) : Type 0 where
  pub transfer : length q.transfer_id ≡ 16
  pub file : length q.file_hash ≡ 32
  pub ranges : All IsRange q.missing_ranges

count_accepted :
    (rs : List ChunkRange)
    → (empty? rs || ltb 1000000 (length rs)) ≡ false
    → (length rs == 0 || ltb 1000000 (length rs)) ≡ false
count_accepted [] h = h
count_accepted (r ∷ rs) h = ground arith

file_request-Reads :
    (q : FileRequest) → IsFileRequest q → Reads (encode_file_request q) read_file_request q
unfolding encode_file_request read_file_request
file_request-Reads q h = Reads-unless _ _ _ read_file_request q λ accepted.
    Reads-seq (put_bytes q.transfer_id) _ (read_bytes 16) _ q.transfer_id _
      (bytes-Reads q.transfer_id 16 h.transfer)
      (Reads-seq (put_bytes q.file_hash) _ (read_bytes 32) _ q.file_hash _
        (bytes-Reads q.file_hash 32 h.file)
        (Reads-seq (put_int 4 (length q.missing_ranges)) _ (read_int 4) _ (length q.missing_ranges)
          _ (int-Reads 4 (length q.missing_ranges) (ground arith))
          (Reads-forbid _ _ _ _ q (count_accepted q.missing_ranges accepted) (
            Reads-last (put_ranges 0 q.missing_ranges) (read_ranges 0 (length q.missing_ranges)) _
              q.missing_ranges (ranges-Reads 0 q.missing_ranges h.ranges)))))

-- A file request that can be sent is read back, its ranges in order.
pub decode-encode_file_request :
    (q : FileRequest) (wire : Bytes)
    → IsFileRequest q
    → encode_file_request q ≡ ok wire
    → decode_file_request wire ≡ ok q
unfolding decode_file_request whole finish
decode-encode_file_request q wire h e =
    run-Reads (encode_file_request q) read_file_request whole q q wire (file_request-Reads q h) e
      refl
