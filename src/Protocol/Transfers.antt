-- ===== src/Protocol/Transfers.antt =====
-- The CHUNK and FILE_REQUEST messages of engine/common/protocol.cpp.
use veritas_sync_next.Prelude.{
  ℕ, zero, suc, ◌+◌, ◌-◌, Bool, not, ◌||◌, Bytes, Result, err, ok, invalid_argument, length, ltb,
  ◌==◌, empty?, if◌then◌else◌, bytes_eq, List, [], ◌∷◌,
}
use veritas_sync_next.Protocol.Types.{chunk, Chunk, ChunkRange, FileRequest, logical_chunk_size}
use veritas_sync_next.Protocol.Writer.{Put, ◌⊕◌, put_int, put_bytes}
use veritas_sync_next.Protocol.Reader.{
  Reader, ◌>>=◌, ◌>>◌, pure, forbid, read_int, read_bytes, finish, run,
}
use veritas_sync_next.Protocol.Frames.{put_header}
use veritas_sync_next.Protocol.Handshake.{whole}

-- What EncodeChunk and EncodeChunkFrame write of a chunk.
unfoldable pub put_chunk : Chunk → Put
put_chunk c =
    put_bytes c.transfer_id
    ⊕ put_bytes c.file_hash
    ⊕ put_int 8 c.offset
    ⊕ put_int 4 (length c.bytes)
    ⊕ put_bytes c.chunk_hash
    ⊕ put_bytes c.bytes

unfoldable pub encode_chunk : Chunk → Put
unfolding put_chunk
encode_chunk c =
    if ltb logical_chunk_size (length c.bytes)
    then err (invalid_argument "chunk exceeds logical chunk size")
    else put_chunk c

-- The frame of a chunk in one buffer, its size added up beforehand.
unfoldable pub encode_chunk_frame : Chunk → ℕ → Put
unfolding put_chunk put_header
encode_chunk_frame c request_id =
    if ltb logical_chunk_size (length c.bytes)
    then err (invalid_argument "chunk exceeds logical chunk size")
    else (put_header chunk request_id
          (length c.transfer_id + length c.file_hash + 8 + 4 + length c.chunk_hash + length c.bytes)
        ⊕ put_chunk c)

unfoldable pub read_chunk : Reader Chunk
read_chunk = do
  transfer_id ← read_bytes 16
  file_hash ← read_bytes 32
  offset ← read_int 8
  size ← read_int 4
  forbid (ltb logical_chunk_size size) (invalid_argument "chunk too large")
  chunk_hash ← read_bytes 32
  bytes ← read_bytes size
  pure (record {
    transfer_id = transfer_id;
    file_hash = file_hash;
    offset = offset;
    chunk_hash = chunk_hash;
    bytes = bytes;
  })

-- `blake3` stands for common::Blake3, which calls the BLAKE3 library.
module _ (blake3 : Bytes → Bytes) where
  unfoldable pub check_chunk : Chunk → Reader Chunk
  check_chunk c = do
    finish
    forbid (not (bytes_eq (blake3 c.bytes) c.chunk_hash)) (invalid_argument "chunk hash mismatch")
    pure c

  unfoldable pub decode_chunk : Bytes → Result Chunk
  unfolding read_chunk check_chunk
  decode_chunk payload = run (read_chunk >>= check_chunk) payload

abbrev pub u64_max : ℕ
u64_max = 18446744073709551615

-- A range is empty, begins before the last one ended, or runs past 64 bits.
unfoldable pub range_rejected : ℕ → ℕ → ℕ → Bool
range_rejected previous_end first count =
    count == 0 || ltb first previous_end || ltb (u64_max - first) count

unfoldable pub put_ranges : ℕ → List ChunkRange → Put
put_ranges previous_end [] = ok []
put_ranges previous_end (r ∷ rs) =
    if range_rejected previous_end r.first_chunk r.chunk_count
    then err (invalid_argument "invalid missing range")
    else (put_int 8 r.first_chunk
        ⊕ put_int 4 r.chunk_count
        ⊕ put_ranges (r.first_chunk + r.chunk_count) rs)

unfoldable pub encode_file_request : FileRequest → Put
encode_file_request q =
    if empty? q.missing_ranges || ltb 1000000 (length q.missing_ranges)
    then err (invalid_argument "invalid missing ranges")
    else (put_bytes q.transfer_id
        ⊕ put_bytes q.file_hash
        ⊕ put_int 4 (length q.missing_ranges)
        ⊕ put_ranges 0 q.missing_ranges)

unfoldable pub read_ranges : ℕ → ℕ → Reader (List ChunkRange)
read_ranges previous_end zero = pure []
read_ranges previous_end (suc n) = do
  first ← read_int 8
  count ← read_int 4
  forbid (range_rejected previous_end first count) (invalid_argument "invalid missing range")
  rest ← read_ranges (first + count) n
  pure (record { first_chunk = first; chunk_count = count } ∷ rest)

unfoldable pub read_file_request : Reader FileRequest
read_file_request = do
  transfer_id ← read_bytes 16
  file_hash ← read_bytes 32
  count ← read_int 4
  forbid (count == 0 || ltb 1000000 count) (invalid_argument "invalid missing ranges")
  ranges ← read_ranges 0 count
  pure (record { transfer_id = transfer_id; file_hash = file_hash; missing_ranges = ranges })

unfoldable pub decode_file_request : Bytes → Result FileRequest
unfolding read_file_request whole
decode_file_request payload = run (read_file_request >>= whole) payload
