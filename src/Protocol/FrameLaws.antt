-- ===== src/Protocol/FrameLaws.antt =====
-- Frames survive the wire, and the one-buffer chunk frame is the frame of the encoded chunk.
use veritas_sync_next.Prelude.{
  ◌>>=◌, le→ltb, ℕ, ◌+◌, ◌-◌, ◌≡◌, ◌<◌, ◌≤◌, ◌^◌, refl, ap, ◌∙◌, true, false, Bytes, ok, arith,
  length, ltb, ◌++◌, Bool-cases, inl, inr, [], ◌∷◌, ◌==◌, not, take, drop, length-append,
  take-append, drop-append, append-nil,
}
use veritas_sync_next.Protocol.Types.{
  FrameType, hello, chunk, frame_code, Frame, protocol_version, frame_header_size, max_frame_size,
  Chunk, logical_chunk_size,
}
use veritas_sync_next.Protocol.Writer.{◌⊕◌, put_u8, put_int, put_bytes, le_bytes}
use veritas_sync_next.Protocol.Reader.{read_int, read_u8, run}
use veritas_sync_next.Protocol.RoundTrip.{
  Reads, Reads-seq, Reads-forbid, Reads-end, int-Reads, u8-Reads, length-le_bytes,
}
use veritas_sync_next.Protocol.ManifestLaws.{IsU64}
use veritas_sync_next.Protocol.Frames.{
  valid_type, frame_type_of, put_header, encode_frame, read_frame, decode_frame,
}
use veritas_sync_next.Protocol.Transfers.{put_chunk, encode_chunk, encode_chunk_frame}

valid_type-frame_code : (t : FrameType) → valid_type (frame_code t) ≡ true
unfolding valid_type frame_code
valid_type-frame_code hello = refl
valid_type-frame_code _ = refl

frame_type_of-frame_code : (t : FrameType) → frame_type_of (frame_code t) ≡ t
unfolding frame_type_of frame_code
frame_type_of-frame_code hello = refl
frame_type_of-frame_code _ = refl

-- The header written out.
abbrev header : FrameType → ℕ → ℕ → Bytes
header t id size =
    b'V' ∷ b'S' ∷ protocol_version ∷ frame_code t ∷ (le_bytes 8 id ++ le_bytes 4 size)

put_header_lem : (t : FrameType) (id size : ℕ) → put_header t id size ≡ ok (header t id size)
unfolding put_header put_u8 put_int
put_header_lem t id size = refl

length-header : (t : FrameType) (id size : ℕ) → length (header t id size) ≡ frame_header_size
length-header t id size = omega (
  arith,
  length-append (le_bytes 8 id) (le_bytes 4 size),
  length-le_bytes 8 id,
  length-le_bytes 4 size,
)

header-Reads :
    (f : Frame) (wire : Bytes)
    → IsU64 f.request_id
    → length f.payload < 256 ^ 4
    → (length f.payload == length wire - frame_header_size) ≡ true
    → take (length f.payload) (drop frame_header_size wire) ≡ f.payload
    → Reads (put_header f.type f.request_id (length f.payload)) (read_frame wire) f
unfolding put_header read_frame
header-Reads f wire hid hlen same tail =
    Reads-seq (put_u8 b'V') _ read_u8 _ b'V' _ (u8-Reads b'V') (
      Reads-seq (put_u8 b'S') _ read_u8 _ b'S' _ (u8-Reads b'S') (
        Reads-seq (put_u8 protocol_version) _ read_u8 _ protocol_version _
          (u8-Reads protocol_version)
          (Reads-seq (put_u8 (frame_code f.type)) _ read_u8 _ (frame_code f.type) _
            (u8-Reads (frame_code f.type))
            (Reads-forbid _ (not (valid_type (frame_code f.type))) _ _ f
              (rw (valid_type-frame_code f.type))
              (Reads-seq (put_int 8 f.request_id) _ (read_int 8) _ f.request_id _
                (int-Reads 8 f.request_id hid)
                (Reads-end (put_int 4 (length f.payload)) (read_int 4) _ (length f.payload) f
                  (int-Reads 4 (length f.payload) hlen)
                  (λ rest. rw (same, tail, frame_type_of-frame_code f.type))))))))

encode_frame_ok :
    (f : Frame) (wire : Bytes)
    → encode_frame f ≡ ok wire
    → (wire ≡ header f.type f.request_id (length f.payload) ++ f.payload)
      × (length f.payload ≤ max_frame_size - frame_header_size)
unfolding encode_frame put_bytes
encode_frame_ok f wire e =
    ground
      (arith, valid_type-frame_code f.type, put_header_lem f.type f.request_id (length f.payload))

take-length : (xs : Bytes) → take (length xs) xs ≡ xs
take-length xs = rw append-nil at (take-append (length xs) xs [] refl)

module _ (f : Frame) (wire : Bytes)
    (w : wire ≡ header f.type f.request_id (length f.payload) ++ f.payload) where
  length-frame : length wire ≡ frame_header_size + length f.payload
  length-frame =
      ap length w
      ∙ length-append (header f.type f.request_id (length f.payload)) f.payload
      ∙ ap (λ t. t + length f.payload) (length-header f.type f.request_id (length f.payload))

  payload-frame : take (length f.payload) (drop frame_header_size wire) ≡ f.payload
  payload-frame =
      ap (take (length f.payload)) (
        ap (drop frame_header_size) w
        ∙ drop-append frame_header_size (header f.type f.request_id (length f.payload)) f.payload
            (length-header f.type f.request_id (length f.payload)))
      ∙ take-length f.payload

-- A frame that can be sent is read back: type, request and payload.
pub decode-encode_frame :
    (f : Frame) (wire : Bytes)
    → IsU64 f.request_id
    → encode_frame f ≡ ok wire
    → decode_frame wire ≡ ok f
unfolding decode_frame run
decode-encode_frame f wire hid e =
    let n : ℕ = length f.payload in
    let (w, fits) = encode_frame_ok f wire e in
    let len : length wire ≡ frame_header_size + n = length-frame f wire w in
    let exact : read_frame wire wire ≡ ok (f, f.payload) =
      ap (read_frame wire) w
      ∙ header-Reads f wire hid (omega arith) (ground arith) (payload-frame f wire w) _ f.payload
          (put_header_lem f.type f.request_id n) in
    rw (
      le→ltb (length wire) frame_header_size (omega arith),
      le→ltb max_frame_size (length wire) (omega arith),
      exact,
      run,
    )

abbrev chunk_bytes : Chunk → Bytes
chunk_bytes c =
    c.transfer_id
    ++ (c.file_hash
        ++ (le_bytes 8 c.offset ++ (le_bytes 4 (length c.bytes) ++ (c.chunk_hash ++ c.bytes))))

put_chunk_lem : (c : Chunk) → put_chunk c ≡ ok (chunk_bytes c)
unfolding put_chunk put_bytes put_int
put_chunk_lem c = refl

length-chunk_bytes :
    (c : Chunk)
    → length (chunk_bytes c)
      ≡ length c.transfer_id + length c.file_hash + 8 + 4 + length c.chunk_hash + length c.bytes
length-chunk_bytes c = omega (arith, length-append {0}, length-le_bytes)

-- The chunk frame that is built in one buffer is the frame of the encoded chunk, and both refuse a
-- chunk above the logical chunk size in the same words, where the identifiers have the sizes of
-- their arrays.
pub encode_chunk_frame-eq :
    (c : Chunk) (id : ℕ)
    → length c.transfer_id ≡ 16
    → length c.file_hash ≡ 32
    → length c.chunk_hash ≡ 32
    → encode_chunk_frame c id ≡ (
        encode_chunk c >>= λ p.
        encode_frame (record { type = chunk; request_id = id; payload = p }))
unfolding encode_chunk_frame encode_chunk
encode_chunk_frame-eq c id ht hf hc = elim (Bool-cases (ltb logical_chunk_size (length c.bytes))) [
  | inl big ↦ rw big
  | inr fits ↦ rw (fits, put_chunk_lem c, ◌>>=◌) (same fits)
]
  where
    same :
        ltb logical_chunk_size (length c.bytes) ≡ false
        → (put_header chunk id (
              length c.transfer_id
              + length c.file_hash
              + 8
              + 4
              + length c.chunk_hash
              + length c.bytes)
            ⊕ ok (chunk_bytes c))
          ≡ encode_frame (record { type = chunk; request_id = id; payload = chunk_bytes c })
    same fits =
        unfold encode_frame valid_type frame_code put_bytes in ground (arith, length-chunk_bytes c)
