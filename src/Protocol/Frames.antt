-- ===== src/Protocol/Frames.antt =====
-- EncodeFrame, DecodeFrameView and DecodeFrame of engine/common/protocol.cpp.
use veritas_sync_next.Prelude.{
  ℕ, ◌-◌, Bool, not, ◌&&◌, ◌||◌, Bytes, Result, err, invalid_argument, length, ltb, leb, ◌==◌,
  if◌then◌else◌, take, drop,
}
use veritas_sync_next.Protocol.Types.{
  FrameType, hello, manifest, error, heartbeat, file_request, cancel, version_manifest,
  policy_hello, policy_propose, policy_ack, policy_commit, policy_done, policy_reject, chunk,
  chunk_ack, window_update, frame_code, Frame, protocol_version, frame_header_size, max_frame_size,
}
use veritas_sync_next.Protocol.Writer.{Put, ◌⊕◌, put_u8, put_int, put_bytes}
use veritas_sync_next.Protocol.Reader.{Reader, ◌>>=◌, ◌>>◌, pure, forbid, read_u8, read_int, run}

unfoldable pub valid_type : ℕ → Bool
valid_type t = (leb 1 t && leb t 13) || t == 64 || t == 65 || t == 66

-- static_cast<FrameType>(type), on the codes that `valid_type` lets through.
unfoldable pub frame_type_of : ℕ → FrameType
frame_type_of t =
    if t == 1
    then hello
    else if t == 2
    then manifest
    else if t == 3
    then error
    else if t == 4
    then heartbeat
    else if t == 5
    then file_request
    else if t == 6
    then cancel
    else if t == 7
    then version_manifest
    else if t == 8
    then policy_hello
    else if t == 9
    then policy_propose
    else if t == 10
    then policy_ack
    else if t == 11
    then policy_commit
    else if t == 12
    then policy_done
    else if t == 13
    then policy_reject
    else if t == 64
    then chunk
    else if t == 65
    then chunk_ack
    else window_update

-- The sixteen bytes in front of a payload of `size` bytes.
unfoldable pub put_header : FrameType → ℕ → ℕ → Put
put_header type request_id size =
    put_u8 b'V'
    ⊕ put_u8 b'S'
    ⊕ put_u8 protocol_version
    ⊕ put_u8 (frame_code type)
    ⊕ put_int 8 request_id
    ⊕ put_int 4 size

unfoldable pub encode_frame : Frame → Put
unfolding valid_type put_header
encode_frame f =
    if not (valid_type (frame_code f.type))
      || ltb (max_frame_size - frame_header_size) (length f.payload)
    then err (invalid_argument "invalid frame")
    else (put_header f.type f.request_id (length f.payload) ⊕ put_bytes f.payload)

-- The header of the frame `wire`, and the part of `wire` that it says is the payload.
unfoldable pub read_frame : Bytes → Reader Frame
unfolding valid_type frame_type_of
read_frame wire = do
  v ← read_u8
  forbid (not (v == b'V')) (invalid_argument "bad magic")
  s ← read_u8
  forbid (not (s == b'S')) (invalid_argument "bad magic")
  version ← read_u8
  forbid (not (version == protocol_version)) (invalid_argument "unsupported version")
  type ← read_u8
  forbid (not (valid_type type)) (invalid_argument "unknown frame type")
  id ← read_int 8
  size ← read_int 4
  forbid (not (size == length wire - frame_header_size))
      (invalid_argument "payload length mismatch")
  pure (record {
    type = frame_type_of type;
    request_id = id;
    payload = take size (drop frame_header_size wire);
  })

unfoldable pub decode_frame : Bytes → Result Frame
unfolding read_frame
decode_frame wire =
    if ltb (length wire) frame_header_size || ltb max_frame_size (length wire)
    then err (invalid_argument "invalid frame size")
    else run (read_frame wire) wire
