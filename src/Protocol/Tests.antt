-- ===== src/Protocol/Tests.antt =====
-- The messages at small inputs.
use veritas_sync_next.Prelude.{
  ◌≡◌, refl, Bytes, Result, ok, err, [], ◌∷◌, some, length, replicate, arith, ◌≤◌,
}
use veritas_sync_next.Protocol.Types.{
  Frame, Hello, Manifest, VersionedManifest, Chunk, FileRequest, Cancel, IgnorePolicyMessage,
  source, tombstone, heartbeat, role_code, kind_code, frame_code, logical_chunk_size,
}
use veritas_sync_next.Protocol.Writer.{put_u8, put_int, put_bytes, put_string, put_each, le_bytes}
use veritas_sync_next.Protocol.Frames.{encode_frame, decode_frame, put_header, valid_type}
use veritas_sync_next.Protocol.Handshake.{encode_hello, decode_hello}
use veritas_sync_next.Protocol.HandshakeLaws.{decode-encode_hello}
use veritas_sync_next.Protocol.Manifests.{
  encode_versioned_manifest, decode_versioned_manifest, put_versioned_entry, entry_rejected,
}
use veritas_sync_next.Protocol.ManifestLaws.{decode-encode_versioned_manifest}
use veritas_sync_next.Protocol.Transfers.{encode_chunk, decode_chunk, put_chunk}
use veritas_sync_next.Protocol.TransferLaws.{decode-encode_chunk, decode_chunk_sound}
use veritas_sync_next.Protocol.FrameLaws.{decode-encode_frame}

abbrev bytes_of : Result Bytes → Bytes
bytes_of (ok wire) = wire
bytes_of (err e) = []

abbrev id_16 : Bytes
id_16 = replicate 16 7

abbrev hash_32 : Bytes
hash_32 = replicate 32 9

-- A stand-in for the hash, with 32 bytes.
abbrev toy_hash : Bytes → Bytes
toy_hash s = replicate 32 9

abbrev a_hello : Hello
a_hello = record {
  task_id = b't' ∷ [];
  role = source;
  device_id = b'd' ∷ [];
  device_fingerprint = [];
  authorization_digest = b'x' ∷ [];
}

decode-encode_hello_example : decode_hello (bytes_of (encode_hello a_hello)) ≡ ok a_hello
unfolding encode_hello put_u8 put_int put_bytes put_string le_bytes role_code
decode-encode_hello_example =
    decode-encode_hello a_hello (bytes_of (encode_hello a_hello))
      (record { task = refl; device = refl; digest = refl }) refl

abbrev a_cancel : Cancel
a_cancel = record { transfer_id = id_16; reason = b'r' ∷ [] }

abbrev a_policy : IgnorePolicyMessage
a_policy = record {
  proposal_id = b'p' ∷ [];
  base_hash = replicate 64 b'a';
  rules = b'*' ∷ [];
  source = b's' ∷ [];
}

abbrev a_manifest : Manifest
a_manifest = record {
  revision = 3;
  entries = record { relative_path = b'a' ∷ []; size = 5; content_hash = hash_32 } ∷ [];
}

abbrev a_versioned_manifest : VersionedManifest
a_versioned_manifest = record {
  revision = 3;
  entries =
      record {
        relative_path = b'a' ∷ [];
        kind = tombstone;
        size = 0;
        content_hash = [];
        version_id = b'v' ∷ [];
        origin_device_id = b'd' ∷ [];
        logical_clock = 4;
        parent_version_id = [];
        deleted_at_ms = some 8;
      }
      ∷ [];
}

decode-encode_versioned_manifest_example :
    decode_versioned_manifest (bytes_of (encode_versioned_manifest a_versioned_manifest))
    ≡ ok a_versioned_manifest
unfolding encode_versioned_manifest put_versioned_entry entry_rejected kind_code put_each put_u8
    put_int put_bytes put_string le_bytes
decode-encode_versioned_manifest_example =
    decode-encode_versioned_manifest a_versioned_manifest
      (bytes_of (encode_versioned_manifest a_versioned_manifest))
      (
        omega arith,
        (
          record { size = omega arith; clock = omega arith; deleted = λ t e. ground (arith, e) },
          tt,
        ),
      )
      refl

abbrev a_chunk : Chunk
a_chunk = record {
  transfer_id = id_16;
  file_hash = hash_32;
  offset = 262144;
  chunk_hash = hash_32;
  bytes = 1 ∷ 2 ∷ 3 ∷ [];
}

decode-encode_chunk_example : decode_chunk toy_hash (bytes_of (encode_chunk a_chunk)) ≡ ok a_chunk
unfolding encode_chunk put_chunk put_u8 put_int put_bytes put_string le_bytes
decode-encode_chunk_example =
    decode-encode_chunk toy_hash a_chunk (bytes_of (encode_chunk a_chunk))
      (record { transfer = refl; file = refl; hash = refl; offset = omega arith }) refl refl

received_chunk : decode_chunk toy_hash (bytes_of (encode_chunk a_chunk)) ≡ ok a_chunk
unfolding encode_chunk put_chunk put_u8 put_int put_bytes put_string le_bytes
received_chunk =
    decode-encode_chunk toy_hash a_chunk (bytes_of (encode_chunk a_chunk))
      (record { transfer = refl; file = refl; hash = refl; offset = omega arith }) refl refl

decode_chunk_sound_example :
    (toy_hash a_chunk.bytes ≡ a_chunk.chunk_hash)
    × (length a_chunk.bytes ≤ logical_chunk_size)
    × (length a_chunk.transfer_id ≡ 16)
    × (length a_chunk.file_hash ≡ 32)
    × (length a_chunk.chunk_hash ≡ 32)
decode_chunk_sound_example =
    decode_chunk_sound toy_hash (bytes_of (encode_chunk a_chunk)) a_chunk received_chunk

abbrev a_request : FileRequest
a_request = record {
  transfer_id = id_16;
  file_hash = hash_32;
  missing_ranges = record { first_chunk = 2; chunk_count = 3 } ∷ [];
}

abbrev a_frame : Frame
a_frame = record { type = heartbeat; request_id = 6; payload = 1 ∷ 2 ∷ [] }

decode-encode_frame_example : decode_frame (bytes_of (encode_frame a_frame)) ≡ ok a_frame
unfolding encode_frame put_header valid_type frame_code put_u8 put_int put_bytes le_bytes
decode-encode_frame_example =
    decode-encode_frame a_frame (bytes_of (encode_frame a_frame)) (omega arith) refl
