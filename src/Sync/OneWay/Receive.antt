-- ===== src/Sync/OneWay/Receive.antt =====
-- Start, Pump and Receive of engine/sync/one_way_sync.cpp. Start's first scan is `scanned`.
use veritas_sync_next.Prelude.{
  ℕ, Bool, true, false, not, ◌||◌, ◌&&◌, some, List, Bytes, Result, ok, err, invalid_argument,
  bytes_eq, length, empty?, if◌then◌else◌,
}
use veritas_sync_next.Protocol.Types.{
  Role, source, target, peer, Channel, FrameType, Frame, Hello, is_allowed_on, Cancel,
}
use veritas_sync_next.Protocol.Types
use veritas_sync_next.Protocol.Frames.{decode_frame}
use veritas_sync_next.Protocol.Handshake.{decode_hello, decode_cancel}
use veritas_sync_next.Protocol.Manifests.{decode_manifest}
use veritas_sync_next.Protocol.Transfers.{decode_file_request, decode_chunk}
use veritas_sync_next.Sync.ManifestDiff.{SnapshotEntry}
use veritas_sync_next.Sync.Download.{is_some}
use veritas_sync_next.Sync.OneWay.Node.{
  Node, OneWaySyncConfig, Action, raise, gets, lift, modify, raise_if, when, for_each, send_hello,
  send_manifest, count_received, ◌>>=◌, ◌>>◌,
}
use veritas_sync_next.Sync.OneWay.Target.{
  apply_manifest, accept_chunk, cancel_download, persist_pending_downloads,
}
use veritas_sync_next.Sync.OneWay.Source.{
  is_source, drop_uploads, handle_file_request, pump_upload, refresh_source,
}

abbrev pub is_target : Role → Bool
is_target target = true
is_target source = false
is_target peer = false

abbrev pub roles_compatible : Role → Role → Bool
roles_compatible own other = is_source own && is_target other || is_target own && is_source other

abbrev pub is_hello : FrameType → Bool
is_hello veritas_sync_next.Protocol.Types.FrameType.hello = true
is_hello _ = false

abbrev pub unauthorized : OneWaySyncConfig → Hello → Bool
unauthorized c h =
    not (bytes_eq h.task_id c.task_id)
    || not (bytes_eq h.device_id c.peer_device_id)
    || not (bytes_eq h.authorization_digest c.authorization_digest)
    || not (roles_compatible c.role h.role)

unfoldable pub receive_hello : Bytes → Action (Unit {0})
receive_hello payload = do
  h ← lift (decode_hello payload)
  config ← gets (λ n. n.config)
  raise_if (unauthorized config h) (invalid_argument "unauthorized_peer")
  modify (λ n. record n { received_hello = true })
  when (is_source config.role) (do send_hello; send_manifest)

-- The catch block keeps the exception as the last error.
abbrev pub caught : Result (Unit {0}) × Node → Node
caught (ok done, n) = n
caught (err e, n) = record n { last_error = some e }

module _ (blake3 : Bytes → Bytes) (new_uuid : ℕ → Bytes) (new_transfer_id : ℕ → Bytes)
    (now : ℕ) where
  abbrev pub handle_cancel : Role → Cancel → Action (Unit {0})
  handle_cancel target c = cancel_download blake3 new_uuid new_transfer_id now c
  handle_cancel source c = drop_uploads c.transfer_id
  handle_cancel peer c = drop_uploads c.transfer_id

  -- The switch over the frame's type.
  unfoldable pub dispatch : FrameType → Bytes → Role → Action (Unit {0})
  dispatch veritas_sync_next.Protocol.Types.FrameType.manifest payload role = do
    raise_if (not (is_target role)) (invalid_argument "unexpected_manifest")
    m ← lift (decode_manifest payload)
    apply_manifest blake3 new_uuid new_transfer_id now m
  dispatch veritas_sync_next.Protocol.Types.FrameType.file_request payload role = do
    raise_if (not (is_source role)) (invalid_argument "unexpected_file_request")
    r ← lift (decode_file_request payload)
    handle_file_request blake3 r
  dispatch veritas_sync_next.Protocol.Types.FrameType.chunk payload role = do
    raise_if (not (is_target role)) (invalid_argument "unexpected_chunk")
    c ← lift (decode_chunk blake3 payload)
    accept_chunk blake3 new_uuid new_transfer_id now c
  dispatch veritas_sync_next.Protocol.Types.FrameType.cancel payload role = do
    c ← lift (decode_cancel payload)
    handle_cancel role c
  dispatch _ payload role = raise (invalid_argument "unexpected_frame")

  -- What Receive does with a frame that is not a HELLO.
  unfoldable pub receive_greeted : Frame → Action (Unit {0})
  receive_greeted frame = do
    admitted ← gets (λ n. n.started && n.received_hello)
    raise_if (not admitted) (invalid_argument "unauthorized_peer")
    config ← gets (λ n. n.config)
    dispatch frame.type frame.payload config.role

  -- The body of Receive's try block.
  unfoldable pub receive_frame : Channel → Bytes → Action (Unit {0})
  receive_frame channel wire = do
    modify (λ n. record n { statistics = count_received channel (length wire) n.statistics })
    frame ← lift (decode_frame wire)
    raise_if (not (is_allowed_on channel frame.type)) (invalid_argument "wrong_channel")
    if is_hello frame.type then receive_hello frame.payload else receive_greeted frame

  unfoldable pub receive : Channel → Bytes → Node → Node
  receive channel wire n = caught (receive_frame channel wire n)

  unfoldable pub start : Result (List SnapshotEntry) → Action (Unit {0})
  start scanned = do
    running ← gets (λ n. n.started)
    when (not running) (do
      modify (λ n. record n { started = true })
      config ← gets (λ n. n.config)
      when (is_source config.role) (refresh_source new_uuid now scanned)
      send_hello)

  unfoldable pub pump : (Node → ℕ) → Action (Unit {0})
  pump buffered = do
    config ← gets (λ n. n.config)
    if is_target config.role
        then persist_pending_downloads blake3 new_uuid new_transfer_id now false
        else (do uploads ← gets (λ n. n.uploads); for_each (pump_upload blake3 buffered) uploads)

-- What the node tells: HandshakeComplete, TargetIsConverged and PendingDownloadCount.
unfoldable pub handshake_complete : Node → Bool
handshake_complete n = n.started && n.received_hello && not (is_some n.last_error)

unfoldable pub target_is_converged : Node → Bool
target_is_converged n =
    is_target n.config.role
    && handshake_complete n
    && is_some n.received_manifest
    && empty? n.downloads

unfoldable pub pending_download_count : Node → ℕ
pending_download_count n = length n.downloads
