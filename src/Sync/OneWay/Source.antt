-- ===== src/Sync/OneWay/Source.antt =====
-- The source's side of engine/sync/one_way_sync.cpp. `scanned` is what reading the ignore rules and
-- scanning the task's root gives, `now` the clock's answer and `new_uuid n` the n-th generated id of
-- the reconciliation. A file that is missing reads as an empty one, whose chunks are refused.
use veritas_sync_next.Prelude.{
  ℕ, ◌+◌, ◌*◌, Bool, true, false, not, Option, none, some, List, [], ◌∷◌, ◌++◌, Bytes, Result, ok,
  err, logic_error, find_if, bytes_eq, bytes_lt, bytes_key, lookup, keep_if, length, sort_by,
  if◌then◌else◌,
}
use veritas_sync_next.Protocol.Types.{
  Role, source, target, peer, FrameType, FileRequest, ManifestEntry, Cancel, Frame,
}
use veritas_sync_next.Protocol.Types
use veritas_sync_next.Protocol.Frames.{decode_frame}
use veritas_sync_next.Protocol.Handshake.{encode_cancel}
use veritas_sync_next.Transport.Scheduler.{PendingSend}
use veritas_sync_next.Transport.Scheduler
use veritas_sync_next.Sync.ManifestDiff.{SnapshotEntry, SnapshotKind, file_entry, directory_entry}
use veritas_sync_next.Sync.Reconcile
use veritas_sync_next.Sync.Download.{content_or_empty}
use veritas_sync_next.Sync.Upload.{UploadSession, queue_requested, next_for_transport, has_pending}
use veritas_sync_next.Sync.OneWay.Hashes.{encode_hash}
use veritas_sync_next.Sync.OneWay.Node.{
  Node, SourceFile, PendingUpload, Action, raise, gets, lift, modify, raise_if, when, for_each,
  send, send_manifest, ◌>>=◌, ◌>>◌,
}

abbrev pub max_pending_upload_bytes : ℕ
max_pending_upload_bytes = 16 * 1024 * 1024

abbrev pub resume_below_bytes : ℕ
resume_below_bytes = 1024 * 1024

abbrev pub is_source : Role → Bool
is_source source = true
is_source target = false
is_source peer = false

-- One round of the loop over the snapshot.
abbrev pub add_directory : SnapshotEntry → Node → Node
add_directory e n = record n {
  source_manifest = record n.source_manifest {
    entries =
        n.source_manifest.entries
        ++ record { relative_path = e.relative_path; size = 0; content_hash = [] } ∷ [];
  };
}

abbrev pub add_file : SnapshotEntry → Bytes → Node → Node
add_file e hash n = record n {
  source_manifest = record n.source_manifest {
    entries =
        n.source_manifest.entries
        ++ record {
          relative_path = e.relative_path;
          size = e.size;
          content_hash = encode_hash hash;
        }
          ∷ [];
  };
  source_files = n.source_files ++ record { path = e.relative_path; hash = hash } ∷ [];
}

abbrev pub add_hashed : SnapshotEntry → Option Bytes → Action (Unit {0})
add_hashed e none = raise (logic_error "source file snapshot has no hash")
add_hashed e (some hash) = modify (add_file e hash)

abbrev pub add_snapshot : SnapshotKind → SnapshotEntry → Action (Unit {0})
add_snapshot directory_entry e = modify (add_directory e)
add_snapshot file_entry e = add_hashed e e.content_hash

unfoldable pub refresh_source : (ℕ → Bytes) → ℕ → Result (List SnapshotEntry) → Action (Unit {0})
refresh_source new_uuid now scanned = do
  config ← gets (λ n. n.config)
  raise_if (not (is_source config.role)) (logic_error "only source nodes may scan local changes")
  snapshot ← lift scanned
  db ← gets (λ n. n.db)
  revision ← gets (λ n. n.manifest_revision)
  (reconciled, next) ← lift (
      veritas_sync_next.Sync.Reconcile.apply new_uuid db snapshot (record {
        task_id = config.task_id;
        origin_device_id = config.device_id;
        logical_clock = revision + 1;
        now_ms = now;
      }))
  modify (λ n. record n {
    db = next;
    manifest_revision = n.manifest_revision + 1;
    source_manifest = record { revision = n.manifest_revision + 1; entries = [] };
    source_files = [];
  })
  for_each (λ e. add_snapshot e.kind e) snapshot
  modify (λ n. record n { source_files = sort_by (λ a b. bytes_lt a.hash b.hash) n.source_files })
  greeted ← gets (λ n. n.received_hello)
  when greeted send_manifest

-- "source_missing" and "source_changed"
abbrev pub source_missing : Bytes
source_missing =
    b's' ∷ b'o' ∷ b'u' ∷ b'r' ∷ b'c' ∷ b'e' ∷ b'_' ∷ b'm' ∷ b'i' ∷ b's' ∷ b's' ∷ b'i' ∷ b'n' ∷ b'g'
    ∷ []

abbrev pub source_changed : Bytes
source_changed =
    b's' ∷ b'o' ∷ b'u' ∷ b'r' ∷ b'c' ∷ b'e' ∷ b'_' ∷ b'c' ∷ b'h' ∷ b'a' ∷ b'n' ∷ b'g' ∷ b'e' ∷ b'd'
    ∷ []

unfoldable pub send_cancel : Bytes → Bytes → Action (Unit {0})
send_cancel id reason = do
  payload ← lift (encode_cancel (record { transfer_id = id; reason = reason }))
  send veritas_sync_next.Protocol.Types.Channel.control
      veritas_sync_next.Protocol.Types.FrameType.cancel payload

abbrev pub drop_uploads : Bytes → Action (Unit {0})
drop_uploads id =
    modify λ n. record n { uploads = keep_if (λ u. not (bytes_eq u.transfer_id id)) n.uploads }

-- The session of a request, or the peer is told that the file has changed.
abbrev pub push_upload : FileRequest → Bytes → Result UploadSession → Action (Unit {0})
push_upload r path (err e) = send_cancel r.transfer_id source_changed
push_upload r path (ok session) = modify λ n. record n {
  uploads =
      n.uploads ++ record { transfer_id = r.transfer_id; path = path; session = session } ∷ [];
}

module _ (blake3 : Bytes → Bytes) where
  unfoldable pub serve : FileRequest → Option SourceFile → Action (Unit {0})
  serve r none = send_cancel r.transfer_id source_missing
  serve r (some f) = do
    drop_uploads r.transfer_id
    scheduler ←
        lift
          (veritas_sync_next.Transport.Scheduler.create max_pending_upload_bytes resume_below_bytes)
    content ← gets (λ n. content_or_empty (lookup f.path n.disk.files))
    push_upload r f.path (
        queue_requested blake3
          (record {
            source = record { transfer_id = r.transfer_id; file_hash = r.file_hash };
            scheduler = scheduler;
            requested_ranges = [];
            next_request_id = 1;
          })
          content r)

  unfoldable pub handle_file_request : FileRequest → Action (Unit {0})
  handle_file_request r = do
    found ← gets (λ n. find_if (λ f. bytes_eq f.hash r.file_hash) n.source_files)
    serve r found

  unfoldable pub replace_upload : PendingUpload → List PendingUpload → List PendingUpload
  replace_upload u [] = []
  replace_upload u (q ∷ qs) =
      if bytes_eq q.transfer_id u.transfer_id then u ∷ qs else q ∷ replace_upload u qs

  abbrev pub is_chunk : FrameType → Bool
  is_chunk veritas_sync_next.Protocol.Types.FrameType.chunk = true
  is_chunk _ = false

  -- What Pump does with the answer of an upload's session.
  unfoldable pub transmit : PendingUpload → Option PendingSend → Action (Unit {0})
  transmit u none = when (has_pending u.session) (
      modify λ n. record n {
        statistics = record n.statistics {
          backpressure_pauses = n.statistics.backpressure_pauses + 1;
        };
      })
  transmit u (some p) = do
    frame ← lift (decode_frame p.wire)
    raise_if (not (is_chunk frame.type)) (logic_error "upload scheduler emitted a non-chunk frame")
    modify (λ n. record n {
      statistics = record n.statistics {
        chunks_sent = n.statistics.chunks_sent + 1;
        bulk_bytes_sent = n.statistics.bulk_bytes_sent + length p.wire;
      };
      sent = (p.channel, p.wire) ∷ n.sent;
    })

  -- A round of Pump's loop; `buffered` is what the transport has not sent yet.
  unfoldable pub pump_upload : (Node → ℕ) → PendingUpload → Action (Unit {0})
  pump_upload buffered u = do
    waiting ← gets buffered
    content ← gets (λ n. content_or_empty (lookup u.path n.disk.files))
    (next, session) ← lift (next_for_transport blake3 u.session content waiting)
    let advanced = record u { session = session }
    modify (λ n. record n { uploads = replace_upload advanced n.uploads })
    transmit advanced next
    when (not (has_pending session)) (drop_uploads u.transfer_id)
