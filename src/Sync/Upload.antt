-- ===== src/Sync/Upload.antt =====
-- engine/sync/chunk_source.cpp and engine/sync/upload_session.cpp: the chunks of a file, and the
-- frames that a request for them becomes. `content` is the file as it is at the time of the call.
pub mod Laws
use veritas_sync_next.Prelude.{
  ℕ, ◌+◌, ◌-◌, ◌*◌, ◌/◌, ◌%◌, min, Bool, true, false, not, ◌&&◌, ◌||◌, Bytes, Result, ok, err,
  invalid_argument, runtime_error, List, [], ◌∷◌, ◌++◌, Option, none, some, empty?, length, take,
  drop, if◌then◌else◌, forbid, ◌>>=◌, ◌>>◌, ◌==◌, leb, bytes_eq,
}
use veritas_sync_next.Protocol.Types.{Chunk, ChunkRange, FileRequest, logical_chunk_size}
use veritas_sync_next.Protocol.Types
use veritas_sync_next.Protocol.Transfers.{encode_chunk_frame}
use veritas_sync_next.Transport.Scheduler.{Scheduler, PendingSend, enqueue, can_resume, next}
use veritas_sync_next.Transport.Scheduler

pub record ChunkSource : Type 0 where
  pub transfer_id : Bytes
  pub file_hash : Bytes

pub record UploadSession : Type 0 where
  pub source : ChunkSource
  pub scheduler : Scheduler
  pub requested_ranges : List ChunkRange
  pub next_request_id : ℕ

-- The first chunk of the front range is taken off; an empty range leaves the queue.
unfoldable pub advance_range : ChunkRange → List ChunkRange → List ChunkRange
advance_range r rs =
    let left = (r.chunk_count + 4294967295) % 4294967296 in
    if left == 0
    then rs
    else record { first_chunk = (r.first_chunk + 1) % 18446744073709551616; chunk_count = left }
      ∷ rs

abbrev pub bulk_send : Bytes → PendingSend
bulk_send wire = record {
  channel = veritas_sync_next.Protocol.Types.Channel.bulk;
  priority = veritas_sync_next.Transport.Scheduler.SendPriority.bulk;
  wire = wire;
}

-- `blake3` stands for common::Blake3, which calls the BLAKE3 library.
module _ (blake3 : Bytes → Bytes) where
  unfoldable pub validate_request : ChunkSource → Bytes → FileRequest → Result (Unit {0})
  validate_request source content request = do
    forbid
        (not (bytes_eq request.transfer_id source.transfer_id)
          || not (bytes_eq request.file_hash source.file_hash))
        (invalid_argument "file request does not match transfer")
    forbid (not (bytes_eq (blake3 content) source.file_hash))
        (runtime_error "transfer source changed")

  unfoldable pub read_chunk : ChunkSource → Bytes → ℕ → Result Chunk
  read_chunk source content index = do
    let total = (length content + logical_chunk_size - 1) / logical_chunk_size
    forbid (leb total index) (invalid_argument "requested chunk is outside source")
    let offset = index * logical_chunk_size
    let bytes = take (min logical_chunk_size (length content - offset)) (drop offset content)
    ok (record {
      transfer_id = source.transfer_id;
      file_hash = source.file_hash;
      offset = offset;
      chunk_hash = blake3 bytes;
      bytes = bytes;
    })

  unfoldable pub queue_requested : UploadSession → Bytes → FileRequest → Result UploadSession
  queue_requested u content request = do
    validate_request u.source content request
    ok (record u { requested_ranges = u.requested_ranges ++ request.missing_ranges })

  -- The next chunk becomes a frame, and the frame goes through the scheduler.
  unfoldable pub send_range :
      UploadSession → Bytes → ℕ → List ChunkRange → Result (Option PendingSend × UploadSession)
  send_range u content buffered [] = ok (none, u)
  send_range u content buffered (r ∷ rs) = do
    c ← read_chunk u.source content r.first_chunk
    wire ← encode_chunk_frame c u.next_request_id
    queued ← enqueue u.scheduler (bulk_send wire)
    let (sent, scheduler) = next queued buffered
    ok (
      sent,
      record u {
        scheduler = scheduler;
        requested_ranges = advance_range r rs;
        next_request_id = (u.next_request_id + 1) % 18446744073709551616;
      },
    )

  -- A frame that is pending already leaves first.
  unfoldable pub send_or_range :
      UploadSession
      → Bytes
      → ℕ
      → Option PendingSend × Scheduler
      → Result (Option PendingSend × UploadSession)
  send_or_range u content buffered (some p, scheduler) =
      ok (some p, record u { scheduler = scheduler })
  send_or_range u content buffered (none, scheduler) =
      if not (can_resume u.scheduler buffered)
      then ok (none, u)
      else send_range u content buffered u.requested_ranges

  unfoldable pub next_for_transport :
      UploadSession → Bytes → ℕ → Result (Option PendingSend × UploadSession)
  next_for_transport u content buffered =
      send_or_range u content buffered (next u.scheduler buffered)

unfoldable pub has_pending : UploadSession → Bool
has_pending u = not (empty? u.requested_ranges) || not (u.scheduler.pending_bytes == 0)
