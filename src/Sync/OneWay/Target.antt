-- ===== src/Sync/OneWay/Target.antt =====
-- The target's side of engine/sync/one_way_sync.cpp. `now` is the clock's answer during a call, and
-- `new_uuid` and `new_transfer_id` answer the n-th id that is asked for.
use veritas_sync_next.Prelude.{
  ℕ, ◌+◌, ◌/◌, Bool, false, not, ◌||◌, ◌&&◌, Option, none, some, List, [], ◌∷◌, ◌++◌, Bytes,
  invalid_argument, peer_reason, any_of, find_if, bytes_eq, bytes_lt, bytes_key, lookup, map,
  length, empty?, sort_by, ltb, leb, ◌==◌, if◌then◌else◌,
}
use veritas_sync_next.Protocol.Types.{Manifest, ManifestEntry, Chunk, Cancel, logical_chunk_size}
use veritas_sync_next.Protocol.Types
use veritas_sync_next.Protocol.Transfers.{encode_file_request}
use veritas_sync_next.Storage.Tables.{FileRecord, file, directory, TransferRecord, download, active}
use veritas_sync_next.Storage.Records.{
  record_tombstone, find_file_record, list_file_records, is_tombstone,
}
use veritas_sync_next.Storage.Transfers.{
  find_active_download_transfer, create_transfer, completed_transfer_chunks,
}
use veritas_sync_next.Storage.TaskPaths.{resolve_task_path}
use veritas_sync_next.Sync.Download.{
  Receiver, Session, create_receiver, resume_request, persist_accepted_chunks, cancel,
  content_or_empty,
}
use veritas_sync_next.Sync.Download
use veritas_sync_next.Sync.OneWay.Hashes.{decode_hash, chunk_count}
use veritas_sync_next.Sync.OneWay.Node.{
  ActiveDownload, Action, pure, raise, gets, lift, modify, raise_if, when, for_each, send, draw,
  ◌>>=◌, ◌>>◌,
}
use veritas_sync_next.Sync.OneWay.Files.{
  is_directory_at, is_file_at, ensure_directory, discard_partial, write_atomically,
}
use veritas_sync_next.Sync.OneWay.Entries.{
  persist_batch_bytes, is_directory_entry, check_entry, has_repeat, store_record, entry_record,
  count_committed, count_chunk, remove_entry, is_recorded_directory, is_recorded_file,
  same_download, erase_download, put_download, session_of, put_session, mark_dirty,
}

module _ (blake3 : Bytes → Bytes) (new_uuid : ℕ → Bytes) (new_transfer_id : ℕ → Bytes)
    (now : ℕ) where
  unfoldable pub delete_record : List Bytes → FileRecord → Action (Unit {0})
  delete_record source_paths r = do
    config ← gets (λ n. n.config)
    when (not (is_tombstone r.kind || any_of (bytes_eq r.relative_path) source_paths)) (do
      remove_entry r.kind r.relative_path
      version ← draw new_uuid
      db ← gets (λ n. n.db)
      next ←
          lift
            (record_tombstone db config.task_id r.relative_path version config.peer_device_id 0 now)
      modify (λ n. record n { db = next }))

  -- The longest paths go first, so that a directory is empty when its turn comes.
  unfoldable pub delete_files_absent_from : Manifest → Action (Unit {0})
  delete_files_absent_from m = do
    config ← gets (λ n. n.config)
    db ← gets (λ n. n.db)
    records ← lift (list_file_records db config.task_id)
    for_each (delete_record (map (λ (e : ManifestEntry). e.relative_path) m.entries))
        (sort_by (λ a b. ltb (length b.relative_path) (length a.relative_path)) records)

  unfoldable pub target_already_has : ManifestEntry → Action Bool
  target_already_has e = do
    lift (resolve_task_path e.relative_path)
    config ← gets (λ n. n.config)
    db ← gets (λ n. n.db)
    r ← lift (find_file_record db config.task_id e.relative_path)
    if is_directory_entry e
        then gets (λ n. is_recorded_directory r && is_directory_at n e.relative_path)
        else (do
          hash ← lift (decode_hash e.content_hash)
          gets (λ n.
              is_recorded_file r e hash
              && is_file_at n e.relative_path
              && bytes_eq (blake3 (content_or_empty (lookup e.relative_path n.disk.files))) hash))

  unfoldable pub commit_receiver : ManifestEntry → Bytes → Receiver → Action (Unit {0})
  commit_receiver e hash r = do
    s ← gets (session_of r)
    done ← lift (veritas_sync_next.Sync.Download.commit blake3 s now)
    put_session done

  unfoldable pub begin_empty : ManifestEntry → Action (Unit {0})
  begin_empty e = do
    config ← gets (λ n. n.config)
    write_atomically e.relative_path []
    count_committed
    hash ← lift (decode_hash e.content_hash)
    version ← draw new_uuid
    store_record (record (entry_record config e file hash version) { size = 0 })

  -- The transfer that is active already, or a new one.
  unfoldable pub transfer_for : ManifestEntry → Bytes → Option TransferRecord → Action Bytes
  transfer_for e hash (some t) = pure t.transfer_id
  transfer_for e hash none = do
    config ← gets (λ n. n.config)
    id ← draw new_transfer_id
    discard_partial e.relative_path
    db ← gets (λ n. n.db)
    next ← lift (
        create_transfer db (record {
          transfer_id = id;
          task_id = config.task_id;
          peer_device_id = config.peer_device_id;
          direction = download;
          file_hash = hash;
          state = active;
          created_at_ms = now;
          updated_at_ms = now;
          relative_path = e.relative_path;
          error_code = none;
        }))
    modify (λ n. record n { db = next })
    pure id

  unfoldable pub start_download : ManifestEntry → Bytes → Action (Unit {0})
  start_download e hash = do
    config ← gets (λ n. n.config)
    db ← gets (λ n. n.db)
    known ←
        lift (
          find_active_download_transfer db config.task_id config.peer_device_id e.relative_path
            hash)
    id ← transfer_for e hash known
    current ← gets (λ n. n.db)
    r ← lift (create_receiver current id e.relative_path e.size hash (chunk_count e.size))
    s ← gets (session_of r)
    request ← lift (resume_request s)
    if empty? request.missing_ranges
        then (do
          commit_receiver e hash r
          version ← draw new_uuid
          store_record (entry_record config e file hash version))
        else (do
          modify (λ n. record n {
            downloads =
                n.downloads
                ++ record {
                  entry = e;
                  hash = hash;
                  transfer_id = id;
                  chunk_count = chunk_count e.size;
                  receiver = r;
                  durable_chunks = length (completed_transfer_chunks n.db id);
                  dirty_bytes = 0;
                  dirty_chunks = [];
                }
                  ∷ [];
          })
          payload ← lift (encode_file_request request)
          send veritas_sync_next.Protocol.Types.Channel.control
              veritas_sync_next.Protocol.Types.FrameType.file_request payload)

  unfoldable pub begin_download : ManifestEntry → Action (Unit {0})
  begin_download e = if e.size == 0 then begin_empty e else (do
    hash ← lift (decode_hash e.content_hash)
    running ← gets (λ n.
        any_of (λ d. bytes_eq d.entry.relative_path e.relative_path && bytes_eq d.hash hash)
          n.downloads)
    when (not running) (start_download e hash))

  -- The body of ApplyManifest's last loop.
  unfoldable pub take_entry : ManifestEntry → Action (Unit {0})
  take_entry e = do
    config ← gets (λ n. n.config)
    present ← target_already_has e
    if is_directory_entry e
        then when (not present) (do
          ensure_directory e.relative_path
          version ← draw new_uuid
          store_record (record (entry_record config e directory [] version) { size = 0 }))
        else when (not present) (begin_download e)

  unfoldable pub apply_manifest : Manifest → Action (Unit {0})
  apply_manifest m = do
    for_each check_entry m.entries
    raise_if
        (has_repeat (sort_by bytes_lt (map (λ (e : ManifestEntry). e.relative_path) m.entries)))
        (invalid_argument "manifest contains duplicate paths")
    modify (λ n. record n { last_error = none; received_manifest = some m })
    delete_files_absent_from m
    for_each take_entry m.entries

  unfoldable pub persist_download_chunks : ActiveDownload → Action ActiveDownload
  persist_download_chunks d = if empty? d.dirty_chunks then pure d else (do
    s ← gets (session_of d.receiver)
    done ← lift (persist_accepted_chunks s d.dirty_chunks now)
    let clean = record d {
      durable_chunks = d.durable_chunks + length d.dirty_chunks;
      dirty_chunks = [];
      dirty_bytes = 0;
    }
    put_session done
    put_download clean
    pure clean)

  unfoldable pub persist_pending_downloads : Bool → Action (Unit {0})
  persist_pending_downloads force = do
    downloads ← gets (λ n. n.downloads)
    for_each
        (λ d.
          when (force || leb persist_batch_bytes d.dirty_bytes)
            (persist_download_chunks d >>= λ clean. pure tt))
        downloads

  unfoldable pub commit_download : ActiveDownload → Action (Unit {0})
  commit_download d = do
    config ← gets (λ n. n.config)
    commit_receiver d.entry d.hash d.receiver
    count_committed
    version ← draw new_uuid
    store_record (entry_record config d.entry file d.hash version)

  -- What follows a chunk that is new.
  unfoldable pub chunk_accepted : ActiveDownload → Action (Unit {0})
  chunk_accepted d = do
    put_download d
    current ←
        (if leb persist_batch_bytes d.dirty_bytes
            || d.durable_chunks + length d.dirty_chunks == d.chunk_count
          then persist_download_chunks d
          else pure d)
    when (current.durable_chunks == current.chunk_count) (do
      commit_download current
      modify (λ n. record n { downloads = erase_download current n.downloads }))

  unfoldable pub accept_for : Chunk → Option ActiveDownload → Action (Unit {0})
  accept_for c none = raise (invalid_argument "chunk does not belong to an active download")
  accept_for c (some d) = do
    s ← gets (session_of d.receiver)
    let index = c.offset / logical_chunk_size
    (accepted, next) ← lift (
        veritas_sync_next.Sync.Download.accept_chunk blake3 s index c.offset c.bytes c.chunk_hash
          now false)
    when accepted (do
      put_session next
      count_chunk
      chunk_accepted (mark_dirty (record d { receiver = next.receiver }) index (length c.bytes)))

  unfoldable pub accept_chunk : Chunk → Action (Unit {0})
  accept_chunk c = do
    found ← gets (λ n. find_if (same_download c.transfer_id c.file_hash) n.downloads)
    accept_for c found

  unfoldable pub cancel_for : Cancel → Option ActiveDownload → Action (Unit {0})
  cancel_for c none = raise (invalid_argument "cancel does not match an active download")
  cancel_for c (some d) = do
    s ← gets (session_of d.receiver)
    next ← lift (cancel s c.transfer_id c.reason now)
    put_session next
    modify (λ n. record n {
      downloads = erase_download d n.downloads;
      last_error = some (peer_reason c.reason);
    })

  unfoldable pub cancel_download : Cancel → Action (Unit {0})
  cancel_download c = do
    found ← gets (λ n. find_if (λ d. bytes_eq d.transfer_id c.transfer_id) n.downloads)
    cancel_for c found
