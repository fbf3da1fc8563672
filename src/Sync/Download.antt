-- ===== src/Sync/Download.antt =====
-- engine/sync/download_receiver.cpp, and of engine/storage/safe_file_writer.cpp what it does to the
-- bytes of partial and finished files.
pub mod Laws
use veritas_sync_next.Prelude.{
  ℕ, zero, suc, ◌+◌, ◌-◌, ◌*◌, ◌/◌, ◌%◌, ◌^◌, min, Bool, true, false, not, ◌&&◌, ◌||◌, Bytes,
  Result, ok, err, invalid_argument, runtime_error, logic_error, List, [], ◌∷◌, ◌++◌, Option, none,
  some, empty?, length, take, drop, replicate, get_or, set, if◌then◌else◌, forbid, ◌>>=◌, ◌>>◌,
  ◌==◌, ltb, leb, bytes_eq, lookup, assign, erase, bytes_key,
}
use veritas_sync_next.Protocol.Types.{FileRequest, logical_chunk_size}
use veritas_sync_next.Storage.Tables.{Database, cancelled, completed}
use veritas_sync_next.Storage.Transfers.{
  completed_transfer_chunks, mark_transfer_chunk_completed, mark_transfer_chunks_completed,
  update_transfer_state,
}
use veritas_sync_next.Sync.Resume.{build_resume_request}

-- The partial and the finished files under a task's root, by relative path.
pub record Disk : Type 0 where
  pub parts : List (Bytes × Bytes)
  pub files : List (Bytes × Bytes)

-- The bytes before the offset; a gap there is filled with zeros.
unfoldable pub front_of : ℕ → Bytes → Bytes
front_of offset content = take offset (content ++ replicate (offset - length content) 0)

-- seekp and write; without bytes nothing is written.
unfoldable pub write_at : ℕ → Bytes → Bytes → Bytes
write_at offset [] content = content
write_at offset (b ∷ bs) content =
    front_of offset content ++ (b ∷ bs) ++ drop (offset + length (b ∷ bs)) content

abbrev pub content_or_empty : Option Bytes → Bytes
content_or_empty none = []
content_or_empty (some content) = content

unfoldable pub written_partial : Disk → Bytes → ℕ → Bytes → Disk
written_partial disk path offset bytes = record disk {
  parts =
      assign path (write_at offset bytes (content_or_empty (lookup path disk.parts))) disk.parts;
}

-- WritePartialChunk: the offset has to be a std::streamoff, and the range inside 64 bits.
unfoldable pub write_partial : Disk → Bytes → ℕ → Bytes → Result Disk
write_partial disk path offset bytes = do
  forbid (ltb 9223372036854775807 offset) (invalid_argument "chunk offset is too large")
  forbid (ltb (18446744073709551615 - offset) (length bytes))
      (invalid_argument "chunk range overflows")
  ok (written_partial disk path offset bytes)

pub record Receiver : Type 0 where
  pub transfer_id : Bytes
  pub relative_path : Bytes
  pub expected_size : ℕ
  pub expected_hash : Bytes
  pub chunk_count : ℕ
  pub cancelled : Bool
  pub accepted : List Bool
  pub received_bytes : ℕ

-- The number of chunks of a file.
abbrev pub chunks_of : ℕ → ℕ
chunks_of size = size / logical_chunk_size + (if size % logical_chunk_size == 0 then 0 else 1)

abbrev pub chunk_length : ℕ → ℕ → ℕ
chunk_length size offset = if ltb offset size then min logical_chunk_size (size - offset) else 0

-- The loop over the durable chunks.
unfoldable pub restore : List ℕ → Receiver → Result Receiver
restore [] r = ok r
restore (index ∷ rest) r =
    if leb r.chunk_count index
    then err (runtime_error "durable chunk index is out of range")
    else restore rest (record r {
      accepted = set r.accepted index true;
      received_bytes =
          r.received_bytes + min logical_chunk_size (r.expected_size - index * logical_chunk_size);
    })

unfoldable pub create_receiver : Database → Bytes → Bytes → ℕ → Bytes → ℕ → Result Receiver
create_receiver db transfer_id path size hash count = do
  forbid (empty? path || count == 0) (invalid_argument "download metadata is invalid")
  forbid (not (chunks_of size == count))
      (invalid_argument "download chunk count does not match size")
  restore (completed_transfer_chunks db transfer_id) (record {
    transfer_id = transfer_id;
    relative_path = path;
    expected_size = size;
    expected_hash = hash;
    chunk_count = count;
    cancelled = false;
    accepted = replicate count false;
    received_bytes = 0;
  })

-- The receiver with the database and the disk that it works on.
pub record Session : Type 0 where
  pub receiver : Receiver
  pub db : Database
  pub disk : Disk

abbrev pub not_cancelled : Receiver → Result (Unit {0})
not_cancelled r = forbid r.cancelled (logic_error "download is cancelled")

unfoldable pub mark_if : Bool → Database → Bytes → ℕ → ℕ → Result Database
mark_if true db id index time = mark_transfer_chunk_completed db id index time
mark_if false db id index time = ok db

unfoldable pub accepted_chunk : Session → ℕ → Bytes → Database → Disk → Session
accepted_chunk s index bytes db disk = record {
  receiver = record s.receiver {
    accepted = set s.receiver.accepted index true;
    received_bytes = s.receiver.received_bytes + length bytes;
  };
  db = db;
  disk = disk;
}

abbrev pub is_some {ℓ} : {A : Type ℓ} → Option A → Bool
is_some none = false
is_some (some a) = true

abbrev pub has_part : Disk → Bytes → Bool
has_part disk path = is_some (lookup path disk.parts)

unfoldable pub persist_accepted_chunks : Session → List ℕ → ℕ → Result Session
persist_accepted_chunks s indices time = do
  not_cancelled s.receiver
  forbid (not (has_part s.disk s.receiver.relative_path))
      (runtime_error "partial download does not exist for flush")
  db ← mark_transfer_chunks_completed s.db s.receiver.transfer_id indices time
  ok (record s { db = db })

unfoldable pub resume_request : Session → Result FileRequest
resume_request s = do
  not_cancelled s.receiver
  build_resume_request s.receiver.transfer_id s.receiver.expected_hash s.receiver.chunk_count s.db

abbrev pub cancelled_receiver : Receiver → Receiver
cancelled_receiver r = record r { cancelled = true }

unfoldable pub cancel : Session → Bytes → Bytes → ℕ → Result Session
cancel s transfer_id reason time = do
  forbid (not (bytes_eq transfer_id s.receiver.transfer_id))
      (invalid_argument "cancel does not match transfer")
  db ← update_transfer_state s.db s.receiver.transfer_id cancelled time (some reason)
  ok (record s { db = db; receiver = cancelled_receiver s.receiver })

-- Whether the list is first, first + 1 and so on.
unfoldable pub counts_from : ℕ → List ℕ → Bool
counts_from first [] = true
counts_from first (c ∷ cs) = c == first && counts_from (first + 1) cs

-- `blake3` stands for common::Blake3, which calls the BLAKE3 library.
module _ (blake3 : Bytes → Bytes) where
  unfoldable pub accept_chunk : Session → ℕ → ℕ → Bytes → Bytes → ℕ → Bool → Result (Bool × Session)
  accept_chunk s index offset bytes hash time persist = do
    not_cancelled s.receiver
    let expected_offset = (index * logical_chunk_size) % 18446744073709551616
    forbid
        (leb s.receiver.chunk_count index
          || not (offset == expected_offset)
          || not (length bytes == chunk_length s.receiver.expected_size expected_offset)
          || not (bytes_eq (blake3 bytes) hash))
        (invalid_argument "download chunk is invalid")
    if get_or s.receiver.accepted index false
        then ok (false, s)
        else (write_partial s.disk s.receiver.relative_path offset bytes >>= λ disk.
            mark_if persist s.db s.receiver.transfer_id index time >>= λ db.
            ok (true, accepted_chunk s index bytes db disk))

  -- CommitPartial: the partial file becomes the file, if its size and hash are right.
  unfoldable pub commit_partial : Disk → Bytes → ℕ → Bytes → Option Bytes → Result Disk
  commit_partial disk path size hash none = err (runtime_error "partial download does not exist")
  commit_partial disk path size hash (some content) = do
    forbid (not (length content == size)) (invalid_argument "partial download size does not match")
    forbid (not (bytes_eq (blake3 content) hash))
        (invalid_argument "partial download hash does not match")
    ok (record { parts = erase path disk.parts; files = assign path content disk.files })

  unfoldable pub commit : Session → ℕ → Result Session
  commit s time = do
    not_cancelled s.receiver
    let done = completed_transfer_chunks s.db s.receiver.transfer_id
    forbid (not (length done == s.receiver.chunk_count) || not (counts_from 0 done))
        (logic_error "download has missing chunks")
    disk ←
        commit_partial s.disk s.receiver.relative_path s.receiver.expected_size
          s.receiver.expected_hash (lookup s.receiver.relative_path s.disk.parts)
    db ← update_transfer_state s.db s.receiver.transfer_id completed time none
    ok (record s { disk = disk; db = db })
