-- ===== src/Sync/OneWay/Node.antt =====
-- The state of engine/sync/one_way_sync.cpp and engine/sync/one_way_sync.h, and the calls on it: what
-- a call has changed stays when it throws. `disk` and `directories` are the task's files, and `sent`
-- the frames given to the transport, the last one first. `drawn` counts the generated ids.
use veritas_sync_next.Prelude.{
  ℕ, ◌+◌, ◌%◌, Bool, true, false, Option, List, [], ◌∷◌, Bytes, Result, ok, err, Error,
  if◌then◌else◌, length,
}
use veritas_sync_next.Protocol.Types.{Role, Channel, FrameType, Manifest, ManifestEntry, Hello}
use veritas_sync_next.Protocol.Types
use veritas_sync_next.Protocol.Frames.{encode_frame}
use veritas_sync_next.Protocol.Handshake.{encode_hello}
use veritas_sync_next.Protocol.Manifests.{encode_manifest}
use veritas_sync_next.Storage.Tables.{Database}
use veritas_sync_next.Sync.Download.{Disk, Receiver}
use veritas_sync_next.Sync.Upload.{UploadSession}

pub record OneWaySyncConfig : Type 0 where
  pub task_id : Bytes
  pub role : Role
  pub device_id : Bytes
  pub peer_device_id : Bytes
  pub device_fingerprint : Bytes
  pub authorization_digest : Bytes

pub record TransferStatistics : Type 0 where
  pub control_bytes_sent : ℕ
  pub bulk_bytes_sent : ℕ
  pub control_bytes_received : ℕ
  pub bulk_bytes_received : ℕ
  pub chunks_sent : ℕ
  pub chunks_received : ℕ
  pub files_committed : ℕ
  pub files_deleted : ℕ
  pub backpressure_pauses : ℕ

pub record SourceFile : Type 0 where
  pub path : Bytes
  pub hash : Bytes

pub record ActiveDownload : Type 0 where
  pub entry : ManifestEntry
  pub hash : Bytes
  pub transfer_id : Bytes
  pub chunk_count : ℕ
  pub receiver : Receiver
  pub durable_chunks : ℕ
  pub dirty_bytes : ℕ
  pub dirty_chunks : List ℕ

-- A session with the path of its file.
pub record PendingUpload : Type 0 where
  pub transfer_id : Bytes
  pub path : Bytes
  pub session : UploadSession

pub record Node : Type 0 where
  pub config : OneWaySyncConfig
  pub db : Database
  pub disk : Disk
  pub directories : List Bytes
  pub started : Bool
  pub received_hello : Bool
  pub next_request_id : ℕ
  pub manifest_revision : ℕ
  pub source_manifest : Manifest
  pub source_files : List SourceFile
  pub downloads : List ActiveDownload
  pub uploads : List PendingUpload
  pub received_manifest : Option Manifest
  pub last_error : Option Error
  pub statistics : TransferStatistics
  pub sent : List (Channel × Bytes)
  pub drawn : ℕ

-- A call on the node.
abbrev pub Action : Type 0 → Type 0
Action A = Node → Result A × Node

module _ {A : Type 0} where
  abbrev pub pure : A → Action A
  pure a n = (ok a, n)

  abbrev pub raise : Error → Action A
  raise e n = (err e, n)

  abbrev pub gets : (Node → A) → Action A
  gets f n = (ok (f n), n)

  -- A call that leaves the node alone.
  abbrev pub lift : Result A → Action A
  lift r n = (r, n)

abbrev pub modify : (Node → Node) → Action (Unit {0})
modify f n = (ok tt, f n)

abbrev pub raise_if : Bool → Error → Action (Unit {0})
raise_if b e n = (if b then err e else ok tt, n)

-- An exception leaves the rest of a block out.
unfoldable pub go_on : {A B : Type 0} → (A → Action B) → Result A × Node → Result B × Node
go_on rest (err e, n) = (err e, n)
go_on rest (ok a, n) = rest a n

infixl 5 ◌>>=◌
abbrev pub ◌>>=◌ : {A B : Type 0} → Action A → (A → Action B) → Action B
◌>>=◌ m rest n = go_on rest (m n)

infixl 5 ◌>>◌
abbrev pub ◌>>◌ : {A B : Type 0} → Action A → Action B → Action B
m >> rest = m >>= λ done. rest

-- if (test) { body }
abbrev pub when : Bool → Action (Unit {0}) → Action (Unit {0})
when true body = body
when false body = pure tt

-- for (element : elements) { body }
abbrev pub for_each : {A : Type 0} → (A → Action (Unit {0})) → List A → Action (Unit {0})
for_each body [] = pure tt
for_each body (a ∷ rest) = body a >> for_each body rest

abbrev pub count_sent : Channel → ℕ → TransferStatistics → TransferStatistics
count_sent veritas_sync_next.Protocol.Types.Channel.control bytes s = record s {
  control_bytes_sent = s.control_bytes_sent + bytes;
}
count_sent veritas_sync_next.Protocol.Types.Channel.bulk bytes s = record s {
  bulk_bytes_sent = s.bulk_bytes_sent + bytes;
}

abbrev pub count_received : Channel → ℕ → TransferStatistics → TransferStatistics
count_received veritas_sync_next.Protocol.Types.Channel.control bytes s = record s {
  control_bytes_received = s.control_bytes_received + bytes;
}
count_received veritas_sync_next.Protocol.Types.Channel.bulk bytes s = record s {
  bulk_bytes_received = s.bulk_bytes_received + bytes;
}

-- transport_.Send, after the count.
abbrev pub give : Channel → Bytes → Action (Unit {0})
give channel wire = modify λ n. record n {
  statistics = count_sent channel (length wire) n.statistics;
  sent = (channel, wire) ∷ n.sent;
}

unfoldable pub send : Channel → FrameType → Bytes → Action (Unit {0})
send channel type payload = do
  id ← gets (λ n. n.next_request_id)
  modify (λ n. record n { next_request_id = (n.next_request_id + 1) % 18446744073709551616 })
  wire ← lift (encode_frame (record { type = type; request_id = id; payload = payload }))
  give channel wire

unfoldable pub send_manifest : Action (Unit {0})
send_manifest = do
  manifest ← gets (λ n. n.source_manifest)
  payload ← lift (encode_manifest manifest)
  send veritas_sync_next.Protocol.Types.Channel.control
      veritas_sync_next.Protocol.Types.FrameType.manifest payload

abbrev pub hello_of : OneWaySyncConfig → Hello
hello_of c = record {
  task_id = c.task_id;
  role = c.role;
  device_id = c.device_id;
  device_fingerprint = c.device_fingerprint;
  authorization_digest = c.authorization_digest;
}

unfoldable pub send_hello : Action (Unit {0})
send_hello = do
  config ← gets (λ n. n.config)
  payload ← lift (encode_hello (hello_of config))
  send veritas_sync_next.Protocol.Types.Channel.control
      veritas_sync_next.Protocol.Types.FrameType.hello payload

-- An id from NewUuidV4 or NewTransferId.
abbrev pub draw : (ℕ → Bytes) → Action Bytes
draw new_id = do
  n ← gets (λ n. n.drawn)
  modify (λ n. record n { drawn = n.drawn + 1 })
  pure (new_id n)
