-- ===== src/Sync/OneWay/ReadOnly.antt =====
-- A source of engine/sync/one_way_sync.cpp changes neither its files nor its database for a peer.
use veritas_sync_next.Prelude.{
  ◌≡◌, refl, ap, subst, sym, ◌∙◌, Bool, true, false, Option, none, some, Result, ok, err, Bytes,
  List, ℕ, bytes_key, if◌then◌else◌,
}
use veritas_sync_next.Protocol.Types.{
  Frame, Role, source, Channel, FrameType, FileRequest, is_allowed_on,
}
use veritas_sync_next.Protocol.Types
use veritas_sync_next.Protocol.Frames.{decode_frame}
use veritas_sync_next.Protocol.Transfers.{decode_file_request}
use veritas_sync_next.Protocol.Handshake.{decode_cancel}
use veritas_sync_next.Storage.Tables.{Database}
use veritas_sync_next.Sync.Download.{Disk}
use veritas_sync_next.Sync.Upload.{UploadSession}
use veritas_sync_next.Sync.OneWay.Node.{
  Node, OneWaySyncConfig, SourceFile, Action, gets, lift, modify, raise_if, send, send_hello,
  send_manifest, go_on, ◌>>=◌,
}
use veritas_sync_next.Sync.OneWay.Source.{
  send_cancel, push_upload, drop_uploads, serve, handle_file_request, source_changed,
}
use veritas_sync_next.Sync.OneWay.Receive.{
  receive_greeted, receive_hello, dispatch, receive_frame, receive, caught, is_hello,
}
use veritas_sync_next.Sync.OneWay.Keeps.{Keeps, Keeps-bind, Keeps-when, Keeps-send}

-- What belongs to the task's files, with the configuration that tells the role.
abbrev Own : Type 0
Own = OneWaySyncConfig × Database × Disk × List Bytes

abbrev own : Node → Own
own n = (n.config, n.db, n.disk, n.directories)

abbrev IsSource : Own → Type 0
IsSource o = o.0.role ≡ source

abbrev Reads : {A : Type 0} → Action A → Type 0
Reads m = Keeps own IsSource m

send-Reads : (c : Channel) (type : FrameType) (payload : Bytes) → Reads (send c type payload)
send-Reads = Keeps-send own IsSource (λ n id. refl) (λ n c wire. refl)

send_hello-Reads : Reads send_hello
unfolding send_hello
send_hello-Reads =
    Keeps-bind own IsSource (gets (λ n. n.config)) _ (λ n p. refl)
      λ config. Keeps-bind own IsSource (lift _) _ (λ n p. refl) λ payload. send-Reads _ _ payload

send_manifest-Reads : Reads send_manifest
unfolding send_manifest
send_manifest-Reads =
    Keeps-bind own IsSource (gets (λ n. n.source_manifest)) _ (λ n p. refl)
      λ manifest. Keeps-bind own IsSource (lift _) _ (λ n p. refl) λ payload. send-Reads _ _ payload

receive_hello-Reads : (payload : Bytes) → Reads (receive_hello payload)
unfolding receive_hello
receive_hello-Reads payload =
    Keeps-bind own IsSource (lift _) _ (λ n p. refl)
      λ h.
        Keeps-bind own IsSource (gets (λ n. n.config)) _ (λ n p. refl)
          λ config.
            Keeps-bind own IsSource (raise_if _ _) _ (λ n p. refl)
              λ _.
                Keeps-bind own IsSource (modify (λ n. record n { received_hello = true })) _
                  (λ n p. refl)
                  λ _.
                    Keeps-when own IsSource _ _ (
                      Keeps-bind own IsSource send_hello _ send_hello-Reads
                        λ _. send_manifest-Reads)

send_cancel-Reads : (id reason : Bytes) → Reads (send_cancel id reason)
unfolding send_cancel
send_cancel-Reads id reason =
    Keeps-bind own IsSource (lift _) _ (λ n p. refl) λ payload. send-Reads _ _ payload

push_upload-Reads :
    (r : FileRequest) (path : Bytes) (session : Result UploadSession)
    → Reads (push_upload r path session)
push_upload-Reads r path (err e) = send_cancel-Reads r.transfer_id source_changed
push_upload-Reads r path (ok session) = λ n p. refl

module _ (blake3 : Bytes → Bytes) where
  serve-Reads : (r : FileRequest) (found : Option SourceFile) → Reads (serve blake3 r found)
  unfolding serve
  serve-Reads r none = send_cancel-Reads r.transfer_id _
  serve-Reads r (some f) =
      Keeps-bind own IsSource (drop_uploads r.transfer_id) _ (λ n p. refl)
        λ _.
          Keeps-bind own IsSource (lift _) _ (λ n p. refl)
            λ scheduler.
              Keeps-bind own IsSource (gets _) _ (λ n p. refl)
                λ content. push_upload-Reads r f.path _

  handle_file_request-Reads : (r : FileRequest) → Reads (handle_file_request blake3 r)
  unfolding handle_file_request
  handle_file_request-Reads r =
      Keeps-bind own IsSource (gets _) _ (λ n p. refl) λ found. serve-Reads r found

  request-Reads :
      (payload : Bytes)
      → Reads (lift (decode_file_request payload) >>= λ r. handle_file_request blake3 r)
  request-Reads payload =
      Keeps-bind own IsSource (lift _) _ (λ n p. refl) λ r. handle_file_request-Reads r

-- A call that goes on by the role of the configuration goes on as a source.
Reads-role :
    {A : Type 0} (rest : OneWaySyncConfig → Action A)
    → ((c : OneWaySyncConfig) → c.role ≡ source → Reads (rest c))
    → Reads (gets (λ n. n.config) >>= rest)
unfolding go_on
Reads-role rest k n p = k n.config p n p

Reads-if : (b : Bool) (m k : Action (Unit {0})) → Reads m → Reads k → Reads (if b then m else k)
Reads-if true m k first second = first
Reads-if false m k first second = second

module _ (blake3 : Bytes → Bytes) (new_uuid : ℕ → Bytes) (new_transfer_id : ℕ → Bytes)
    (now : ℕ) where
  dispatch-Reads :
      (type : FrameType) (payload : Bytes)
      → Reads (dispatch blake3 new_uuid new_transfer_id now type payload source)
  unfolding dispatch go_on
  dispatch-Reads veritas_sync_next.Protocol.Types.FrameType.manifest payload = λ n p. refl
  dispatch-Reads veritas_sync_next.Protocol.Types.FrameType.file_request payload =
      request-Reads blake3 payload
  dispatch-Reads veritas_sync_next.Protocol.Types.FrameType.chunk payload = λ n p. refl
  dispatch-Reads veritas_sync_next.Protocol.Types.FrameType.cancel payload =
      Keeps-bind own IsSource (lift (decode_cancel payload)) _ (λ n p. refl) λ c n p. refl
  dispatch-Reads _ payload = λ n p. refl

  receive_greeted-Reads :
      (frame : Frame) → Reads (receive_greeted blake3 new_uuid new_transfer_id now frame)
  unfolding receive_greeted
  receive_greeted-Reads frame =
      Keeps-bind own IsSource (gets _) _ (λ n p. refl)
        λ admitted.
          Keeps-bind own IsSource (raise_if _ _) _ (λ n p. refl)
            λ _. Reads-role _ λ config e.
              subst
                (λ role.
                  Reads
                    (dispatch blake3 new_uuid new_transfer_id now frame.type frame.payload role))
                (sym e) (dispatch-Reads frame.type frame.payload)

  receive_frame-Reads :
      (channel : Channel) (wire : Bytes)
      → Reads (receive_frame blake3 new_uuid new_transfer_id now channel wire)
  unfolding receive_frame
  receive_frame-Reads channel wire =
      Keeps-bind own IsSource (modify _) _ (λ n p. refl)
        λ _.
          Keeps-bind own IsSource (lift (decode_frame wire)) _ (λ n p. refl)
            λ frame.
              Keeps-bind own IsSource (raise_if _ _) _ (λ n p. refl)
                λ _.
                  Reads-if (is_hello frame.type) _ _ (receive_hello-Reads frame.payload)
                    (receive_greeted-Reads frame)

  own-caught : (out : Result (Unit {0}) × Node) → own (caught out) ≡ own out.1
  own-caught (ok done, n) = refl
  own-caught (err e, n) = refl

  -- Whatever a peer sends to a source, on whichever channel, the source's files and its database stay
  -- as they are.
  pub receive-source :
      (channel : Channel) (wire : Bytes) (n : Node)
      → n.config.role ≡ source
      → let after = receive blake3 new_uuid new_transfer_id now channel wire n in
        (after.db ≡ n.db) × (after.disk ≡ n.disk) × (after.directories ≡ n.directories)
  unfolding receive
  receive-source channel wire n role =
      let same =
        own-caught (receive_frame blake3 new_uuid new_transfer_id now channel wire n)
        ∙ receive_frame-Reads channel wire n role in
      (ap (λ (o : Own). o.1) same, ap (λ (o : Own). o.2) same, ap (λ (o : Own). o.3) same)
