-- ===== src/Sync/OneWay/Gate.antt =====
-- Before a node of engine/sync/one_way_sync.cpp has taken the HELLO of its peer, frames change nothing
-- of what it holds.
use veritas_sync_next.Prelude.{
  length, ◌&&◌, ℕ, not, ◌≡◌, ◌⊎◌, refl, ap, ◌∙◌, inl, inr, Bool, true, false, Option, Result, ok,
  err, Error, invalid_argument, Bytes, List, Bool-cases, Result-cases, if◌then◌else◌,
}
use veritas_sync_next.Protocol.Frames.{decode_frame}
use veritas_sync_next.Protocol.Types.{is_allowed_on, Channel, Frame, Hello, Manifest}
use veritas_sync_next.Protocol.Handshake.{decode_hello}
use veritas_sync_next.Storage.Tables.{Database}
use veritas_sync_next.Sync.Download.{Disk}
use veritas_sync_next.Sync.OneWay.Node.{
  count_received, Node, OneWaySyncConfig, ActiveDownload, PendingUpload, Action, lift, raise_if,
  go_on,
}
use veritas_sync_next.Sync.OneWay.Receive.{
  receive_frame, receive_greeted, receive, receive_hello, caught, is_hello, unauthorized,
}

module _ {A C : Type 0} (rest : A → Action C) (n : Node) where
  go_ok : (a : A) → go_on rest (ok a, n) ≡ rest a n
  unfolding go_on
  go_ok a = refl

  go_err : (e : Error) → go_on rest (err e, n) ≡ (err e, n)
  unfolding go_on
  go_err e = refl

  lift_ok : (r : Result A) (a : A) → r ≡ ok a → go_on rest (lift r n) ≡ rest a n
  lift_ok r a e = ap (λ (x : Result A). go_on rest (x, n)) e ∙ go_ok a

  lift_err : (r : Result A) (e : Error) → r ≡ err e → go_on rest (lift r n) ≡ (err e, n)
  lift_err r e h = ap (λ (x : Result A). go_on rest (x, n)) h ∙ go_err e

module _ {C : Type 0} (rest : Unit {0} → Action C) (n : Node) (e : Error) where
  refused : (b : Bool) → b ≡ true → go_on rest (raise_if b e n) ≡ (err e, n)
  refused b h = ap (λ x. go_on rest (if x then err e else ok tt, n)) h ∙ go_err rest n e

  passed : (b : Bool) → b ≡ false → go_on rest (raise_if b e n) ≡ rest tt n
  passed b h = ap (λ x. go_on rest (if x then err e else ok tt, n)) h ∙ go_ok rest n tt

-- What a node holds for its task and its peer, and what it has sent.
abbrev pub held :
    Node
    → Database
      × Disk
      × List Bytes
      × List ActiveDownload
      × List PendingUpload
      × Option Manifest
      × List (Channel × Bytes)
      × Bool
held n = (
  n.db, n.disk, n.directories, n.downloads, n.uploads, n.received_manifest, n.sent,
  n.received_hello,
)

-- A frame with a HELLO of the peer that the node is configured for.
abbrev pub Greets : OneWaySyncConfig → Frame → Type 0
Greets config f =
    (is_hello f.type ≡ true)
    × (h : Hello) × (decode_hello f.payload ≡ ok h)
    × (unauthorized config h ≡ false)

hello-gate :
    (f : Frame) (n : Node)
    → is_hello f.type ≡ true
    → (held (caught (receive_hello f.payload n)) ≡ held n) ⊎ Greets n.config f
unfolding receive_hello
hello-gate f n is = elim (Result-cases (decode_hello f.payload)) [
  | inr (e, h) ↦ inl (ap (λ out. held (caught out)) (lift_err _ n (decode_hello f.payload) e h))
  | inl (hello, h) ↦ elim (Bool-cases (unauthorized n.config hello)) [
    | inr good ↦ inr (is, hello, h, good)
    | inl bad ↦ inl (
        ap (λ out. held (caught out))
          (lift_ok _ n (decode_hello f.payload) hello h
            ∙ go_ok _ n n.config
            ∙ refused _ n (invalid_argument "unauthorized_peer") (unauthorized n.config hello) bad))
  ]
]

not_greeted : (a b : Bool) → b ≡ false → not (a && b) ≡ true
not_greeted true b h = ap not h
not_greeted false b h = refl

counted : Channel → Bytes → Node → Node
counted channel wire n = record n { statistics = count_received channel (length wire) n.statistics }

module _ (blake3 : Bytes → Bytes) (new_uuid : ℕ → Bytes) (new_transfer_id : ℕ → Bytes)
    (now : ℕ) where
  greeted-gate :
      (f : Frame) (n : Node)
      → n.received_hello ≡ false
      → held (caught (receive_greeted blake3 new_uuid new_transfer_id now f n)) ≡ held n
  unfolding receive_greeted
  greeted-gate f n fresh =
      ap (λ out. held (caught out))
        (go_ok _ n (n.started && n.received_hello)
          ∙ refused _ n (invalid_argument "unauthorized_peer") (not (n.started && n.received_hello))
              (not_greeted n.started n.received_hello fresh))

  frame-gate :
      (f : Frame) (n : Node)
      → n.received_hello ≡ false
      → (b : Bool) → is_hello f.type ≡ b
      → (held (
            caught (
              (if b
                  then receive_hello f.payload
                  else receive_greeted blake3 new_uuid new_transfer_id now f)
                n))
          ≡ held n)
        ⊎ Greets n.config f
  frame-gate f n fresh true is = hello-gate f n is
  frame-gate f n fresh false is = inl (greeted-gate f n fresh)

  -- A frame that a node receives before it has taken its peer's HELLO leaves the node's database, files,
  -- transfers and manifest as they are and makes it send nothing, unless the frame is itself a HELLO of
  -- the configured task, peer, authorization and role, on a channel where it is allowed.
  pub receive-gate :
      (channel : Channel) (wire : Bytes) (n : Node)
      → n.received_hello ≡ false
      → (held (receive blake3 new_uuid new_transfer_id now channel wire n) ≡ held n)
        ⊎ ((f : Frame) × (decode_frame wire ≡ ok f)
            × (is_allowed_on channel f.type ≡ true)
            × Greets n.config f)
  unfolding receive receive_frame counted
  receive-gate channel wire n fresh = elim (Result-cases (decode_frame wire)) [
    | inr (e, h) ↦ inl (
        ap (λ out. held (caught out))
          (go_ok _ (counted channel wire n) tt
            ∙ lift_err _ (counted channel wire n) (decode_frame wire) e h))
    | inl (f, h) ↦ elim (Bool-cases (is_allowed_on channel f.type)) [
      | inr wrong ↦ inl (
          ap (λ out. held (caught out))
            (go_ok _ (counted channel wire n) tt
              ∙ lift_ok _ (counted channel wire n) (decode_frame wire) f h
              ∙ refused _ (counted channel wire n) (invalid_argument "wrong_channel")
                  (not (is_allowed_on channel f.type)) (ap not wrong)))
      | inl right ↦ elim (frame-gate f (counted channel wire n) fresh (is_hello f.type) refl) [
        | inr greets ↦ inr (f, h, right, greets)
        | inl kept ↦ inl (
            ap (λ out. held (caught out))
              (go_ok _ (counted channel wire n) tt
                ∙ lift_ok _ (counted channel wire n) (decode_frame wire) f h
                ∙ passed _ (counted channel wire n) (invalid_argument "wrong_channel")
                    (not (is_allowed_on channel f.type)) (ap not right))
            ∙ kept)
      ]
    ]
  ]
