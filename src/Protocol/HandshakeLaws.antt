-- ===== src/Protocol/HandshakeLaws.antt =====
-- HELLO, CANCEL and ignore-policy messages survive the wire.
use veritas_sync_next.Prelude.{
  ◌||◌, ◌≡◌, refl, true, false, Bytes, ok, [], inl, inr, Bool-cases, empty?, length, ◌==◌,
}
use veritas_sync_next.Protocol.Types.{
  Role, source, target, peer, role_code, Hello, Cancel, IgnorePolicyMessage,
}
use veritas_sync_next.Protocol.Writer.{put_u8, put_bytes, put_string}
use veritas_sync_next.Protocol.Reader.{read_u8, read_bytes, read_string, finish}
use veritas_sync_next.Protocol.RoundTrip.{
  Reads-end, Reads-unless, Reads, Reads-seq, Reads-last, run-Reads, string-Reads, u8-Reads,
  bytes-Reads,
}
use veritas_sync_next.Protocol.Handshake.{
  RawHello, encode_hello, read_hello, check_hello, decode_hello, encode_cancel, read_cancel, whole,
  decode_cancel, policy_rejected, encode_ignore_policy, read_ignore_policy, check_ignore_policy,
  decode_ignore_policy, role_of,
}

abbrev raw_hello : Hello → RawHello
raw_hello h = record {
  task_id = h.task_id;
  role = role_code h.role;
  device_id = h.device_id;
  device_fingerprint = h.device_fingerprint;
  authorization_digest = h.authorization_digest;
}

hello-Reads : (h : Hello) → Reads (encode_hello h) read_hello (raw_hello h)
unfolding encode_hello read_hello
hello-Reads h =
    Reads-seq (put_string h.task_id) _ read_string _ h.task_id _ (string-Reads h.task_id) (
      Reads-seq (put_u8 (role_code h.role)) _ read_u8 _ (role_code h.role) _
        (u8-Reads (role_code h.role))
        (Reads-seq (put_string h.device_id) _ read_string _ h.device_id _ (string-Reads h.device_id)
          (Reads-seq (put_string h.device_fingerprint) _ read_string _ h.device_fingerprint _
            (string-Reads h.device_fingerprint)
            (Reads-last (put_string h.authorization_digest) read_string _ h.authorization_digest
              (string-Reads h.authorization_digest)))))

-- The three identities that the receiver insists on are there.
pub record IsComplete (h : Hello) : Type 0 where
  pub task : empty? h.task_id ≡ false
  pub device : empty? h.device_id ≡ false
  pub digest : empty? h.authorization_digest ≡ false

role_of-role_code : (r : Role) → role_of (role_code r) ≡ r
unfolding role_of role_code
role_of-role_code source = refl
role_of-role_code target = refl
role_of-role_code peer = refl

role_code_known : (r : Role) → (role_code r == 1 || role_code r == 2 || role_code r == 3) ≡ true
unfolding role_code
role_code_known source = refl
role_code_known target = refl
role_code_known peer = refl

check_hello_raw : (h : Hello) → IsComplete h → check_hello (raw_hello h) [] ≡ ok (h, [])
unfolding check_hello finish
check_hello_raw h c =
    rw (c.task, c.device, c.digest, role_code_known h.role, role_of-role_code h.role)

-- What a node writes as HELLO the other node reads back, role and identities unchanged, where the
-- task, the device and the authorization digest are not empty.
pub decode-encode_hello :
    (h : Hello) (wire : Bytes) → IsComplete h → encode_hello h ≡ ok wire → decode_hello wire ≡ ok h
unfolding decode_hello
decode-encode_hello h wire c e =
    run-Reads (encode_hello h) read_hello check_hello (raw_hello h) h wire (hello-Reads h) e
      (check_hello_raw h c)

cancel-Reads : (c : Cancel) → length c.transfer_id ≡ 16 → Reads (encode_cancel c) read_cancel c
unfolding encode_cancel read_cancel
cancel-Reads c h = Reads-unless (empty? c.reason) _ _ read_cancel c λ given.
    Reads-seq (put_bytes c.transfer_id) _ (read_bytes 16) _ c.transfer_id _
      (bytes-Reads c.transfer_id 16 h)
      (Reads-end (put_string c.reason) read_string _ c.reason c (string-Reads c.reason)
        (λ rest. rw given))

-- A CANCEL for a 16-byte transfer id is read back.
pub decode-encode_cancel :
    (c : Cancel) (wire : Bytes)
    → length c.transfer_id ≡ 16
    → encode_cancel c ≡ ok wire
    → decode_cancel wire ≡ ok c
unfolding decode_cancel whole finish
decode-encode_cancel c wire h e =
    run-Reads (encode_cancel c) read_cancel whole c c wire (cancel-Reads c h) e refl

policy-Reads : (p : IgnorePolicyMessage) → Reads (encode_ignore_policy p) read_ignore_policy p
unfolding encode_ignore_policy read_ignore_policy
policy-Reads p = Reads-unless (policy_rejected p) _ _ read_ignore_policy p λ given.
    Reads-seq (put_string p.proposal_id) _ read_string _ p.proposal_id _
      (string-Reads p.proposal_id)
      (Reads-seq (put_string p.base_hash) _ read_string _ p.base_hash _ (string-Reads p.base_hash) (
        Reads-seq (put_string p.rules) _ read_string _ p.rules _ (string-Reads p.rules)
          (Reads-last (put_string p.source) read_string _ p.source (string-Reads p.source))))

encode_ignore_policy-accepted :
    (p : IgnorePolicyMessage) (wire : Bytes)
    → encode_ignore_policy p ≡ ok wire
    → policy_rejected p ≡ false
unfolding encode_ignore_policy
encode_ignore_policy-accepted p wire e = elim (Bool-cases (policy_rejected p)) [
  | inl refused ↦ cc (rw refused at e)
  | inr accepted ↦ accepted
]

check_ignore_policy_accepted :
    (p : IgnorePolicyMessage) → policy_rejected p ≡ false → check_ignore_policy p [] ≡ ok (p, [])
unfolding check_ignore_policy finish
check_ignore_policy_accepted p h = rw h

-- Every ignore policy that can be sent is read back unchanged.
pub decode-encode_ignore_policy :
    (p : IgnorePolicyMessage) (wire : Bytes)
    → encode_ignore_policy p ≡ ok wire
    → decode_ignore_policy wire ≡ ok p
unfolding decode_ignore_policy
decode-encode_ignore_policy p wire e =
    run-Reads (encode_ignore_policy p) read_ignore_policy check_ignore_policy p p wire
      (policy-Reads p) e (check_ignore_policy_accepted p (encode_ignore_policy-accepted p wire e))
