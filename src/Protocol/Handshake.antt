-- ===== src/Protocol/Handshake.antt =====
-- The HELLO, CANCEL and ignore-policy messages of engine/common/protocol.cpp.
use veritas_sync_next.Prelude.{
  ℕ, Bool, not, ◌||◌, Bytes, Result, err, invalid_argument, length, ltb, ◌==◌, empty?,
  if◌then◌else◌,
}
use veritas_sync_next.Protocol.Types.{
  Role, source, target, peer, role_code, Hello, Cancel, IgnorePolicyMessage,
}
use veritas_sync_next.Protocol.Writer.{Put, ◌⊕◌, put_u8, put_bytes, put_string}
use veritas_sync_next.Protocol.Reader.{
  Reader, ◌>>=◌, ◌>>◌, pure, forbid, read_u8, read_bytes, read_string, finish, run,
}

-- static_cast<Role>(code), on the codes of the three roles.
unfoldable pub role_of : ℕ → Role
role_of c = if c == 1 then source else if c == 2 then target else peer

unfoldable pub encode_hello : Hello → Put
encode_hello h =
    put_string h.task_id
    ⊕ put_u8 (role_code h.role)
    ⊕ put_string h.device_id
    ⊕ put_string h.device_fingerprint
    ⊕ put_string h.authorization_digest

-- The fields as they stand on the wire, the role still a number.
pub record RawHello : Type 0 where
  pub task_id : Bytes
  pub role : ℕ
  pub device_id : Bytes
  pub device_fingerprint : Bytes
  pub authorization_digest : Bytes

unfoldable pub read_hello : Reader RawHello
read_hello = do
  task_id ← read_string
  role ← read_u8
  device_id ← read_string
  fingerprint ← read_string
  digest ← read_string
  pure (record {
    task_id = task_id;
    role = role;
    device_id = device_id;
    device_fingerprint = fingerprint;
    authorization_digest = digest;
  })

unfoldable pub hello_rejected : RawHello → Bool
hello_rejected h =
    empty? h.task_id
    || empty? h.device_id
    || empty? h.authorization_digest
    || not (h.role == 1 || h.role == 2 || h.role == 3)

unfoldable pub check_hello : RawHello → Reader Hello
unfolding hello_rejected role_of
check_hello h = do
  forbid (hello_rejected h) (invalid_argument "invalid hello")
  finish
  pure (record {
    task_id = h.task_id;
    role = role_of h.role;
    device_id = h.device_id;
    device_fingerprint = h.device_fingerprint;
    authorization_digest = h.authorization_digest;
  })

unfoldable pub decode_hello : Bytes → Result Hello
unfolding read_hello check_hello
decode_hello payload = run (read_hello >>= check_hello) payload

unfoldable pub encode_cancel : Cancel → Put
encode_cancel c =
    if empty? c.reason
    then err (invalid_argument "cancel reason is required")
    else (put_bytes c.transfer_id ⊕ put_string c.reason)

unfoldable pub read_cancel : Reader Cancel
read_cancel = do
  transfer_id ← read_bytes 16
  reason ← read_string
  forbid (empty? reason) (invalid_argument "cancel reason is required")
  pure (record { transfer_id = transfer_id; reason = reason })

-- `finish`, and the value that was read.
unfoldable pub whole {ℓ} : {A : Type ℓ} → A → Reader A
whole a = finish >> pure a

unfoldable pub decode_cancel : Bytes → Result Cancel
unfolding read_cancel whole
decode_cancel payload = run (read_cancel >>= whole) payload

unfoldable pub policy_rejected : IgnorePolicyMessage → Bool
policy_rejected p =
    ltb 16384 (length p.rules) || not (length p.base_hash == 64) || ltb 64 (length p.proposal_id)

unfoldable pub encode_ignore_policy : IgnorePolicyMessage → Put
unfolding policy_rejected
encode_ignore_policy p =
    if policy_rejected p
    then err (invalid_argument "invalid ignore policy message")
    else (put_string p.proposal_id
        ⊕ put_string p.base_hash
        ⊕ put_string p.rules
        ⊕ put_string p.source)

unfoldable pub read_ignore_policy : Reader IgnorePolicyMessage
read_ignore_policy = do
  proposal_id ← read_string
  base_hash ← read_string
  rules ← read_string
  source_name ← read_string
  pure (record {
    proposal_id = proposal_id;
    base_hash = base_hash;
    rules = rules;
    source = source_name;
  })

unfoldable pub check_ignore_policy : IgnorePolicyMessage → Reader IgnorePolicyMessage
unfolding policy_rejected
check_ignore_policy p = do
  finish
  forbid (policy_rejected p) (invalid_argument "invalid ignore policy message")
  pure p

unfoldable pub decode_ignore_policy : Bytes → Result IgnorePolicyMessage
unfolding read_ignore_policy check_ignore_policy
decode_ignore_policy payload = run (read_ignore_policy >>= check_ignore_policy) payload
