-- ===== src/Signaling/Session/Tests.antt =====
-- A run of a session with a relay that holds one message, and the theorem about it.
use veritas_sync_next.Prelude.{
  err, invalid_argument, false, ◌≡◌, refl, Bytes, ok, [], ◌∷◌, ◌++◌, List, none, bytes_eq,
}
use veritas_sync_next.Signaling.Room.{offer, RelayMessage}
use veritas_sync_next.Signaling.Session.{
  SignalingRelay, SignalingSession, create, pump, forward_all, take_all, apply_message,
  certificate_of, from, line, apply_ready_candidates, apply_remote_offer,
}
use veritas_sync_next.Signaling.Session.Descriptions.{Pinned}
use veritas_sync_next.Signaling.Session.Pinning.{created, pumped, Pinned-ReachedSession}

abbrev one_inbox : SignalingRelay (List RelayMessage)
one_inbox = record {
  forward = λ inbox m. (ok tt, inbox ++ (m ∷ []));
  drain_inbox = λ inbox device. (ok inbox, []);
}

-- a=fingerprint:7
abbrev certificate : Bytes
certificate =
    b'a' ∷ b'=' ∷ b'f' ∷ b'i' ∷ b'n' ∷ b'g' ∷ b'e' ∷ b'r' ∷ b'p' ∷ b'r' ∷ b'i' ∷ b'n' ∷ b't' ∷ b':'
    ∷ b'7' ∷ []

-- The certificate between two other lines.
abbrev sdp : Bytes
sdp = b'v' ∷ b'=' ∷ b'0' ∷ 13 ∷ 10 ∷ (certificate ++ (13 ∷ 10 ∷ b'a' ∷ b'=' ∷ b'b' ∷ []))

abbrev an_offer : RelayMessage
an_offer = record {
  kind = offer;
  sender_device_id = b'b' ∷ [];
  recipient_device_id = b'a' ∷ [];
  payload = sdp;
  candidate_mid = [];
  candidate_mline_index_plus_one = 0;
}

-- A message of another device, at which a pump throws.
abbrev a_stray : RelayMessage
a_stray = record an_offer { sender_device_id = b'c' ∷ [] }

abbrev new_session : SignalingSession
new_session = record {
  local_device_id = b'a' ∷ [];
  remote_device_id = b'b' ∷ [];
  outbound = [];
  remote_description_result = none;
  restart_offer = false;
  pending_ice = [];
  remote_certificate = [];
  reset_messages = [];
  calls = [];
}

abbrev after_offer : SignalingSession
after_offer = record new_session {
  remote_certificate = certificate;
  calls = apply_remote_offer sdp ∷ [];
}

new_session_run : create (b'a' ∷ []) (b'b' ∷ []) ≡ ok new_session
unfolding create bytes_eq
new_session_run = refl

pump_run :
    pump one_inbox new_session (an_offer ∷ a_stray ∷ [])
    ≡ (err (invalid_argument "signal sender does not match session peer"), after_offer, [])
unfolding pump forward_all take_all apply_message certificate_of from line bytes_eq
    apply_ready_candidates
pump_run = refl

Pinned-ReachedSession_example : Pinned after_offer
unfolding pump forward_all take_all apply_message certificate_of from line bytes_eq
    apply_ready_candidates
Pinned-ReachedSession_example =
    Pinned-ReachedSession after_offer
      (pumped one_inbox (an_offer ∷ a_stray ∷ []) (created (b'a' ∷ []) (b'b' ∷ []) new_session_run))
