-- ===== src/Signaling/Session.antt =====
-- engine/signaling/signaling_session.h and signaling_session.cpp: a session joins the callbacks of a
-- peer transport with a relay. The calls on the transport are kept as a list, the last call first.
pub mod Certificates
pub mod Descriptions
pub mod Pinning
pub mod Tests
use veritas_sync_next.Prelude.{
  ℕ, Bool, true, false, not, ◌&&◌, ◌||◌, Bytes, Result, ok, err, invalid_argument, runtime_error,
  List, [], ◌∷◌, ◌++◌, Option, none, some, empty?, if◌then◌else◌, bytes_eq, ◌==◌, ◌>>=◌, ◌>>◌,
  forbid,
}
use veritas_sync_next.Signaling.Room.{
  MessageKind, offer, answer, ice_candidate, ice_restart, RelayMessage,
}

-- SignalingRelay, which a tracker client or a room implements, with its state, which it has also
-- after a call that throws.
pub record SignalingRelay (R : Type 0) : Type 0 where
  pub forward : R → RelayMessage → Result (Unit {0}) × R
  pub drain_inbox : R → Bytes → Result (List RelayMessage) × R

-- The index is kept plus one, as in RelayMessage.
pub record IceCandidate : Type 0 where
  pub mid : Bytes
  pub mline_index_plus_one : ℕ
  pub candidate : Bytes

pub data TransportCall : Type 0 where
  create_offer restart_offer_call : TransportCall
  apply_remote_offer : Bytes → TransportCall
  apply_remote_answer : Bytes → TransportCall
  apply_remote_ice_candidate : IceCandidate → TransportCall

pub record SignalingSession : Type 0 where
  pub local_device_id : Bytes
  pub remote_device_id : Bytes
  pub outbound : List RelayMessage
  pub remote_description_result : Option Bool
  pub restart_offer : Bool
  pub pending_ice : List IceCandidate
  pub remote_certificate : Bytes
  pub reset_messages : List RelayMessage
  pub calls : List TransportCall

unfoldable pub create : Bytes → Bytes → Result SignalingSession
create local_device_id remote_device_id = do
  forbid
      (empty? local_device_id
        || empty? remote_device_id
        || bytes_eq local_device_id remote_device_id)
      (invalid_argument "signaling session requires two distinct device ids")
  ok (record {
    local_device_id = local_device_id;
    remote_device_id = remote_device_id;
    outbound = [];
    remote_description_result = none;
    restart_offer = false;
    pending_ice = [];
    remote_certificate = [];
    reset_messages = [];
    calls = [];
  })

abbrev pub call_transport : TransportCall → SignalingSession → SignalingSession
call_transport call s = record s { calls = call ∷ s.calls }

abbrev pub push_outbound : SignalingSession → MessageKind → Bytes → Bytes → ℕ → SignalingSession
push_outbound s kind payload mid index = record s {
  outbound =
      s.outbound
      ++ (record {
        kind = kind;
        sender_device_id = s.local_device_id;
        recipient_device_id = s.remote_device_id;
        payload = payload;
        candidate_mid = mid;
        candidate_mline_index_plus_one = index;
      }
          ∷ []);
}

-- The four callbacks that the session sets on the transport.
unfoldable pub on_offer : Bytes → SignalingSession → SignalingSession
on_offer sdp s =
    if empty? sdp
    then s
    else record (push_outbound s (if s.restart_offer then ice_restart else offer) sdp [] 0) {
      restart_offer = false;
    }

unfoldable pub on_answer : Bytes → SignalingSession → SignalingSession
on_answer sdp s = if empty? sdp then s else push_outbound s answer sdp [] 0

unfoldable pub on_ice : IceCandidate → SignalingSession → SignalingSession
on_ice c s =
    if empty? c.mid || empty? c.candidate
    then s
    else push_outbound s ice_candidate c.candidate c.mid c.mline_index_plus_one

unfoldable pub on_remote_description : Bool → SignalingSession → SignalingSession
on_remote_description success s = record s { remote_description_result = some success }

unfoldable pub start_offer : SignalingSession → SignalingSession
start_offer s = call_transport create_offer s

unfoldable pub restart_ice : SignalingSession → SignalingSession
restart_ice s =
    call_transport restart_offer_call
      (record s { restart_offer = true; pending_ice = []; remote_description_result = none })

unfoldable pub take_reset_messages : SignalingSession → List RelayMessage × SignalingSession
take_reset_messages s = (s.reset_messages, record s { reset_messages = [] })

abbrev pub starts_with : Bytes → Bytes → Bool
starts_with [] s = true
starts_with (p ∷ ps) [] = false
starts_with (p ∷ ps) (c ∷ s) = c == p && starts_with ps s

-- payload.find(text), as the text from there on.
unfoldable pub from : Bytes → Bytes → Option Bytes
from text [] = none
from text (c ∷ s) = if starts_with text (c ∷ s) then some (c ∷ s) else from text s

-- Up to the first '\r' or '\n'.
unfoldable pub line : Bytes → Bytes
line [] = []
line (c ∷ s) = if c == 0x0d || c == 0x0a then [] else c ∷ line s

abbrev pub line_of : Option Bytes → Option Bytes
line_of none = none
line_of (some s) = some (line s)

-- "a=fingerprint:"
abbrev pub fingerprint_mark : Bytes
fingerprint_mark =
    b'a' ∷ b'=' ∷ b'f' ∷ b'i' ∷ b'n' ∷ b'g' ∷ b'e' ∷ b'r' ∷ b'p' ∷ b'r' ∷ b'i' ∷ b'n' ∷ b't' ∷ b':'
    ∷ []

-- The line of the certificate in a session description.
unfoldable pub certificate_of : Bytes → Option Bytes
certificate_of payload = line_of (from fingerprint_mark payload)

abbrev pub changes_certificate : SignalingSession → Option Bytes → Bool
changes_certificate s none = false
changes_certificate s (some certificate) =
    not (empty? s.remote_certificate) && not (bytes_eq s.remote_certificate certificate)

abbrev pub keep_certificate : Option Bytes → SignalingSession → SignalingSession
keep_certificate none s = s
keep_certificate (some certificate) s = record s { remote_certificate = certificate }

abbrev pub defer : RelayMessage → SignalingSession → SignalingSession
defer message s = record s { reset_messages = s.reset_messages ++ (message ∷ []) }

abbrev pub describe : MessageKind → Bytes → TransportCall
describe answer payload = apply_remote_answer payload
describe _ payload = apply_remote_offer payload

abbrev pub apply_description : RelayMessage → SignalingSession → SignalingSession
apply_description m s =
    call_transport (describe m.kind m.payload)
      (record (keep_certificate (certificate_of m.payload) s) { remote_description_result = none })

abbrev pub take_description : RelayMessage → SignalingSession → Result SignalingSession
take_description m s = do
  forbid (empty? m.payload) (invalid_argument "empty session description")
  ok (if changes_certificate s (certificate_of m.payload) then defer m s else apply_description m s)

-- An index below -1, which the source refuses too, has no representation here.
abbrev pub take_candidate : RelayMessage → SignalingSession → Result SignalingSession
take_candidate m s = do
  forbid (empty? m.payload || empty? m.candidate_mid)
      (invalid_argument "invalid ICE candidate relay message")
  ok (record s {
    pending_ice =
        s.pending_ice
        ++ (record {
          mid = m.candidate_mid;
          mline_index_plus_one = m.candidate_mline_index_plus_one;
          candidate = m.payload;
        }
            ∷ []);
  })

abbrev pub take_kind : MessageKind → RelayMessage → SignalingSession → Result SignalingSession
take_kind ice_candidate = take_candidate
take_kind _ = take_description

unfoldable pub apply_message : RelayMessage → SignalingSession → Result SignalingSession
apply_message m s = do
  forbid (not (bytes_eq m.sender_device_id s.remote_device_id))
      (invalid_argument "signal sender does not match session peer")
  take_kind m.kind m s

unfoldable pub apply_candidates : List IceCandidate → SignalingSession → SignalingSession
apply_candidates [] s = s
apply_candidates (c ∷ cs) s = apply_candidates cs (call_transport (apply_remote_ice_candidate c) s)

abbrev pub apply_after : Option Bool → SignalingSession → Result SignalingSession
apply_after none s = ok s
apply_after (some false) s = err (runtime_error "WebRTC rejected remote description")
apply_after (some true) s = ok (apply_candidates s.pending_ice (record s { pending_ice = [] }))

unfoldable pub apply_ready_candidates : SignalingSession → Result SignalingSession
apply_ready_candidates s = apply_after s.remote_description_result s

-- What a call leaves that throws, or not, with what there is then.
abbrev pub onward :
    {S : Type 0} → Result (Unit {0}) × S → (S → Result (Unit {0}) × S) → Result (Unit {0}) × S
onward (err e, s) rest = (err e, s)
onward (ok done, s) rest = rest s

-- A call that throws before it changes anything.
abbrev pub attempted :
    Result SignalingSession → SignalingSession → Result (Unit {0}) × SignalingSession
attempted (err e) s = (err e, s)
attempted (ok next) s = (ok tt, next)

unfoldable pub forward_all :
    {R : Type 0} → SignalingRelay R → List RelayMessage → R → Result (Unit {0}) × R
forward_all relay [] r = (ok tt, r)
forward_all relay (m ∷ ms) r = onward (relay.forward r m) (forward_all relay ms)

abbrev pub take_message : RelayMessage → SignalingSession → Result (Unit {0}) × SignalingSession
take_message m s =
    if not (empty? s.reset_messages) then (ok tt, defer m s) else attempted (apply_message m s) s

unfoldable pub take_all :
    List RelayMessage → SignalingSession → Result (Unit {0}) × SignalingSession
take_all [] s = (ok tt, s)
take_all (m ∷ ms) s = onward (take_message m s) (take_all ms)

abbrev pub finish : SignalingSession → Result (Unit {0}) × SignalingSession
finish s = if empty? s.reset_messages then attempted (apply_ready_candidates s) s else (ok tt, s)

abbrev pub with_relay :
    {R : Type 0}
    → R
    → Result (Unit {0}) × SignalingSession
    → Result (Unit {0}) × SignalingSession × R
with_relay r (done, s) = (done, s, r)

abbrev pub deliver :
    {R : Type 0}
    → SignalingSession
    → Result (List RelayMessage) × R
    → Result (Unit {0}) × SignalingSession × R
deliver s (err e, r) = (err e, s, r)
deliver s (ok messages, r) = with_relay r (onward (take_all messages s) finish)

abbrev pub receive_inbox :
    {R : Type 0}
    → SignalingRelay R
    → SignalingSession
    → Result (Unit {0}) × R
    → Result (Unit {0}) × SignalingSession × R
receive_inbox relay s (err e, r) = (err e, s, r)
receive_inbox relay s (ok done, r) = deliver s (relay.drain_inbox r s.local_device_id)

-- The session and the relay after the call, also when it throws.
unfoldable pub pump :
    {R : Type 0}
    → SignalingRelay R
    → SignalingSession
    → R
    → Result (Unit {0}) × SignalingSession × R
pump relay s r = receive_inbox relay (record s { outbound = [] }) (forward_all relay s.outbound r)
