-- ===== src/Signaling/Session/Certificates.antt =====
-- The peer's certificate in engine/signaling/signaling_session.cpp: which descriptions a session
-- hands to its transport.
use veritas_sync_next.Prelude.{
  ◌≡◌, refl, sym, ap, subst, ◌∙◌, true, false, Bytes, List, [], ◌∷◌, Option, none, some, empty?,
  bytes_eq, bytes_eq→eq, Bool-cases, Option-cases, inl, inr, All, arith,
}
use veritas_sync_next.Signaling.Room.{MessageKind, offer, answer, ice_candidate, ice_restart}
use veritas_sync_next.Signaling.Session.{
  TransportCall, create_offer, restart_offer_call, apply_remote_offer, apply_remote_answer,
  apply_remote_ice_candidate, SignalingSession, from, line, line_of, starts_with, fingerprint_mark,
  certificate_of, changes_certificate, keep_certificate, describe,
}

-- The certificate in the description that a call hands on.
abbrev pub certificate_in : TransportCall → Option Bytes
certificate_in (apply_remote_offer sdp) = certificate_of sdp
certificate_in (apply_remote_answer sdp) = certificate_of sdp
certificate_in _ = none

abbrev pub Names : Bytes → TransportCall → Type 0
Names certificate call = (c : Bytes) → certificate_in call ≡ some c → c ≡ certificate

-- Every description that went to the transport with a certificate has the one the session keeps.
unfoldable pub Kept : SignalingSession → Type 0
Kept s = All (Names s.remote_certificate) s.calls

from-starts_with : (text s t : Bytes) → from text s ≡ some t → starts_with text t ≡ true
unfolding from
from-starts_with text [] t h = absurd (cc h)
from-starts_with text (c ∷ s) t h = elim (Bool-cases (starts_with text (c ∷ s))) [
  | inl found ↦
      let same : (c ∷ s) ≡ t = ground (arith, h, found) in
      subst (λ x. starts_with text x ≡ true) same found
  | inr missed ↦ from-starts_with text s t (ground (arith, h, missed))
]

empty-line : (t : Bytes) → starts_with fingerprint_mark t ≡ true → empty? (line t) ≡ false
unfolding line
empty-line [] h = absurd (cc h)
empty-line (c ∷ s) h = ground (arith, h)

empty-certificate_of : (payload c : Bytes) → certificate_of payload ≡ some c → empty? c ≡ false
unfolding certificate_of
empty-certificate_of payload c h = elim (Option-cases (from fingerprint_mark payload)) [
  | inl missing ↦ absurd (cc (sym (ap line_of missing) ∙ h))
  | inr (t, e) ↦
      let same : line t ≡ c = cc (sym (ap line_of e) ∙ h) in
      sym (ap empty? same) ∙ empty-line t (from-starts_with fingerprint_mark payload t e)
]

pub describes :
    (kind : MessageKind) (payload : Bytes)
    → certificate_in (describe kind payload) ≡ certificate_of payload
describes offer payload = refl
describes answer payload = refl
describes ice_candidate payload = refl
describes ice_restart payload = refl

empty-certificate_in :
    (call : TransportCall) (c : Bytes) → certificate_in call ≡ some c → empty? c ≡ false
empty-certificate_in create_offer c h = absurd (cc h)
empty-certificate_in restart_offer_call c h = absurd (cc h)
empty-certificate_in (apply_remote_offer sdp) c h = empty-certificate_of sdp c h
empty-certificate_in (apply_remote_answer sdp) c h = empty-certificate_of sdp c h
empty-certificate_in (apply_remote_ice_candidate candidate) c h = absurd (cc h)

-- What a call names does not change with a certificate that the session accepts.
Names-kept :
    (s : SignalingSession) (c : Bytes)
    → changes_certificate s (some c) ≡ false
    → (call : TransportCall) → Names s.remote_certificate call
    → Names c call
Names-kept s c same call names c' e = elim (Bool-cases (empty? s.remote_certificate)) [
  | inl nothing ↦ absurd (cc (empty-certificate_in call c' e, ap empty? (names c' e), nothing))
  | inr something ↦
      let equal : bytes_eq s.remote_certificate c ≡ true = ground (arith, same, something) in
      names c' e ∙ bytes_eq→eq _ _ equal
]

All-imp :
    (P Q : TransportCall → Type 0)
    → ((x : TransportCall) → P x → Q x)
    → (xs : List TransportCall) → All P xs
    → All Q xs
All-imp P Q imp [] h = tt
All-imp P Q imp (x ∷ xs) h = (imp x h.0, All-imp P Q imp xs h.1)

pub accepted :
    (s : SignalingSession) (certificate : Option Bytes) (call : TransportCall)
    → certificate_in call ≡ certificate
    → changes_certificate s certificate ≡ false
    → Kept s
    → All (Names (keep_certificate certificate s).remote_certificate) (call ∷ s.calls)
unfolding Kept
accepted s none call new same pinned = (λ c e. absurd (cc (new, e)), pinned)
accepted s (some c) call new same pinned = (
  λ c' e. cc (new, e),
  All-imp (Names s.remote_certificate) (Names c) (Names-kept s c same) s.calls pinned,
)

pub calls-keep_certificate :
    (certificate : Option Bytes) (s : SignalingSession)
    → (keep_certificate certificate s).calls ≡ s.calls
calls-keep_certificate none s = refl
calls-keep_certificate (some c) s = refl
