-- ===== src/Signaling/Session/Descriptions.antt =====
-- What the certificate of a session description is, byte by byte: the first line, from
-- "a=fingerprint:" on, of the texts that engine/signaling/signaling_session.cpp reads.
use veritas_sync_next.Prelude.{
  ℕ, ◌≡◌, refl, ap, true, false, ◌||◌, Bytes, List, [], ◌∷◌, some, All, ◌==◌,
}
use veritas_sync_next.Signaling.Session.{
  TransportCall, apply_remote_offer, apply_remote_answer, SignalingSession, from, line, starts_with,
  certificate_of,
}
use veritas_sync_next.Signaling.Session.Certificates.{certificate_in, Names, Kept}

-- "a=fingerprint:" in ASCII
abbrev attribute : Bytes
attribute = 97 ∷ 61 ∷ 102 ∷ 105 ∷ 110 ∷ 103 ∷ 101 ∷ 114 ∷ 112 ∷ 114 ∷ 105 ∷ 110 ∷ 116 ∷ 58 ∷ []

-- A text and its first line, which ends before a carriage return or a line feed.
pub data FirstLine : Bytes → Bytes → Type 0 where
  at_end : FirstLine [] []
  at_break : {b : ℕ} {s : Bytes} → (b == 13 || b == 10) ≡ true → FirstLine (b ∷ s) []
  more :
      {b : ℕ} {s c : Bytes}
      → (b == 13 || b == 10) ≡ false
      → FirstLine s c
      → FirstLine (b ∷ s) (b ∷ c)

-- A description and the line of its first certificate.
pub data HasCertificate : Bytes → Bytes → Type 0 where
  here :
      {b : ℕ} {s c : Bytes}
      → starts_with attribute (b ∷ s) ≡ true
      → FirstLine (b ∷ s) c
      → HasCertificate (b ∷ s) c
  later :
      {b : ℕ} {s c : Bytes}
      → starts_with attribute (b ∷ s) ≡ false
      → HasCertificate s c
      → HasCertificate (b ∷ s) c

-- A call hands on a description with a certificate.
pub data Hands : TransportCall → Bytes → Type 0 where
  in_offer : {sdp c : Bytes} → HasCertificate sdp c → Hands (apply_remote_offer sdp) c
  in_answer : {sdp c : Bytes} → HasCertificate sdp c → Hands (apply_remote_answer sdp) c

abbrev pub Carries : Bytes → TransportCall → Type 0
Carries certificate call = (c : Bytes) → Hands call c → c ≡ certificate

-- Every description that went to the transport with a certificate has the one the session keeps.
unfoldable pub Pinned : SignalingSession → Type 0
Pinned s = All (Carries s.remote_certificate) s.calls

line-FirstLine : {s c : Bytes} → FirstLine s c → line s ≡ c
unfolding line
line-FirstLine at_end = refl
line-FirstLine (at_break stop) = rw stop refl
line-FirstLine (more {b} {s} {c} go rest) = rw go (ap (◌∷◌ b) (line-FirstLine rest))

certificate_of-HasCertificate :
    {payload c : Bytes} → HasCertificate payload c → certificate_of payload ≡ some c
unfolding certificate_of from
certificate_of-HasCertificate (here {b} {s} {c} found first) =
    rw found (ap some (line-FirstLine first))
certificate_of-HasCertificate (later {b} {s} {c} missed rest) =
    rw missed (certificate_of-HasCertificate rest)

certificate_in-Hands :
    {call : TransportCall} {c : Bytes} → Hands call c → certificate_in call ≡ some c
certificate_in-Hands (in_offer h) = certificate_of-HasCertificate h
certificate_in-Hands (in_answer h) = certificate_of-HasCertificate h

Carries-Names :
    (certificate : Bytes) (calls : List TransportCall)
    → All (Names certificate) calls
    → All (Carries certificate) calls
Carries-Names certificate [] h = tt
Carries-Names certificate (call ∷ calls) (first, rest) =
    (λ c hands. first c (certificate_in-Hands hands), Carries-Names certificate calls rest)

pub Pinned-Kept : (s : SignalingSession) → Kept s → Pinned s
unfolding Pinned Kept
Pinned-Kept s kept = Carries-Names s.remote_certificate s.calls kept
