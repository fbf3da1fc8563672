-- ===== src/Signaling/Session/Pinning.antt =====
-- A session of engine/signaling/signaling_session.cpp over its life, and its peer's certificate.
use veritas_sync_next.Signaling.Session.Descriptions.{Pinned, Pinned-Kept}
use veritas_sync_next.Prelude.{
  Result, err, ◌||◌, Bool, ◌≡◌, refl, sym, subst, true, false, Bytes, ok, List, [], ◌∷◌, Option,
  none, some, empty?, Bool-cases, inl, inr, All, arith,
}
use veritas_sync_next.Signaling.Room.{
  MessageKind, offer, answer, ice_candidate, ice_restart, RelayMessage,
}
use veritas_sync_next.Signaling.Session.{
  attempted, onward, deliver, receive_inbox, forward_all, create, restart_ice, take_reset_messages,
  start_offer, on_remote_description, on_ice, on_answer, apply_after, on_offer, SignalingRelay,
  pump, apply_ready_candidates, call_transport, IceCandidate, take_message, take_kind, finish,
  apply_candidates, take_candidate, take_all, apply_message, apply_remote_ice_candidate,
  SignalingSession, certificate_of, changes_certificate, keep_certificate, apply_description,
  describe, defer, take_description,
}
use veritas_sync_next.Signaling.Session.Certificates.{
  Names, Kept, describes, accepted, calls-keep_certificate,
}

take_description-Kept :
    (m : RelayMessage) (s next : SignalingSession)
    → take_description m s ≡ ok next
    → Kept s
    → Kept next
unfolding Kept
take_description-Kept m s next h pinned =
    elim (Bool-cases (changes_certificate s (certificate_of m.payload))) [
      | inl changed ↦
          let e : next ≡ defer m s = ground (arith, h, changed) in
          subst (λ n. Kept n) (sym e) pinned
      | inr same ↦
          let e : next ≡ apply_description m s = ground (arith, h, same) in
          subst (λ n. Kept n) (sym e)
            (subst
              (λ calls.
                All (Names (keep_certificate (certificate_of m.payload) s).remote_certificate)
                  (describe m.kind m.payload ∷ calls))
              (sym (calls-keep_certificate (certificate_of m.payload) s))
              (accepted s (certificate_of m.payload) (describe m.kind m.payload)
                (describes m.kind m.payload) same pinned))
    ]

-- Kept reads the certificate and the calls only.
Kept-same :
    (s next : SignalingSession)
    → next.remote_certificate ≡ s.remote_certificate
    → next.calls ≡ s.calls
    → Kept s
    → Kept next
unfolding Kept
Kept-same s next certificate calls pinned =
    subst (λ c. All (Names c) next.calls) (sym certificate)
      (subst (All (Names s.remote_certificate)) (sym calls) pinned)

take_candidate-Kept :
    (m : RelayMessage) (s next : SignalingSession)
    → take_candidate m s ≡ ok next
    → Kept s
    → Kept next
take_candidate-Kept m s next h pinned =
    Kept-same s next (ground (arith, h)) (ground (arith, h)) pinned

take_kind-Kept :
    (kind : MessageKind) (m : RelayMessage) (s next : SignalingSession)
    → take_kind kind m s ≡ ok next
    → Kept s
    → Kept next
take_kind-Kept offer m s next h pinned = take_description-Kept m s next h pinned
take_kind-Kept answer m s next h pinned = take_description-Kept m s next h pinned
take_kind-Kept ice_restart m s next h pinned = take_description-Kept m s next h pinned
take_kind-Kept ice_candidate m s next h pinned = take_candidate-Kept m s next h pinned

attempted-Kept :
    (result : Result SignalingSession) (s : SignalingSession)
    → ((next : SignalingSession) → result ≡ ok next → Kept next)
    → Kept s
    → Kept (attempted result s).1
attempted-Kept (err e) s answered kept = kept
attempted-Kept (ok next) s answered kept = answered next refl

onward-Kept :
    (before : Result (Unit {0}) × SignalingSession)
    (rest : SignalingSession → Result (Unit {0}) × SignalingSession)
    → ((s : SignalingSession) → Kept s → Kept (rest s).1)
    → Kept before.1
    → Kept (onward before rest).1
onward-Kept (err e, s) rest goes kept = kept
onward-Kept (ok done, s) rest goes kept = goes s kept

take_message-Kept : (m : RelayMessage) (s : SignalingSession) → Kept s → Kept (take_message m s).1
unfolding apply_message
take_message-Kept m s kept = elim (Bool-cases (empty? s.reset_messages)) [
  | inl clear ↦ rw clear (
      attempted-Kept (apply_message m s) s
        (λ next h. take_kind-Kept m.kind m s next (ground (arith, h)) kept) kept)
  | inr waiting ↦ rw waiting (Kept-same s (defer m s) refl refl kept)
]

take_all-Kept : (ms : List RelayMessage) (s : SignalingSession) → Kept s → Kept (take_all ms s).1
unfolding take_all
take_all-Kept [] s kept = kept
take_all-Kept (m ∷ ms) s kept =
    onward-Kept (take_message m s) (take_all ms) (take_all-Kept ms) (take_message-Kept m s kept)

apply_candidates-Kept :
    (cs : List IceCandidate) (s : SignalingSession) → Kept s → Kept (apply_candidates cs s)
unfolding apply_candidates Kept
apply_candidates-Kept [] s pinned = pinned
apply_candidates-Kept (c ∷ cs) s pinned =
    apply_candidates-Kept cs (call_transport (apply_remote_ice_candidate c) s)
      (λ x e. absurd (cc e), pinned)

apply_after-Kept :
    (result : Option Bool) (s next : SignalingSession)
    → apply_after result s ≡ ok next
    → Kept s
    → Kept next
apply_after-Kept none s next h pinned = subst (λ n. Kept n) (cc h) pinned
apply_after-Kept (some false) s next h pinned = absurd (cc h)
apply_after-Kept (some true) s next h pinned =
    let cleared : SignalingSession = record s { pending_ice = [] } in
    subst (λ n. Kept n) (cc h)
      (apply_candidates-Kept s.pending_ice cleared (Kept-same s cleared refl refl pinned))

finish-Kept : (s : SignalingSession) → Kept s → Kept (finish s).1
unfolding apply_ready_candidates
finish-Kept s kept = elim (Bool-cases (empty? s.reset_messages)) [
  | inl clear ↦ rw clear (
      attempted-Kept (apply_ready_candidates s) s
        (λ next h. apply_after-Kept s.remote_description_result s next h kept) kept)
  | inr waiting ↦ rw waiting kept
]

deliver-Kept :
    {R : Type 0} (s : SignalingSession) (drained : Result (List RelayMessage) × R)
    → Kept s
    → Kept (deliver s drained).1
deliver-Kept s (err e, r) kept = kept
deliver-Kept s (ok messages, r) kept =
    onward-Kept (take_all messages s) finish finish-Kept (take_all-Kept messages s kept)

receive_inbox-Kept :
    {R : Type 0} (relay : SignalingRelay R) (s : SignalingSession)
    (forwarded : Result (Unit {0}) × R)
    → Kept s
    → Kept (receive_inbox relay s forwarded).1
receive_inbox-Kept relay s (err e, r) kept = kept
receive_inbox-Kept relay s (ok done, r) kept =
    deliver-Kept s (relay.drain_inbox r s.local_device_id) kept

pump-Kept :
    {R : Type 0} (relay : SignalingRelay R) (s : SignalingSession) (r : R)
    → Kept s
    → Kept (pump relay s r).1
unfolding pump
pump-Kept relay s r kept =
    let sent : SignalingSession = record s { outbound = [] } in
    receive_inbox-Kept relay sent (forward_all relay s.outbound r) (Kept-same s sent refl refl kept)

-- A session through its calls and the callbacks of its transport, with any relay.
pub data ReachedSession : SignalingSession → Type 1 where
  created :
      {s : SignalingSession} (local remote : Bytes) → create local remote ≡ ok s → ReachedSession s
  offered :
      {s : SignalingSession} (sdp : Bytes) → ReachedSession s → ReachedSession (on_offer sdp s)
  answered :
      {s : SignalingSession} (sdp : Bytes) → ReachedSession s → ReachedSession (on_answer sdp s)
  gathered :
      {s : SignalingSession} (c : IceCandidate) → ReachedSession s → ReachedSession (on_ice c s)
  described :
      {s : SignalingSession} (success : Bool)
      → ReachedSession s
      → ReachedSession (on_remote_description success s)
  started : {s : SignalingSession} → ReachedSession s → ReachedSession (start_offer s)
  restarted : {s : SignalingSession} → ReachedSession s → ReachedSession (restart_ice s)
  pumped :
      {R : Type 0} {s : SignalingSession} (relay : SignalingRelay R) (r : R)
      → ReachedSession s
      → ReachedSession (pump relay s r).1
  reset_taken : {s : SignalingSession} → ReachedSession s → ReachedSession (take_reset_messages s).1

create-Kept : (local remote : Bytes) (s : SignalingSession) → create local remote ≡ ok s → Kept s
unfolding create Kept
create-Kept local remote s h =
    let nothing : s.calls ≡ [] = ground (arith, h) in
    subst (All (Names s.remote_certificate)) (sym nothing) tt

Kept-ReachedSession : (s : SignalingSession) → ReachedSession s → Kept s
unfolding on_offer on_answer on_ice on_remote_description start_offer restart_ice
    take_reset_messages Kept
Kept-ReachedSession s (created local remote h) = create-Kept local remote s h
Kept-ReachedSession _ (offered {s = s} sdp before) = elim (Bool-cases (empty? sdp)) [
  | inl nothing ↦ rw nothing (Kept-ReachedSession s before)
  | inr something ↦ rw something (Kept-ReachedSession s before)
]
Kept-ReachedSession _ (answered {s = s} sdp before) = elim (Bool-cases (empty? sdp)) [
  | inl nothing ↦ rw nothing (Kept-ReachedSession s before)
  | inr something ↦ rw something (Kept-ReachedSession s before)
]
Kept-ReachedSession _ (gathered {s = s} c before) =
    elim (Bool-cases (empty? c.mid || empty? c.candidate)) [
      | inl nothing ↦ rw nothing (Kept-ReachedSession s before)
      | inr something ↦ rw something (Kept-ReachedSession s before)
    ]
Kept-ReachedSession _ (described {s = s} success before) = Kept-ReachedSession s before
Kept-ReachedSession _ (started {s = s} before) =
    (λ c e. absurd (cc e), Kept-ReachedSession s before)
Kept-ReachedSession _ (restarted {s = s} before) =
    (λ c e. absurd (cc e), Kept-ReachedSession s before)
Kept-ReachedSession _ (pumped {s = s} relay r before) =
    pump-Kept relay s r (Kept-ReachedSession s before)
Kept-ReachedSession _ (reset_taken {s = s} before) = Kept-ReachedSession s before

-- Whatever the relay delivers and the transport calls back, and whether the calls of the session
-- throw or not, every session description with a certificate line that a session hands to its
-- transport has one and the same, the one that the session keeps.
pub Pinned-ReachedSession : (s : SignalingSession) → ReachedSession s → Pinned s
Pinned-ReachedSession s reached = Pinned-Kept s (Kept-ReachedSession s reached)
