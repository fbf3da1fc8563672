-- ===== src/Transport/Tests.antt =====
-- The connection and the scheduler at small inputs.
use veritas_sync_next.Prelude.{Bytes, All, length, ◌≤◌, ◌≡◌, refl, List, [], ◌∷◌, arith}
use veritas_sync_next.Protocol.Writer.{le_bytes}
use veritas_sync_next.Transport.Fragments.{envelope, fragments, fragment_frame}
use veritas_sync_next.Transport.Fragments.Laws.{payloads, payloads-fragment_frame}
use veritas_sync_next.Transport.Connection.{
  ConnectionState, signaling, connecting, connected, closed, Machine, start, drive, transition_to,
  is_valid_transition, Links, Signaled, drive-start-Links, drive-Signaled, is_live,
}
use veritas_sync_next.Transport.Scheduler.{
  Scheduler, PendingSend, SendPriority, enqueue, push_back, can_resume, next,
}
use veritas_sync_next.Transport.Scheduler
use veritas_sync_next.Protocol.Types
use veritas_sync_next.Transport.Scheduler.Order.{
  waiting, IsValid, insert_ranked, Nexts, enqueue-waiting, enqueue-IsValid, next-Nexts,
}

abbrev some_steps : List ConnectionState
some_steps = signaling ∷ closed ∷ connecting ∷ []

drive-start-Links_example : Links (drive start some_steps).state (drive start some_steps).observed
drive-start-Links_example = drive-start-Links some_steps

abbrev shut : Machine
shut = record { state = closed; observed = [] }

abbrev connect_steps : List ConnectionState
connect_steps = signaling ∷ connecting ∷ connected ∷ []

drive-Signaled_example : Signaled (drive start connect_steps).observed
unfolding drive transition_to is_valid_transition is_live
drive-Signaled_example = drive-Signaled connect_steps refl

abbrev one_frame : PendingSend
one_frame = record {
  channel = veritas_sync_next.Protocol.Types.Channel.control;
  priority = veritas_sync_next.Transport.Scheduler.SendPriority.manifest;
  wire = 1 ∷ 2 ∷ [];
}

abbrev idle : Scheduler
idle = record {
  control_queue = [];
  manifest_queue = [];
  small_file_queue = [];
  bulk_queue = [];
  max_pending_bytes = 10;
  resume_below_bytes = 5;
  pending_bytes = 0;
}

idle-IsValid : IsValid idle
idle-IsValid = record {
  counted = refl;
  bounded = omega arith;
  word = omega arith;
  control_ranked = tt;
  manifest_ranked = tt;
  small_file_ranked = tt;
  bulk_ranked = tt;
}

abbrev loaded : Scheduler
loaded = record idle { manifest_queue = one_frame ∷ []; pending_bytes = 2 }

enqueue-waiting_example : waiting loaded ≡ insert_ranked one_frame (waiting idle)
unfolding enqueue push_back
enqueue-waiting_example = enqueue-waiting idle one_frame idle-IsValid loaded refl

enqueue-IsValid_example : IsValid loaded
unfolding enqueue push_back
enqueue-IsValid_example = enqueue-IsValid idle one_frame idle-IsValid loaded refl

next-Nexts_example : Nexts idle (can_resume idle 0) (next idle 0)
next-Nexts_example = next-Nexts idle 0 idle-IsValid

abbrev one_fragment : Bytes
one_fragment =
    b'V' ∷ b'F' ∷ 2 ∷ 0 ∷ 5 ∷ 0 ∷ 0 ∷ 0 ∷ 0 ∷ 0 ∷ 0 ∷ 0 ∷ 2 ∷ 0 ∷ 0 ∷ 0 ∷ 0 ∷ 0 ∷ 0 ∷ 0 ∷ 8 ∷ 9 ∷ []

payloads-fragment_frame_example :
    (payloads (one_fragment ∷ []) ≡ 8 ∷ 9 ∷ []) × All (λ f. length f ≤ 16384) (one_fragment ∷ [])
unfolding fragment_frame fragments envelope le_bytes
payloads-fragment_frame_example = payloads-fragment_frame 5 (8 ∷ 9 ∷ []) (one_fragment ∷ []) refl
