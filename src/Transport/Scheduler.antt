-- ===== src/Transport/Scheduler.antt =====
-- engine/transport/send_scheduler.h and send_scheduler.cpp: four queues under one byte budget.
pub mod Order
use veritas_sync_next.Prelude.{
  ℕ, ◌+◌, ◌≤◌, ◌<◌, ◌≡◌, Bool, not, ◌||◌, Bytes, Result, ok, err, invalid_argument, length_error,
  List, [], ◌∷◌, ◌++◌, Option, none, some, length, ltb, leb, ◌==◌, empty?, if◌then◌else◌, sub64,
  arith, map, All, refl, length-append,
}
use veritas_sync_next.Protocol.Types.{Channel}

pub data SendPriority : Type 0 where
  control manifest small_file bulk : SendPriority

pub record PendingSend : Type 0 where
  pub channel : Channel
  pub priority : SendPriority
  pub wire : Bytes

-- `queues_` is the four queues, in the order of the priorities.
pub record Scheduler : Type 0 where
  pub control_queue : List PendingSend
  pub manifest_queue : List PendingSend
  pub small_file_queue : List PendingSend
  pub bulk_queue : List PendingSend
  pub max_pending_bytes : ℕ
  pub resume_below_bytes : ℕ
  pub pending_bytes : ℕ

unfoldable pub create : ℕ → ℕ → Result Scheduler
create max_pending resume_below =
    if max_pending == 0 || leb max_pending resume_below
    then err (invalid_argument "send scheduler byte limits are invalid")
    else ok (record {
      control_queue = [];
      manifest_queue = [];
      small_file_queue = [];
      bulk_queue = [];
      max_pending_bytes = max_pending;
      resume_below_bytes = resume_below;
      pending_bytes = 0;
    })

-- `queues_[priority].push_back(pending)`
unfoldable pub push_back : Scheduler → SendPriority → PendingSend → Scheduler
push_back s control p = record s { control_queue = s.control_queue ++ p ∷ [] }
push_back s manifest p = record s { manifest_queue = s.manifest_queue ++ p ∷ [] }
push_back s small_file p = record s { small_file_queue = s.small_file_queue ++ p ∷ [] }
push_back s bulk p = record s { bulk_queue = s.bulk_queue ++ p ∷ [] }

unfoldable pub enqueue : Scheduler → PendingSend → Result Scheduler
enqueue s p =
    if empty? p.wire
    then err (invalid_argument "cannot schedule an empty frame")
    else if ltb (sub64 s.max_pending_bytes s.pending_bytes) (length p.wire)
    then err (length_error "per-peer send budget exceeded")
    else ok (push_back (record s { pending_bytes = s.pending_bytes + length p.wire }) p.priority p)

unfoldable pub can_resume : Scheduler → ℕ → Bool
can_resume s buffered = ltb buffered s.resume_below_bytes

-- The frame that leaves, and its bytes given back to the budget.
unfoldable pub release : Scheduler → PendingSend → Option PendingSend × Scheduler
release s p = (some p, record s { pending_bytes = sub64 s.pending_bytes (length p.wire) })

-- The loop over the queues: the front of the first that is not empty.
unfoldable pub pop_first :
    Scheduler
    → List PendingSend
    → List PendingSend
    → List PendingSend
    → List PendingSend
    → Option PendingSend × Scheduler
pop_first s (p ∷ ps) q1 q2 q3 = release (record s { control_queue = ps }) p
pop_first s [] (p ∷ ps) q2 q3 = release (record s { manifest_queue = ps }) p
pop_first s [] [] (p ∷ ps) q3 = release (record s { small_file_queue = ps }) p
pop_first s [] [] [] (p ∷ ps) = release (record s { bulk_queue = ps }) p
pop_first s [] [] [] [] = (none, s)

unfoldable pub next : Scheduler → ℕ → Option PendingSend × Scheduler
next s buffered =
    if not (can_resume s buffered)
    then (none, s)
    else pop_first s s.control_queue s.manifest_queue s.small_file_queue s.bulk_queue
