-- ===== src/Transport/Scheduler/Order.antt =====
-- The scheduler as one list: what waits, in the order in which it will be sent.
use veritas_sync_next.Prelude.{
  inl, Bool-cases, inr, ◌⊎◌, ℕ, ◌+◌, ◌≤◌, ◌<◌, ◌≡◌, Bool, true, false, ok, List, [], ◌∷◌, ap, sym,
  ◌∙◌, ◌++◌, Option, none, some, length, leb, empty?, arith, All, refl, append_assoc, append-nil,
  All-append, if◌then◌else◌,
}
use veritas_sync_next.Transport.Scheduler.{
  SendPriority, control, manifest, small_file, bulk, PendingSend, Scheduler, push_back, enqueue,
  can_resume, release, pop_first, next,
}

abbrev pub waiting : Scheduler → List PendingSend
waiting s = s.control_queue ++ (s.manifest_queue ++ (s.small_file_queue ++ s.bulk_queue))

abbrev pub total_bytes : List PendingSend → ℕ
total_bytes [] = 0
total_bytes (p ∷ ps) = length p.wire + total_bytes ps

-- std::size_t{priority}
abbrev pub rank : SendPriority → ℕ
rank control = 0
rank manifest = 1
rank small_file = 2
rank bulk = 3

abbrev pub Ranked : ℕ → List PendingSend → Type 0
Ranked n = All (λ p. (rank p.priority ≡ n) × (empty? p.wire ≡ false))

-- The byte count is that of the queued frames and within the budget, and each frame stands in the
-- queue of its priority and is not empty.
pub record IsValid (s : Scheduler) : Type 0 where
  pub counted : s.pending_bytes ≡ total_bytes (waiting s)
  pub bounded : s.pending_bytes ≤ s.max_pending_bytes
  pub word : s.max_pending_bytes < 18446744073709551616
  pub control_ranked : Ranked 0 s.control_queue
  pub manifest_ranked : Ranked 1 s.manifest_queue
  pub small_file_ranked : Ranked 2 s.small_file_queue
  pub bulk_ranked : Ranked 3 s.bulk_queue

-- The specification of `enqueue`: behind every frame of the same or a higher priority.
unfoldable pub insert_ranked : PendingSend → List PendingSend → List PendingSend
insert_ranked p [] = p ∷ []
insert_ranked p (q ∷ qs) =
    if leb (rank q.priority) (rank p.priority) then q ∷ insert_ranked p qs else p ∷ (q ∷ qs)

total_bytes-append :
    (ps qs : List PendingSend) → total_bytes (ps ++ qs) ≡ total_bytes ps + total_bytes qs
total_bytes-append [] qs = omega arith
total_bytes-append (p ∷ ps) qs = omega (arith, total_bytes-append ps qs)

total_bytes-insert_ranked :
    (p : PendingSend) (qs : List PendingSend)
    → total_bytes (insert_ranked p qs) ≡ length p.wire + total_bytes qs
unfolding insert_ranked
total_bytes-insert_ranked p [] = omega arith
total_bytes-insert_ranked p (q ∷ qs) = ground (arith, total_bytes-insert_ranked p qs)

-- Frames of a rank up to that of `p` are passed over.
insert_ranked-skip :
    (n : ℕ) (p : PendingSend) (ps qs : List PendingSend)
    → Ranked n ps
    → n ≤ rank p.priority
    → insert_ranked p (ps ++ qs) ≡ ps ++ insert_ranked p qs
unfolding insert_ranked
insert_ranked-skip n p [] qs h le = refl
insert_ranked-skip n p (q ∷ ps) qs h le = ground (arith, insert_ranked-skip n p ps qs h.1 le)

-- Frames of a higher rank stay behind `p`.
insert_ranked-stop :
    (n : ℕ) (p : PendingSend) (ps qs : List PendingSend)
    → Ranked n ps
    → rank p.priority < n
    → insert_ranked p qs ≡ p ∷ qs
    → insert_ranked p (ps ++ qs) ≡ p ∷ (ps ++ qs)
unfolding insert_ranked
insert_ranked-stop n p [] qs h lt e = e
insert_ranked-stop n p (q ∷ ps) qs h lt e = ground arith

-- The new frame at the back of the queue `q`, with only higher ranks behind it.
at_back :
    (n : ℕ) (p : PendingSend) (q rest : List PendingSend)
    → Ranked n q
    → n ≤ rank p.priority
    → insert_ranked p rest ≡ p ∷ rest
    → (q ++ p ∷ []) ++ rest ≡ insert_ranked p (q ++ rest)
at_back n p q rest h le stop =
    append_assoc q (p ∷ []) rest ∙ sym (insert_ranked-skip n p q rest h le ∙ ap (◌++◌ q) stop)

-- A queue that the new frame passes.
behind :
    (n : ℕ) (p : PendingSend) (q xs rest : List PendingSend)
    → Ranked n q
    → n ≤ rank p.priority
    → xs ≡ insert_ranked p rest
    → q ++ xs ≡ insert_ranked p (q ++ rest)
behind n p q xs rest h le e = ap (◌++◌ q) e ∙ sym (insert_ranked-skip n p q rest h le)

module _ (s : Scheduler) (p : PendingSend) (v : IsValid s) where
  open s use {control_queue as q0, manifest_queue as q1, small_file_queue as q2, bulk_queue as q3}

  stop_bulk : rank p.priority < 3 → insert_ranked p q3 ≡ p ∷ q3
  unfolding insert_ranked
  stop_bulk lt = rw append-nil at (insert_ranked-stop 3 p q3 [] v.bulk_ranked lt refl)

  stop_small : rank p.priority < 2 → insert_ranked p (q2 ++ q3) ≡ p ∷ (q2 ++ q3)
  stop_small lt = insert_ranked-stop 2 p q2 q3 v.small_file_ranked lt (stop_bulk (omega arith))

  stop_manifest : rank p.priority < 1 → insert_ranked p (q1 ++ (q2 ++ q3)) ≡ p ∷ (q1 ++ (q2 ++ q3))
  stop_manifest lt =
      insert_ranked-stop 1 p q1 (q2 ++ q3) v.manifest_ranked lt (stop_small (omega arith))

  waiting-push_back :
      (r : SendPriority) → r ≡ p.priority → waiting (push_back s r p) ≡ insert_ranked p (waiting s)
  unfolding push_back insert_ranked
  waiting-push_back control e =
      let top : rank p.priority ≡ 0 = ap rank (sym e) in
      at_back 0 p q0 _ v.control_ranked (omega arith) (stop_manifest (omega arith))
  waiting-push_back manifest e =
      let top : rank p.priority ≡ 1 = ap rank (sym e) in
      behind 0 p q0 _ _ v.control_ranked (omega arith)
        (at_back 1 p q1 _ v.manifest_ranked (omega arith) (stop_small (omega arith)))
  waiting-push_back small_file e =
      let top : rank p.priority ≡ 2 = ap rank (sym e) in
      behind 0 p q0 _ _ v.control_ranked (omega arith) (
        behind 1 p q1 _ _ v.manifest_ranked (omega arith)
          (at_back 2 p q2 _ v.small_file_ranked (omega arith) (stop_bulk (omega arith))))
  waiting-push_back bulk e =
      let top : rank p.priority ≡ 3 = ap rank (sym e) in
      behind 0 p q0 _ _ v.control_ranked (omega arith) (
        behind 1 p q1 _ _ v.manifest_ranked (omega arith) (
          behind 2 p q2 _ _ v.small_file_ranked (omega arith) (
            rw (append-nil (q3 ++ p ∷ []), append-nil q3) at
              (at_back 3 p q3 [] v.bulk_ranked (omega arith) refl))))

  grown : Scheduler
  grown = record s { pending_bytes = s.pending_bytes + length p.wire }

  waiting-grown : (r : SendPriority) → waiting (push_back grown r p) ≡ waiting (push_back s r p)
  unfolding push_back grown
  waiting-grown control = refl
  waiting-grown manifest = refl
  waiting-grown small_file = refl
  waiting-grown bulk = refl

  enqueue_ok :
      (t : Scheduler)
      → enqueue s p ≡ ok t
      → (t ≡ push_back grown p.priority p)
        × (empty? p.wire ≡ false)
        × (s.pending_bytes + length p.wire ≤ s.max_pending_bytes)
  unfolding enqueue grown
  enqueue_ok t e = ground arith

  -- An accepted frame waits behind all frames of its own and higher priorities and before the
  -- others, and the rest keeps its order.
  pub enqueue-waiting :
      (t : Scheduler) → enqueue s p ≡ ok t → waiting t ≡ insert_ranked p (waiting s)
  enqueue-waiting t e =
      ap waiting (enqueue_ok t e).0 ∙ waiting-grown p.priority ∙ waiting-push_back p.priority refl

  pushed_ranks :
      (r : SendPriority)
      → r ≡ p.priority
      → empty? p.wire ≡ false
      → let t = push_back grown r p in
        Ranked 0 t.control_queue
        × Ranked 1 t.manifest_queue
        × Ranked 2 t.small_file_queue
        × Ranked 3 t.bulk_queue
        × (t.pending_bytes ≡ s.pending_bytes + length p.wire)
        × (t.max_pending_bytes ≡ s.max_pending_bytes)
  unfolding push_back grown
  pushed_ranks control e full = (
    All-append _ q0 _ v.control_ranked (((ap rank (sym e), full)), tt),
    v.manifest_ranked,
    v.small_file_ranked,
    v.bulk_ranked,
    refl,
    refl,
  )
  pushed_ranks manifest e full = (
    v.control_ranked,
    All-append _ q1 _ v.manifest_ranked (((ap rank (sym e), full)), tt),
    v.small_file_ranked,
    v.bulk_ranked,
    refl,
    refl,
  )
  pushed_ranks small_file e full = (
    v.control_ranked,
    v.manifest_ranked,
    All-append _ q2 _ v.small_file_ranked (((ap rank (sym e), full)), tt),
    v.bulk_ranked,
    refl,
    refl,
  )
  pushed_ranks bulk e full = (
    v.control_ranked,
    v.manifest_ranked,
    v.small_file_ranked,
    All-append _ q3 _ v.bulk_ranked (((ap rank (sym e), full)), tt),
    refl,
    refl,
  )

  -- A scheduler within its budget stays within it when a frame is accepted, and its byte count
  -- stays that of the frames it holds.
  pub enqueue-IsValid : (t : Scheduler) → enqueue s p ≡ ok t → IsValid t
  enqueue-IsValid t e =
      let (same, full, room) = enqueue_ok t e in
      let (r0, r1, r2, r3, bytes, cap) = pushed_ranks p.priority refl full in
      rw same (record {
        counted =
            bytes
            ∙ omega (arith, v.counted, total_bytes-insert_ranked p (waiting s))
            ∙ sym (ap total_bytes (waiting-grown p.priority ∙ waiting-push_back p.priority refl));
        bounded = omega arith;
        word = omega (arith, v.word);
        control_ranked = r0;
        manifest_ranked = r1;
        small_file_ranked = r2;
        bulk_ranked = r3;
      })

-- What `next` may do to `s`.
abbrev pub Nexts : Scheduler → Bool → Option PendingSend × Scheduler → Type 0
Nexts s room r =
    ((r ≡ (none, s)) × ((room ≡ false) ⊎ (waiting s ≡ [])))
    ⊎ ((p : PendingSend) × (t : Scheduler) × (r ≡ (some p, t))
        × (room ≡ true)
        × (waiting s ≡ p ∷ waiting t)
        × IsValid t)

pop_first-Nexts :
    (s : Scheduler) (q0 q1 q2 q3 : List PendingSend)
    → IsValid s
    → s.control_queue ≡ q0
    → s.manifest_queue ≡ q1
    → s.small_file_queue ≡ q2
    → s.bulk_queue ≡ q3
    → Nexts s true (pop_first s q0 q1 q2 q3)
unfolding pop_first release
pop_first-Nexts s (p ∷ ps) q1 q2 q3 v e0 e1 e2 e3 =
    inr (p, _, refl, refl, ground arith, ground arith)
pop_first-Nexts s [] (p ∷ ps) q2 q3 v e0 e1 e2 e3 =
    inr (p, _, refl, refl, ground arith, ground arith)
pop_first-Nexts s [] [] (p ∷ ps) q3 v e0 e1 e2 e3 =
    inr (p, _, refl, refl, ground arith, ground arith)
pop_first-Nexts s [] [] [] (p ∷ ps) v e0 e1 e2 e3 =
    inr (p, _, refl, refl, ground arith, ground arith)
pop_first-Nexts s [] [] [] [] v e0 e1 e2 e3 = inl (refl, inr (ground arith))

-- With room on the transport the first waiting frame leaves and the rest waits on, and the byte
-- count follows; without room, or with nothing waiting, nothing changes.
pub next-Nexts :
    (s : Scheduler) (buffered : ℕ) → IsValid s → Nexts s (can_resume s buffered) (next s buffered)
unfolding next
next-Nexts s buffered v = elim (Bool-cases (can_resume s buffered)) [
  | inl room ↦ rw room (
      pop_first-Nexts s s.control_queue s.manifest_queue s.small_file_queue s.bulk_queue v refl refl
        refl refl)
  | inr full ↦ rw full (inl (refl, inl refl))
]
