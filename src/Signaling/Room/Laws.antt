-- ===== src/Signaling/Room/Laws.antt =====
-- The admission rules as an invariant of the room, and what the relay does with a message.
use veritas_sync_next.Prelude.{
  suc, ℕ, ◌≤◌, ◌≡◌, refl, true, false, Bytes, ok, List, [], ◌∷◌, ◌++◌, none, some, length,
  if◌then◌else◌, bytes_eq, lookup, assign, arith, All, lookup-assign_self, lookup-assign_ne,
  assign_new, bytes_key, All-append, length-append,
}
use veritas_sync_next.Protocol.Types.{Role, source, target, peer}
use veritas_sync_next.Signaling.Room.{
  Topology, one_way, bidirectional, MessageKind, JoinRequest, RelayMessage, Room, has_member,
  has_source, check_role, join, check_direction, role_at, check_topology, inbox, forward,
  drain_inbox, is_source, is_peer, may_answer, is_answer,
}

abbrev pub sources : List (Bytes × JoinRequest) → ℕ
sources [] = 0
sources ((_, m) ∷ ms) = if is_source m.role then suc (sources ms) else sources ms

-- One source at most and no peers, or two peers at most and nothing else.
abbrev pub Admitted : Topology → List (Bytes × JoinRequest) → Type 0
Admitted one_way ms = (sources ms ≤ 1) × All (λ m. is_peer m.1.role ≡ false) ms
Admitted bidirectional ms = (length ms ≤ 2) × All (λ m. is_peer m.1.role ≡ true) ms

-- What a relay that took a message had checked, and what it did.
forward_ok :
    (room next : Room) (m : RelayMessage)
    → forward room m ≡ ok next
    → (next ≡ record room {
      inboxes =
          assign m.recipient_device_id (inbox room m.recipient_device_id ++ m ∷ []) room.inboxes;
    })
      × (bytes_eq m.sender_device_id m.recipient_device_id ≡ false)
      × (check_topology room.topology room m ≡ ok tt)
unfolding forward
forward_ok room next m e = ground arith

inbox-assign_self :
    (room : Room) (device : Bytes) (ms : List RelayMessage)
    → inbox (record room { inboxes = assign device ms room.inboxes }) device ≡ ms
unfolding inbox
inbox-assign_self room device ms = rw (inbox, lookup-assign_self device ms room.inboxes)

inbox-assign_ne :
    (room : Room) (device other : Bytes) (ms : List RelayMessage)
    → bytes_eq device other ≡ false
    → inbox (record room { inboxes = assign device ms room.inboxes }) other ≡ inbox room other
unfolding inbox
inbox-assign_ne room device other ms h = rw (inbox, lookup-assign_ne device other ms room.inboxes h)

-- A message that the relay takes is put behind the others of its recipient, who is not its sender;
-- the other inboxes and the members stay as they are.
pub forward-inbox :
    (room next : Room) (m : RelayMessage)
    → forward room m ≡ ok next
    → (inbox next m.recipient_device_id ≡ inbox room m.recipient_device_id ++ m ∷ [])
      × ((device : Bytes)
          → bytes_eq m.recipient_device_id device ≡ false
          → inbox next device ≡ inbox room device)
      × (next.members ≡ room.members)
      × (bytes_eq m.sender_device_id m.recipient_device_id ≡ false)
forward-inbox room next m e =
    let (same, distinct, _) = forward_ok room next m e in
    rw same (
      inbox-assign_self room m.recipient_device_id _,
      λ device h. inbox-assign_ne room m.recipient_device_id device _ h,
      refl,
      distinct,
    )

-- What a one-way room lets through: a source speaks to a target and never answers, a target speaks
-- to a source and only answers or sends candidates.
abbrev pub Directed : Role → Role → MessageKind → Type 0
Directed source target kind = is_answer kind ≡ false
Directed target source kind = may_answer kind ≡ true
Directed _ _ kind = ⊥

check_direction-Directed :
    (from to : Role) (kind : MessageKind)
    → check_direction from to kind ≡ ok tt
    → Directed from to kind
unfolding check_direction
check_direction-Directed source source kind e = cc
check_direction-Directed source target kind e = ground arith
check_direction-Directed source peer kind e = cc
check_direction-Directed target source kind e = ground arith
check_direction-Directed target target kind e = cc
check_direction-Directed target peer kind e = cc
check_direction-Directed peer source kind e = cc
check_direction-Directed peer target kind e = cc
check_direction-Directed peer peer kind e = cc

one_way_check :
    (room : Room) (m : RelayMessage) (from to : JoinRequest) (t : Topology)
    → t ≡ one_way
    → lookup m.sender_device_id room.members ≡ some from
    → lookup m.recipient_device_id room.members ≡ some to
    → check_topology t room m ≡ ok tt
    → Directed from.role to.role m.kind
unfolding check_topology role_at
one_way_check room m from to one_way one hf ht e =
    check_direction-Directed from.role to.role m.kind (rw (hf, ht, check_topology, role_at) at e)
one_way_check room m from to bidirectional one hf ht e = cc

-- In a one-way room every message that the relay takes goes from a source to a target as something
-- other than an answer, or from a target to a source as an answer or a candidate.
pub forward-Directed :
    (room next : Room) (m : RelayMessage) (from to : JoinRequest)
    → room.topology ≡ one_way
    → lookup m.sender_device_id room.members ≡ some from
    → lookup m.recipient_device_id room.members ≡ some to
    → forward room m ≡ ok next
    → Directed from.role to.role m.kind
forward-Directed room next m from to one hf ht e =
    one_way_check room m from to room.topology one hf ht (forward_ok room next m e).2

sources-append :
    (ms : List (Bytes × JoinRequest)) (d : Bytes) (q : JoinRequest)
    → sources (ms ++ (d, q) ∷ []) ≡ (if is_source q.role then suc (sources ms) else sources ms)
sources-append [] d q = refl
sources-append ((_, m) ∷ ms) d q = ground (arith, sources-append ms d q)

no_source : (ms : List (Bytes × JoinRequest)) → has_source ms ≡ false → sources ms ≡ 0
unfolding has_source
no_source [] h = refl
no_source ((_, m) ∷ ms) h = ground (arith, no_source ms)

check_role-Admitted :
    (t : Topology) (ms : List (Bytes × JoinRequest)) (d : Bytes) (q : JoinRequest)
    → Admitted t ms
    → check_role t ms q.role ≡ ok tt
    → Admitted t (ms ++ (d, q) ∷ [])
unfolding check_role
check_role-Admitted one_way ms d q h e =
    (ground (arith, sources-append ms d q, no_source ms), All-append _ ms _ h.1 (ground arith))
check_role-Admitted bidirectional ms d q h e =
    (ground (arith, length-append ms ((d, q) ∷ [])), All-append _ ms _ h.1 (ground arith))

join_ok :
    (room next : Room) (q : JoinRequest)
    → join room q ≡ ok next
    → (next ≡ record room { members = assign q.device_id q room.members })
      × (has_member room q.device_id ≡ false)
      × (check_role room.topology room.members q.role ≡ ok tt)
unfolding join
join_ok room next q e = ground arith

not_member :
    (room : Room) (device : Bytes)
    → has_member room device ≡ false
    → lookup device room.members ≡ none
unfolding has_member
not_member room device h = ground arith

-- Every device that joins leaves the room within its topology: at most one source and no peer in a
-- one-way room, at most two peers and no other role in a bidirectional one.
pub join-Admitted :
    (room next : Room) (q : JoinRequest)
    → Admitted room.topology room.members
    → join room q ≡ ok next
    → Admitted next.topology next.members
join-Admitted room next q h e =
    let (same, new, allowed) = join_ok room next q e in
    rw (same, assign_new q.device_id q room.members (not_member room q.device_id new))
      (check_role-Admitted room.topology room.members q.device_id q h allowed)

-- A drained inbox gives all its messages in the order of their arrival, and the next drain gives
-- none of them again.
pub drain_inbox_twice :
    (room next : Room) (device : Bytes) (ms : List RelayMessage)
    → drain_inbox room device ≡ ok (ms, next)
    → (ms ≡ inbox room device)
      × (drain_inbox next device ≡ ok ([], record next { inboxes = assign device [] next.inboxes }))
unfolding drain_inbox has_member
drain_inbox_twice room next device ms e = ground (arith, inbox-assign_self room device [])
