-- ===== src/Signaling/Room.antt =====
-- engine/signaling/tracker_contract.h and tracker_contract.cpp: who may join a room and who may
-- signal to whom.
pub mod Laws
use veritas_sync_next.Prelude.{
  ℕ, Bool, true, false, not, ◌&&◌, ◌||◌, Bytes, Result, ok, err, invalid_argument, List, [], ◌∷◌,
  ◌++◌, Option, none, some, length, ltb, leb, empty?, if◌then◌else◌, bytes_eq, lookup, assign,
  any_of, ◌>>=◌, ◌>>◌, forbid, bytes_key, bytes_key,
}
use veritas_sync_next.Protocol.Types.{Role, source, target, peer, role_code}

pub data Topology : Type 0 where
  one_way bidirectional : Topology

pub data MessageKind : Type 0 where
  offer answer ice_candidate ice_restart : MessageKind

pub record JoinRequest : Type 0 where
  pub task_id : Bytes
  pub sync_key : Bytes
  pub device_id : Bytes
  pub device_fingerprint : Bytes
  pub role : Role
  pub authorization_token : Bytes

-- `candidate_mline_index` is kept plus one, so that the default of -1 is 0.
pub record RelayMessage : Type 0 where
  pub kind : MessageKind
  pub sender_device_id : Bytes
  pub recipient_device_id : Bytes
  pub payload : Bytes
  pub candidate_mid : Bytes
  pub candidate_mline_index_plus_one : ℕ

pub record Room : Type 0 where
  pub task_id : Bytes
  pub topology : Topology
  pub members : List (Bytes × JoinRequest)
  pub inboxes : List (Bytes × List RelayMessage)

abbrev pub max_signal_payload : ℕ
max_signal_payload = 65536

unfoldable pub create : Bytes → Topology → Result Room
create task_id topology =
    if empty? task_id
    then err (invalid_argument "tracker task id is required")
    else ok (record { task_id = task_id; topology = topology; members = []; inboxes = [] })

abbrev pub is_source : Role → Bool
is_source source = true
is_source _ = false

abbrev pub is_target : Role → Bool
is_target target = true
is_target _ = false

abbrev pub is_peer : Role → Bool
is_peer peer = true
is_peer _ = false

abbrev pub is_some {ℓ} : {A : Type ℓ} → Option A → Bool
is_some none = false
is_some (some a) = true

unfoldable pub has_member : Room → Bytes → Bool
has_member room device = is_some (lookup device room.members)

unfoldable pub has_source : List (Bytes × JoinRequest) → Bool
has_source [] = false
has_source ((_, m) ∷ ms) = is_source m.role || has_source ms

-- What the topology says of one more member.
unfoldable pub check_role : Topology → List (Bytes × JoinRequest) → Role → Result (Unit {0})
unfolding has_source
check_role one_way members role = do
  forbid (not (is_source role) && not (is_target role))
      (invalid_argument "one-way rooms require source or target")
  forbid (is_source role && has_source members) (invalid_argument "one-way rooms have one source")
check_role bidirectional members role = do
  forbid (not (is_peer role)) (invalid_argument "bidirectional rooms require peer role")
  forbid (leb 2 (length members)) (invalid_argument "bidirectional rooms have exactly two peers")

unfoldable pub join : Room → JoinRequest → Result Room
join room q = do
  forbid
      (not (bytes_eq q.task_id room.task_id)
        || empty? q.sync_key
        || empty? q.device_id
        || empty? q.device_fingerprint
        || empty? q.authorization_token)
      (invalid_argument "invalid tracker join")
  forbid (has_member room q.device_id) (invalid_argument "device already joined")
  check_role room.topology room.members q.role
  ok (record room { members = assign q.device_id q room.members })

abbrev pub may_answer : MessageKind → Bool
may_answer answer = true
may_answer ice_candidate = true
may_answer _ = false

abbrev pub is_answer : MessageKind → Bool
is_answer answer = true
is_answer _ = false

-- What a one-way room lets a sender of one role say to a recipient of another.
unfoldable pub check_direction : Role → Role → MessageKind → Result (Unit {0})
check_direction from to kind = do
  forbid (not (is_source from && is_target to) && not (is_target from && is_source to))
      (invalid_argument "one-way relay direction is invalid")
  forbid ((is_target from && is_source to) && not (may_answer kind))
      (invalid_argument "one-way target cannot initiate signaling")
  forbid ((is_source from && is_target to) && is_answer kind)
      (invalid_argument "one-way source cannot send an answer")

-- `members_.at(id)`, whose callers know the member.
unfoldable pub role_at : Room → Bytes → Result Role
role_at room device = elim (lookup device room.members) [
  | some m ↦ ok m.role
  | none ↦ err (invalid_argument "no member")
]

unfoldable pub check_topology : Topology → Room → RelayMessage → Result (Unit {0})
unfolding role_at
check_topology one_way room m = do
  from ← role_at room m.sender_device_id
  to ← role_at room m.recipient_device_id
  check_direction from to m.kind
check_topology bidirectional room m = ok tt

-- `inboxes_[device]`, empty where there is none yet.
unfoldable pub inbox : Room → Bytes → List RelayMessage
inbox room device = elim (lookup device room.inboxes) [ some ms ↦ ms | none ↦ [] ]

unfoldable pub forward : Room → RelayMessage → Result Room
forward room m = do
  forbid
      (not (has_member room m.sender_device_id)
        || not (has_member room m.recipient_device_id)
        || bytes_eq m.sender_device_id m.recipient_device_id)
      (invalid_argument "relay members are invalid")
  forbid (empty? m.payload || ltb max_signal_payload (length m.payload))
      (invalid_argument "signal payload is invalid")
  check_topology room.topology room m
  ok (record room {
    inboxes =
        assign m.recipient_device_id (inbox room m.recipient_device_id ++ m ∷ []) room.inboxes;
  })

unfoldable pub drain_inbox : Room → Bytes → Result (List RelayMessage × Room)
drain_inbox room device =
    if not (has_member room device)
    then err (invalid_argument "unknown device")
    else ok (inbox room device, record room { inboxes = assign device [] room.inboxes })
