-- ===== src/Signaling/Tests.antt =====
-- A room of a source and a target.
use veritas_sync_next.Prelude.{arith, refl, [], ◌∷◌, Bytes, bytes_eq, lookup, assign, bytes_key}
use veritas_sync_next.Protocol.Types.{source, target}
use veritas_sync_next.Signaling.Room.{
  one_way, offer, JoinRequest, RelayMessage, Room, join, forward, inbox, has_member, has_source,
  check_role, check_direction, check_topology, role_at,
}
use veritas_sync_next.Signaling.Room.Laws.{Admitted, Directed, forward-Directed, join-Admitted}

abbrev member : Bytes → veritas_sync_next.Protocol.Types.Role → JoinRequest
member device role = record {
  task_id = b't' ∷ [];
  sync_key = b'k' ∷ [];
  device_id = device;
  device_fingerprint = b'f' ∷ [];
  role = role;
  authorization_token = b'a' ∷ [];
}

abbrev sender : JoinRequest
sender = member (b's' ∷ []) source

abbrev receiver : JoinRequest
receiver = member (b'r' ∷ []) target

abbrev half_room : Room
half_room = record {
  task_id = b't' ∷ [];
  topology = one_way;
  members = (b's' ∷ [], sender) ∷ [];
  inboxes = [];
}

abbrev full_room : Room
full_room = record half_room { members = (b's' ∷ [], sender) ∷ (b'r' ∷ [], receiver) ∷ [] }

abbrev an_offer : RelayMessage
an_offer = record {
  kind = offer;
  sender_device_id = b's' ∷ [];
  recipient_device_id = b'r' ∷ [];
  payload = b'p' ∷ [];
  candidate_mid = [];
  candidate_mline_index_plus_one = 0;
}

abbrev told_room : Room
told_room = record full_room { inboxes = (b'r' ∷ [], an_offer ∷ []) ∷ [] }

forward-Directed_example : Directed source target offer
unfolding forward has_member check_topology check_direction role_at inbox lookup assign bytes_eq
forward-Directed_example =
    forward-Directed full_room told_room an_offer sender receiver refl refl refl refl

join-Admitted_example : Admitted one_way full_room.members
unfolding join has_member has_source check_role lookup assign bytes_eq
join-Admitted_example = join-Admitted half_room full_room receiver (omega arith, (refl, tt)) refl
