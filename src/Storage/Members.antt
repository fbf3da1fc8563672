-- ===== src/Storage/Members.antt =====
-- Connections, members and policy negotiations of tasks: ConfigureTaskConnection,
-- FindTaskConnection, UpsertTaskMember, ListTaskMembers, SavePendingIgnorePolicy,
-- FindPendingIgnorePolicy and ClearPendingIgnorePolicy of engine/storage/database.cpp.
use veritas_sync_next.Prelude.{
  Bool, not, ◌||◌, ◌&&◌, Bytes, Result, ok, invalid_argument, runtime_error, List, [], ◌∷◌, Option,
  empty?, bytes_eq, bytes_lt, ◌==◌, if◌then◌else◌, forbid, ◌>>◌, length, sort_by, keep_if, find_if,
}
use veritas_sync_next.Storage.Tables.{
  TaskConnection, TaskMember, PendingIgnorePolicy, Database, has_task,
}
use veritas_sync_next.Storage.Tasks.{source_role}
use veritas_sync_next.Storage.Policies.{known_source}

-- "target"
abbrev pub target_role : Bytes
target_role = b't' ∷ b'a' ∷ b'r' ∷ b'g' ∷ b'e' ∷ b't' ∷ []

-- "peer"
abbrev pub peer_role : Bytes
peer_role = b'p' ∷ b'e' ∷ b'e' ∷ b'r' ∷ []

-- "proposed"
abbrev pub proposed : Bytes
proposed = b'p' ∷ b'r' ∷ b'o' ∷ b'p' ∷ b'o' ∷ b's' ∷ b'e' ∷ b'd' ∷ []

-- "prepared"
abbrev pub prepared : Bytes
prepared = b'p' ∷ b'r' ∷ b'e' ∷ b'p' ∷ b'a' ∷ b'r' ∷ b'e' ∷ b'd' ∷ []

-- "committed"
abbrev pub committed : Bytes
committed = b'c' ∷ b'o' ∷ b'm' ∷ b'm' ∷ b'i' ∷ b't' ∷ b't' ∷ b'e' ∷ b'd' ∷ []

-- "applied"
abbrev pub applied : Bytes
applied = b'a' ∷ b'p' ∷ b'p' ∷ b'l' ∷ b'i' ∷ b'e' ∷ b'd' ∷ []

abbrev pub connects : Bytes → TaskConnection → Bool
connects task_id c = bytes_eq c.task_id task_id

-- INSERT ... ON CONFLICT ... DO UPDATE: the row with the same key is replaced.
unfoldable pub upsert {ℓ} : {A : Type ℓ} → (A → Bool) → A → List A → List A
upsert same r [] = r ∷ []
upsert same r (q ∷ qs) = if same q then r ∷ qs else q ∷ upsert same r qs

unfoldable pub configure_task_connection : Database → TaskConnection → Result Database
unfolding upsert
configure_task_connection db c = do
  forbid
      (empty? c.task_id
        || empty? c.tracker_url
        || empty? c.room_id
        || not (length c.authorization_digest == 64)
        || c.joined_at_ms == 0)
      (invalid_argument "task connection is invalid")
  forbid (not (has_task db c.task_id)) (runtime_error "upsert task connection")
  ok (record db { task_connections = upsert (connects c.task_id) c db.task_connections })

unfoldable pub find_task_connection : Database → Bytes → Result (Option TaskConnection)
find_task_connection db task_id = do
  forbid (empty? task_id) (invalid_argument "task id is required")
  ok (find_if (connects task_id) db.task_connections)

-- The primary key of `task_members`.
abbrev pub is_member : Bytes → Bytes → TaskMember → Bool
is_member task_id device_id m = bytes_eq m.task_id task_id && bytes_eq m.device_id device_id

abbrev pub known_role : Bytes → Bool
known_role role = bytes_eq role source_role || bytes_eq role target_role || bytes_eq role peer_role

unfoldable pub upsert_task_member : Database → TaskMember → Result Database
unfolding upsert
upsert_task_member db m = do
  forbid
      (empty? m.task_id
        || empty? m.device_id
        || not (length m.fingerprint == 64)
        || not (known_role m.role)
        || m.authorized_at_ms == 0)
      (invalid_argument "task member is invalid")
  forbid (not (has_task db m.task_id)) (runtime_error "upsert task member")
  ok (record db { task_members = upsert (is_member m.task_id m.device_id) m db.task_members })

unfoldable pub list_task_members : Database → Bytes → Result (List TaskMember)
unfolding sort_by
list_task_members db task_id = do
  forbid (empty? task_id) (invalid_argument "task id is required")
  ok (
      sort_by (λ a b. bytes_lt a.device_id b.device_id)
        (keep_if (λ m. bytes_eq m.task_id task_id) db.task_members))

abbrev pub negotiates : Bytes → PendingIgnorePolicy → Bool
negotiates task_id p = bytes_eq p.task_id task_id

-- state IN ('proposed', 'prepared', 'committed', 'applied')
abbrev pub known_state : Bytes → Bool
known_state state =
    bytes_eq state proposed
    || bytes_eq state prepared
    || bytes_eq state committed
    || bytes_eq state applied

unfoldable pub save_pending_ignore_policy : Database → PendingIgnorePolicy → Result Database
unfolding upsert
save_pending_ignore_policy db p = do
  forbid (not (known_source p.source && known_state p.state && has_task db p.task_id))
      (runtime_error "persist policy negotiation")
  ok (record db {
    pending_ignore_policies = upsert (negotiates p.task_id) p db.pending_ignore_policies;
  })

unfoldable pub find_pending_ignore_policy : Database → Bytes → Option PendingIgnorePolicy
find_pending_ignore_policy db task_id = find_if (negotiates task_id) db.pending_ignore_policies

unfoldable pub clear_pending_ignore_policy : Database → Bytes → Database
clear_pending_ignore_policy db task_id = record db {
  pending_ignore_policies = keep_if (λ p. not (negotiates task_id p)) db.pending_ignore_policies;
}
