-- ===== src/Sync/Versions/Laws.antt =====
-- Two peers that meet with the same history decide alike.
use veritas_sync_next.Prelude.{
  ap, ◌∙◌, bytes_eq_sym, bytes_eq→eq, ◌≡◌, Bool, true, false, not, ◌||◌, Bytes, ok, some, empty?,
  if◌then◌else◌, ◌>>=◌, ◌==◌, bytes_eq, arith, bytes_lt_asym, bytes_lt_total,
}
use veritas_sync_next.Storage.Tables.{FileRecord, Database}
use veritas_sync_next.Storage.Lineage.{is_version_ancestor}
use veritas_sync_next.Sync.Versions.{
  conflict_path, VersionResolution, conflict, remote_sorts_before_local, remote_wins_conflict,
  resolve_conflict, resolve_versions, resolve_known, resolve,
}

-- The clock or the origin tells two records apart.
abbrev pub tells_apart : FileRecord → FileRecord → Bool
tells_apart a b =
    not (a.logical_clock == b.logical_clock) || not (bytes_eq a.origin_device_id b.origin_device_id)

remote_sorts-flip :
    (a b : FileRecord)
    → tells_apart a b ≡ true
    → remote_sorts_before_local a b ≡ not (remote_sorts_before_local b a)
unfolding remote_sorts_before_local
remote_sorts-flip a b h =
    let asym = bytes_lt_asym a.origin_device_id b.origin_device_id in
    let total = bytes_lt_total a.origin_device_id b.origin_device_id in
    ground (arith, h, asym, total)

remote_wins-flip :
    (a b : FileRecord)
    → tells_apart a b ≡ true
    → remote_wins_conflict a b ≡ not (remote_wins_conflict b a)
unfolding remote_wins_conflict
remote_wins-flip a b h = ground (arith, remote_sorts-flip a b h)

abbrev pub conflict_of : Bool → Bytes → VersionResolution
conflict_of wins path = record { action = conflict; remote_wins = wins; conflict_path = path }

flip_shape :
    (a b : FileRecord) (p q path : Bytes) (w wins : Bool)
    → q ≡ p
    → (conflict_path p (if w then a else b) >>= λ x. ok (conflict_of w x))
      ≡ ok (conflict_of wins path)
    → (conflict_path q (if not w then b else a) >>= λ x. ok (conflict_of (not w) x))
      ≡ ok (conflict_of (not wins) path)
flip_shape a b p q path true wins same e = rw same (ground arith)
flip_shape a b p q path false wins same e = rw same (ground arith)

resolve_conflict-flip :
    (a b : FileRecord) (path : Bytes) (wins : Bool)
    → tells_apart a b ≡ true
    → a.relative_path ≡ b.relative_path
    → resolve_conflict a b ≡ ok (conflict_of wins path)
    → resolve_conflict b a ≡ ok (conflict_of (not wins) path)
unfolding resolve_conflict
resolve_conflict-flip a b path wins h same e =
    rw (remote_wins-flip a b h)
      (flip_shape a b b.relative_path a.relative_path path (remote_wins_conflict b a) wins same e)

resolved_conflict :
    (db : Database) (task : Bytes) (a b : FileRecord) (path : Bytes) (wins : Bool)
    → resolve db task (some a) b ≡ ok (conflict_of wins path)
    → (empty? task ≡ false)
      × (bytes_eq a.task_id task ≡ true)
      × (bytes_eq b.task_id task ≡ true)
      × (bytes_eq a.relative_path b.relative_path ≡ true)
      × (empty? b.relative_path ≡ false)
      × (empty? b.version_id ≡ false)
      × (bytes_eq a.version_id b.version_id ≡ false)
      × (is_version_ancestor db task a.version_id b.version_id ≡ ok false)
      × (is_version_ancestor db task b.version_id a.version_id ≡ ok false)
      × (resolve_conflict a b ≡ ok (conflict_of wins path))
unfolding resolve resolve_known resolve_versions
resolved_conflict db task a b path wins e = ground arith

resolve_step :
    (db : Database) (task : Bytes) (a b : FileRecord)
    → empty? task ≡ false
    → bytes_eq a.task_id task ≡ true
    → bytes_eq b.task_id task ≡ true
    → bytes_eq a.relative_path b.relative_path ≡ true
    → empty? b.relative_path ≡ false
    → empty? b.version_id ≡ false
    → bytes_eq a.version_id b.version_id ≡ false
    → is_version_ancestor db task a.version_id b.version_id ≡ ok false
    → is_version_ancestor db task b.version_id a.version_id ≡ ok false
    → resolve db task (some a) b ≡ resolve_conflict a b
unfolding resolve resolve_known resolve_versions
resolve_step db task a b h1 h2 h3 h4 h5 h6 h7 h8 h9 = rw (h1, h2, h3, h4, h5, h6, h7, h8, ◌>>=◌, h9)

-- Two peers with the same version graph that meet with concurrent versions `a` and `b` of a path
-- agree: if the peer that holds `a` finds a conflict, then the one that holds `b` finds it too, the
-- other side wins there, and both keep the loser under the same name. The versions differ in their
-- clock or in their origin.
pub resolve-flip :
    (db : Database) (task : Bytes) (a b : FileRecord) (path : Bytes) (wins : Bool)
    → tells_apart a b ≡ true
    → empty? a.version_id ≡ false
    → resolve db task (some a) b ≡ ok (conflict_of wins path)
    → resolve db task (some b) a ≡ ok (conflict_of (not wins) path)
resolve-flip db task a b path wins h v e =
    let (h1, h2, h3, h4, h5, h6, h7, h8, h9, c) = resolved_conflict db task a b path wins e in
    let same = bytes_eq→eq a.relative_path b.relative_path h4 in
    resolve_step db task b a h1 h3 h2 (bytes_eq_sym b.relative_path a.relative_path ∙ h4)
      (ap empty? same ∙ h5) v (bytes_eq_sym b.version_id a.version_id ∙ h7) h9 h8
    ∙ resolve_conflict-flip a b path wins h same c
