-- ===== src/Sync/Reconcile/Laws.antt =====
-- What a scan never takes back.
use veritas_sync_next.Prelude.{
  bind_ok, ◌+◌, true, false, Bool, List, ◌∷◌, [], ℕ, ◌≤◌, ◌≡◌, subst, inl, inr, Bytes, ok, some,
  arith, bytes_eq, assign, bytes_key, Bool-cases, bytes_eq→eq,
}
use veritas_sync_next.Storage.Tables.{FileRecord, VersionLineage, Database}
use veritas_sync_next.Storage.Records.{upsert_file_record, upsert_file_record_ok, record_tombstone}
use veritas_sync_next.Storage.Lineage.{
  find_version_lineage, record_version_lineage, advance_logical_clock, clock_of,
}
use veritas_sync_next.Storage.Lineage.Laws.{
  advanced, recorded, added, advance_logical_clock-grows, record_version_lineage-keeps,
}
use veritas_sync_next.Sync.ManifestDiff.{SnapshotEntry}
use veritas_sync_next.Storage.Records.{list_file_records}
use veritas_sync_next.Storage.Tasks.{find_task, is_bidirectional}
use veritas_sync_next.Sync.ManifestDiff.{diff_manifest}
use veritas_sync_next.Sync.Reconcile.{
  collect, reconcile, bury_all, apply, ReconcileResult, ReconcileConfig, store_version, store_all,
  bury,
}

-- The versions recorded in `db` are recorded in `next` with the same parents, and no clock is lower.
pub record Later (db next : Database) : Type 0 where
  pub versions :
      (task v : Bytes) (k : VersionLineage)
      → find_version_lineage db task v ≡ ok (some k)
      → find_version_lineage next task v ≡ ok (some k)
  pub clocks : (task : Bytes) → clock_of db task ≤ clock_of next task

Later-refl : (db : Database) → Later db db
Later-refl db = record { versions = λ task v k e. e; clocks = λ task. omega arith }

Later-trans : (a b c : Database) → Later a b → Later b c → Later a c
Later-trans a b c h g = record {
  versions = λ task v k e. g.versions task v k (h.versions task v k e);
  clocks = λ task. omega (arith, h.clocks task, g.clocks task);
}

Later-upsert :
    (db next : Database) (r : FileRecord) → upsert_file_record db r ≡ ok next → Later db next
unfolding find_version_lineage clock_of
Later-upsert db next r e =
    rw (upsert_file_record_ok db next r e).0
      (record { versions = λ task v k f. f; clocks = λ task. omega arith })

Later-tombstone :
    (db next : Database) (task path version origin : Bytes) (clock time : ℕ)
    → record_tombstone db task path version origin clock time ≡ ok next
    → Later db next
unfolding record_tombstone
Later-tombstone db next task path version origin clock time e = Later-upsert db next _ e

Later-advance :
    (db next : Database) (task : Bytes) (observed clock : ℕ)
    → advance_logical_clock db task observed ≡ ok (clock, next)
    → Later db next
Later-advance db next task observed clock e = record {
  versions = same_versions db next task clock (advanced db next task observed clock e).2;
  clocks = λ other.
      let (above, _, _, now, others) = advance_logical_clock-grows db next task observed clock e in
      elim (Bool-cases (bytes_eq task other)) [
        | inl same ↦
            subst (λ t. clock_of db t ≤ clock_of next t) (bytes_eq→eq task other same)
              (omega (arith, above, now))
        | inr different ↦ omega (arith, others other different)
      ];
}
  where
    same_versions :
        (db next : Database) (task : Bytes) (clock : ℕ)
        → next ≡ record db { task_clocks = assign task clock db.task_clocks }
        → (t v : Bytes) (k : VersionLineage) → find_version_lineage db t v ≡ ok (some k)
        → find_version_lineage next t v ≡ ok (some k)
    same_versions db next task clock same t v k f = unfold find_version_lineage in rw same f

Later-record :
    (db next : Database) (l : VersionLineage)
    → record_version_lineage db l ≡ ok next
    → Later db next
unfolding clock_of
Later-record db next l e =
    let (known, _, h) = recorded db next l e in
    record {
      versions = λ task v k f. record_version_lineage-keeps db next l task v k e f;
      clocks = λ task. elim (added db next l known h) [
        | inl (_, same) ↦ rw same (omega arith)
        | inr (_, _, _, same) ↦ rw same (omega arith)
      ];
    }

module _ (new_id : ℕ → Bytes) where
  store_version_steps :
      (config : ReconcileConfig) (known : List FileRecord) (db next : Database) (r : FileRecord)
      → store_version new_id true config known db r ≡ ok next
      → (clock : ℕ) × (ticked : Database) × (graph : Database) × (l : VersionLineage)
        × (s : FileRecord) × (advance_logical_clock db config.task_id 0 ≡ ok (clock, ticked))
        × (record_version_lineage ticked l ≡ ok graph)
        × (upsert_file_record graph s ≡ ok next)
  unfolding store_version
  store_version_steps config known db next r e =
      let ((clock, ticked), h1, e1) = bind_ok _ _ e in
      let (graph, h2, e2) = bind_ok _ _ e1 in (clock, ticked, graph, _, _, h1, h2, e2)

  Later-store_version :
      (versioned : Bool) (config : ReconcileConfig) (known : List FileRecord) (db next : Database)
      (r : FileRecord)
      → store_version new_id versioned config known db r ≡ ok next
      → Later db next
  unfolding store_version
  Later-store_version false config known db next r e = Later-upsert db next r e
  Later-store_version true config known db next r e =
      let (clock, ticked, graph, l, s, h1, h2, h3) = store_version_steps config known db next r e in
      Later-trans db ticked next (Later-advance db ticked config.task_id 0 clock h1) (
        Later-trans ticked graph next (Later-record ticked graph l h2)
          (Later-upsert graph next s h3))

  store_all_steps :
      (versioned : Bool) (config : ReconcileConfig) (known : List FileRecord) (db next : Database)
      (r : FileRecord) (rs : List FileRecord)
      → store_all new_id versioned config known db (r ∷ rs) ≡ ok next
      → (b : Bool) × (one : Database) × (store_version new_id b config known db r ≡ ok one)
        × (store_all new_id versioned config known one rs ≡ ok next)
  unfolding store_all
  store_all_steps versioned config known db next r rs e =
      let (one, h, g) = bind_ok _ _ e in (_, one, h, g)

  Later-store_all :
      (versioned : Bool) (config : ReconcileConfig) (known : List FileRecord) (db next : Database)
      (rs : List FileRecord)
      → store_all new_id versioned config known db rs ≡ ok next
      → Later db next
  unfolding store_all
  Later-store_all versioned config known db next [] e =
      subst (Later db) (ground (arith, e)) (Later-refl db)
  Later-store_all versioned config known db next (r ∷ rs) e =
      let (b, one, h, g) = store_all_steps versioned config known db next r rs e in
      Later-trans db one next (Later-store_version b config known db one r h)
        (Later-store_all versioned config known one next rs g)

  bury_steps :
      (config : ReconcileConfig) (known : List FileRecord) (n : ℕ) (db next : Database)
      (path : Bytes)
      → bury new_id true config known n db path ≡ ok next
      → (clock : ℕ) × (ticked : Database) × (graph : Database) × (l : VersionLineage)
        × (advance_logical_clock db config.task_id 0 ≡ ok (clock, ticked))
        × (record_version_lineage ticked l ≡ ok graph)
        × (record_tombstone graph config.task_id path
              (new_id n)
              config.origin_device_id
              clock
              config.now_ms
            ≡ ok next)
  unfolding bury
  bury_steps config known n db next path e =
      let ((clock, ticked), h1, e1) = bind_ok _ _ e in
      let (graph, h2, e2) = bind_ok _ _ e1 in (clock, ticked, graph, _, h1, h2, e2)

  Later-bury :
      (versioned : Bool) (config : ReconcileConfig) (known : List FileRecord) (n : ℕ)
      (db next : Database) (path : Bytes)
      → bury new_id versioned config known n db path ≡ ok next
      → Later db next
  unfolding bury
  Later-bury false config known n db next path e = Later-tombstone db next _ _ _ _ _ _ e
  Later-bury true config known n db next path e =
      let (clock, ticked, graph, l, h1, h2, h3) = bury_steps config known n db next path e in
      Later-trans db ticked next (Later-advance db ticked config.task_id 0 clock h1) (
        Later-trans ticked graph next (Later-record ticked graph l h2)
          (Later-tombstone graph next _ _ _ _ _ _ h3))

  Later-bury_all :
      (versioned : Bool) (config : ReconcileConfig) (known : List FileRecord) (n : ℕ)
      (db next : Database) (paths : List Bytes)
      → bury_all new_id versioned config known n db paths ≡ ok next
      → Later db next
  unfolding bury_all
  Later-bury_all versioned config known n db next [] e =
      subst (Later db) (ground (arith, e)) (Later-refl db)
  Later-bury_all versioned config known n db next (path ∷ paths) e =
      let (one, h, g) = bind_ok _ _ e in
      Later-trans db one next (Later-bury versioned config known n db one path h)
        (Later-bury_all versioned config known (n + 1) one next paths g)

  Later-reconcile :
      (db next : Database) (snapshot : List SnapshotEntry) (config : ReconcileConfig)
      (result : ReconcileResult)
      → reconcile new_id db snapshot config ≡ ok (result, next)
      → Later db next
  unfolding reconcile
  Later-reconcile db next snapshot config result e =
      let (known, _, e3) = bind_ok (list_file_records db config.task_id) _ e in
      let (task, _, e4) = bind_ok (find_task db config.task_id) _ e3 in
      let (diff, _, e5) = bind_ok (diff_manifest snapshot known) _ e4 in
      let upserts = collect new_id config 0 known diff.created_or_changed snapshot in
      let versioned = is_bidirectional task in
      let (stored, h, e6) = bind_ok (store_all new_id versioned config known db upserts.0) _ e5 in
      let (buried, g, e7) =
        bind_ok (bury_all new_id versioned config known upserts.1 stored diff.deleted_paths) _ e6 in
      let same : buried ≡ next = ground (arith, e7) in
      Later-trans db stored next (Later-store_all versioned config known db stored upserts.0 h) (
        subst (Later stored) same
          (Later-bury_all versioned config known upserts.1 stored buried diff.deleted_paths g))

  reconciled :
      (db next : Database) (snapshot : List SnapshotEntry) (config : ReconcileConfig)
      (result : ReconcileResult)
      → apply new_id db snapshot config ≡ ok (result, next)
      → reconcile new_id db snapshot config ≡ ok (result, next)
  unfolding apply
  reconciled db next snapshot config result e = ground arith

  -- Taking a scan into the database keeps every version that is recorded, with its parent, and
  -- lowers no logical clock.
  pub Later-apply :
      (db next : Database) (snapshot : List SnapshotEntry) (config : ReconcileConfig)
      (result : ReconcileResult)
      → apply new_id db snapshot config ≡ ok (result, next)
      → Later db next
  Later-apply db next snapshot config result e =
      Later-reconcile db next snapshot config result (reconciled db next snapshot config result e)
