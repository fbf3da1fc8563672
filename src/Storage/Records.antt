-- ===== src/Storage/Records.antt =====
-- File records: ValidateFileRecord, UpsertFileRecord, RecordTombstone, FindFileRecord and
-- ListFileRecords of engine/storage/database.cpp.
use veritas_sync_next.Prelude.{
  ℕ, ◌≡◌, inl, inr, Bool, true, false, not, ◌&&◌, ◌||◌, Bytes, Result, ok, invalid_argument,
  runtime_error, List, [], ◌∷◌, Option, none, some, empty?, bytes_eq, bytes_lt, if◌then◌else◌,
  forbid, ◌>>◌, arith, sort_by, keep_if, find_if, find_if_hit, find_if_miss, and_true, ap, sym, ◌∙◌,
  bytes_eq_refl, bytes_eq→eq, Bool-cases,
}
use veritas_sync_next.Storage.Paths.{validate_relative_path}
use veritas_sync_next.Storage.Tables.{
  FileKind, file, directory, tombstone, FileRecord, Database, has_task,
}

abbrev pub is_file : FileKind → Bool
is_file file = true
is_file _ = false

abbrev pub is_directory : FileKind → Bool
is_directory directory = true
is_directory _ = false

abbrev pub is_tombstone : FileKind → Bool
is_tombstone tombstone = true
is_tombstone _ = false

abbrev pub has_value {ℓ} : {A : Type ℓ} → Option A → Bool
has_value none = false
has_value (some a) = true

unfoldable pub validate_file_record : FileRecord → Result (Unit {0})
validate_file_record r = do
  forbid (empty? r.task_id || empty? r.version_id || empty? r.origin_device_id)
      (invalid_argument "file record identity fields are required")
  validate_relative_path r.relative_path
  forbid (is_file r.kind && empty? r.content_hash)
      (invalid_argument "file records require a content hash")
  forbid (is_tombstone r.kind && not (has_value r.deleted_at_ms))
      (invalid_argument "tombstones require a deletion timestamp")
  forbid (not (is_tombstone r.kind) && has_value r.deleted_at_ms)
      (invalid_argument "live records must not have a deletion timestamp")

-- The primary key of `file_records`.
abbrev pub at_key : Bytes → Bytes → FileRecord → Bool
at_key task_id path r = bytes_eq r.task_id task_id && bytes_eq r.relative_path path

-- INSERT ... ON CONFLICT(task_id, relative_path) DO UPDATE.
unfoldable pub replace_record : FileRecord → List FileRecord → List FileRecord
replace_record r [] = r ∷ []
replace_record r (q ∷ qs) =
    if at_key r.task_id r.relative_path q then r ∷ qs else q ∷ replace_record r qs

unfoldable pub upsert_file_record : Database → FileRecord → Result Database
upsert_file_record db r = do
  validate_file_record r
  forbid (not (has_task db r.task_id)) (runtime_error "upsert file record")
  ok (record db { file_records = replace_record r db.file_records })

unfoldable pub record_tombstone : Database → Bytes → Bytes → Bytes → Bytes → ℕ → ℕ → Result Database
record_tombstone db task_id path version origin clock deleted_at_ms =
    upsert_file_record db (record {
      task_id = task_id;
      relative_path = path;
      kind = tombstone;
      size = 0;
      mtime_ns = 0;
      content_hash = [];
      version_id = version;
      origin_device_id = origin;
      logical_clock = clock;
      deleted_at_ms = some deleted_at_ms;
    })

unfoldable pub find_file_record : Database → Bytes → Bytes → Result (Option FileRecord)
find_file_record db task_id path = do
  validate_relative_path path
  ok (find_if (at_key task_id path) db.file_records)

abbrev pub path_less : FileRecord → FileRecord → Bool
path_less a b = bytes_lt a.relative_path b.relative_path

unfoldable pub list_file_records : Database → Bytes → Result (List FileRecord)
list_file_records db task_id = do
  forbid (empty? task_id) (invalid_argument "task id is required")
  ok (sort_by path_less (keep_if (λ r. bytes_eq r.task_id task_id) db.file_records))

own_key : (r : FileRecord) → at_key r.task_id r.relative_path r ≡ true
own_key r = rw (bytes_eq_refl r.task_id) (bytes_eq_refl r.relative_path)

find-replace_self :
    (r : FileRecord) (qs : List FileRecord)
    → find_if (at_key r.task_id r.relative_path) (replace_record r qs) ≡ some r
unfolding replace_record
find-replace_self r [] = find_if_hit (at_key r.task_id r.relative_path) r [] (own_key r)
find-replace_self r (q ∷ qs) = elim (Bool-cases (at_key r.task_id r.relative_path q)) [
  | inl hit ↦ rw hit (find_if_hit (at_key r.task_id r.relative_path) r qs (own_key r))
  | inr miss ↦ rw miss (
      find_if_miss (at_key r.task_id r.relative_path) q (replace_record r qs) miss
      ∙ find-replace_self r qs)
]

-- Two records of one key are at the same keys.
same_key :
    (r q : FileRecord) (task_id path : Bytes)
    → at_key r.task_id r.relative_path q ≡ true
    → at_key task_id path q ≡ at_key task_id path r
same_key r q task_id path h =
    let (t, p) = and_true _ _ h in
    ap (λ x. bytes_eq x task_id && bytes_eq q.relative_path path) (bytes_eq→eq _ _ t)
    ∙ ap (λ x. bytes_eq r.task_id task_id && bytes_eq x path) (bytes_eq→eq _ _ p)

find-replace_other :
    (r : FileRecord) (task_id path : Bytes) (qs : List FileRecord)
    → at_key task_id path r ≡ false
    → find_if (at_key task_id path) (replace_record r qs) ≡ find_if (at_key task_id path) qs
unfolding replace_record
find-replace_other r task_id path [] h = find_if_miss (at_key task_id path) r [] h
find-replace_other r task_id path (q ∷ qs) h =
    elim (Bool-cases (at_key r.task_id r.relative_path q)) [
      | inl hit ↦ rw hit (
          find_if_miss (at_key task_id path) r qs h
          ∙ sym (find_if_miss (at_key task_id path) q qs (same_key r q task_id path hit ∙ h)))
      | inr other ↦ rw other (elim (Bool-cases (at_key task_id path q)) [
        | inl here ↦
            find_if_hit (at_key task_id path) q (replace_record r qs) here
            ∙ sym (find_if_hit (at_key task_id path) q qs here)
        | inr there ↦
            find_if_miss (at_key task_id path) q (replace_record r qs) there
            ∙ find-replace_other r task_id path qs h
            ∙ sym (find_if_miss (at_key task_id path) q qs there)
      ])
    ]

pub upsert_file_record_ok :
    (db next : Database) (r : FileRecord)
    → upsert_file_record db r ≡ ok next
    → (next ≡ record db { file_records = replace_record r db.file_records })
      × (validate_relative_path r.relative_path ≡ ok tt)
unfolding upsert_file_record validate_file_record
upsert_file_record_ok db next r e = ground arith

-- A record that the database takes is found again under its task and path, and every other lookup
-- answers as before.
pub find-upsert_file_record :
    (db next : Database) (r : FileRecord)
    → upsert_file_record db r ≡ ok next
    → (find_file_record next r.task_id r.relative_path ≡ ok (some r))
      × ((task_id path : Bytes)
          → at_key task_id path r ≡ false
          → find_file_record next task_id path ≡ find_file_record db task_id path)
unfolding find_file_record
find-upsert_file_record db next r e =
    let (same, valid) = upsert_file_record_ok db next r e in
    rw (same, valid)
      (
        ap ok (find-replace_self r db.file_records),
        λ task_id path h. rw (find-replace_other r task_id path db.file_records h),
      )

-- What the database accepts as a record: a tombstone has its deletion time, a live record has none,
-- a file has a hash, and no identity is empty.
pub upsert_file_record_sound :
    (db next : Database) (r : FileRecord)
    → upsert_file_record db r ≡ ok next
    → (is_tombstone r.kind ≡ has_value r.deleted_at_ms)
      × (is_file r.kind ≡ true → empty? r.content_hash ≡ false)
      × (empty? r.version_id ≡ false)
      × (has_task db r.task_id ≡ true)
unfolding upsert_file_record validate_file_record
upsert_file_record_sound db next r e = ground arith
