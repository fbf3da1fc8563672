-- ===== src/Storage/Ignore/Policy/Undo.antt =====
-- Undo of engine/storage/ignore_policy.cpp brings back what Apply replaced.
use veritas_sync_next.Prelude.{
  ℕ, ◌≡◌, refl, sym, ap, subst, ◌∙◌, true, false, not, ◌||◌, Bytes, ok, List, [], ◌∷◌, Option, none,
  some, empty?, bytes_eq, bytes_eq_refl, bytes_eq_sym, ltb, ◌==◌, forbid, length, take,
  length-to_hex, arith, bind_to, invalid_argument, runtime_error,
}
use veritas_sync_next.Storage.Tables.{IgnorePolicyRevision, Database, has_task}
use veritas_sync_next.Storage.Policies.{
  current_ignore_policy_revision, record_ignore_policy_revision, list_ignore_policy_revisions,
  invalid_revision, known_source, undo_source, next_revision, with_revision,
}
use veritas_sync_next.Storage.Policies.Laws.{IsHistory, history, sort_by-newer}
use veritas_sync_next.Storage.Ignore.Validate.{validate}
use veritas_sync_next.Storage.Ignore.Policy.{
  IgnorePolicyState, state_of, read_rules, hash_rules, synchronize, replace_rules, apply, undo,
}
use veritas_sync_next.Storage.Ignore.Policy.Checks.{Ready}
use veritas_sync_next.Storage.Ignore.Policy.Laws.{recorded-Holds, InStep, synchronize_idle}
use veritas_sync_next.Storage.Ignore.Policy.Replace.{
  read_rules-valid, validate-short, apply-Replaced,
}

undo_source-known : known_source undo_source ≡ true
unfolding bytes_eq
undo_source-known = refl

module _ (blake3 : Bytes → Bytes) where
  hash_length :
      (rules : Bytes) → length (blake3 rules) ≡ 32 → (length (hash_rules blake3 rules) == 64) ≡ true
  unfolding hash_rules
  hash_length rules size = ground (arith, length-to_hex (blake3 rules), size)

  -- The rules of a file are valid, so that a revision of them is recorded.
  record_runs :
      (db : Database) (task rules source : Bytes) (now : ℕ)
      → ((s : Bytes) → length (blake3 s) ≡ 32)
      → Ready db task
      → validate rules ≡ ok tt
      → known_source source ≡ true
      → (now == 0) ≡ false
      → record_ignore_policy_revision db task rules (hash_rules blake3 rules) source now
        ≡ ok (
          next_revision db task rules (hash_rules blake3 rules) source now,
          with_revision db (next_revision db task rules (hash_rules blake3 rules) source now),
        )
  unfolding record_ignore_policy_revision
  record_runs db task rules source now size ready valid known later =
      bind_to
        (forbid (invalid_revision task rules (hash_rules blake3 rules) source now)
          (invalid_argument "ignore policy revision is invalid"))
        _
        (ground (
          arith,
          ready.0,
          validate-short rules valid,
          hash_length rules (size rules),
          known,
          later,
        ))
      ∙ bind_to (forbid (not (has_task db task)) (runtime_error "insert ignore policy revision")) _
          (ground (arith, ready.1))

  apply_runs :
      (db : Database) (task : Bytes) (disk : Option Bytes) (r : IgnorePolicyRevision)
      (rules wanted source : Bytes) (now : ℕ)
      → ((s : Bytes) → length (blake3 s) ≡ 32)
      → Ready db task
      → InStep blake3 db task disk r rules
      → validate wanted ≡ ok tt
      → known_source source ≡ true
      → (now == 0) ≡ false
      → bytes_eq wanted r.content ≡ false
      → apply blake3 db task disk r.content_hash wanted source now none
        ≡ replace_rules blake3 db task wanted source now none
  unfolding apply
  apply_runs db task disk r rules wanted source now size ready step valid known later differ =
      bind_to (validate wanted) _ valid
      ∙ bind_to
          (forbid (not (known_source source)) (invalid_argument "ignore policy source is invalid"))
          _ (ground (arith, known))
      ∙ bind_to (synchronize blake3 db task disk now) _
          (synchronize_idle blake3 db task disk now r rules ready later step)
      ∙ bind_to
          (forbid (not (bytes_eq r.content_hash r.content_hash))
            (invalid_argument "ignore policy changed; refresh before applying"))
          _ (ground (arith, bytes_eq_refl r.content_hash))
      ∙ rw differ refl

  list_two :
      (db : Database) (task : Bytes) (r before : IgnorePolicyRevision)
      (rest : List IgnorePolicyRevision)
      → empty? task ≡ false
      → IsHistory db task
      → history db task ≡ r ∷ before ∷ rest
      → list_ignore_policy_revisions db task 2 ≡ ok (r ∷ before ∷ [])
  unfolding list_ignore_policy_revisions
  list_two db task r before rest named v rows =
      bind_to
        (forbid (empty? task || 2 == 0 || ltb 200 2)
          (invalid_argument "ignore policy history request is invalid"))
        _ (ground (arith, named))
      ∙ ap (λ q. ok (take 2 q)) (sort_by-newer (history db task) v.0 ∙ rows)

  -- What is recorded is the current revision.
  current_recorded :
      (db next : Database) (task rules source : Bytes) (now : ℕ) (r : IgnorePolicyRevision)
      → IsHistory db task
      → empty? task ≡ false
      → record_ignore_policy_revision db task rules (hash_rules blake3 rules) source now
        ≡ ok (r, next)
      → current_ignore_policy_revision next task ≡ ok (some r)
  unfolding current_ignore_policy_revision
  current_recorded db next task rules source now r v named h =
      let (after, top, _, _, _) = recorded-Holds blake3 db next task rules source now r v h in
      rw named (ap ok (after.1 ∙ top))

  replace_rules_runs :
      (db : Database) (task rules source : Bytes) (now : ℕ)
      → ((s : Bytes) → length (blake3 s) ≡ 32)
      → Ready db task
      → IsHistory db task
      → validate rules ≡ ok tt
      → known_source source ≡ true
      → (now == 0) ≡ false
      → (state : IgnorePolicyState) × (next : Database) × (replace_rules blake3 db task rules source
            now none
          ≡ ok (state, next, some rules))
        × (state.rules ≡ rules)
        × (r : IgnorePolicyRevision) × (current_ignore_policy_revision next task ≡ ok (some r))
        × (r.content ≡ rules)
  unfolding replace_rules
  replace_rules_runs db task rules source now size ready v valid known later =
      let made = record_runs db task rules source now size ready valid known later in
      let r = next_revision db task rules (hash_rules blake3 rules) source now in
      (
        state_of (next_revision db task rules (hash_rules blake3 rules) source now),
        with_revision db (next_revision db task rules (hash_rules blake3 rules) source now),
        bind_to (record_ignore_policy_revision db task rules (hash_rules blake3 rules) source now) _
            made,
        refl,
        r,
        current_recorded db (with_revision db r) task rules source now r v ready.0 made,
        refl,
      )

  undo_runs :
      (db : Database) (task : Bytes) (disk : Option Bytes) (r before : IgnorePolicyRevision)
      (rest : List IgnorePolicyRevision) (rules : Bytes) (now : ℕ)
      → ((s : Bytes) → length (blake3 s) ≡ 32)
      → Ready db task
      → InStep blake3 db task disk r rules
      → history db task ≡ r ∷ before ∷ rest
      → validate before.content ≡ ok tt
      → (now == 0) ≡ false
      → bytes_eq before.content r.content ≡ false
      → undo blake3 db task disk r.content_hash now none
        ≡ replace_rules blake3 db task before.content undo_source now none
  unfolding undo
  undo_runs db task disk r before rest rules now size ready step rows valid later differ =
      bind_to (synchronize blake3 db task disk now) _
        (synchronize_idle blake3 db task disk now r rules ready later step)
      ∙ bind_to
          (forbid (not (bytes_eq r.content_hash r.content_hash))
            (invalid_argument "ignore policy changed; refresh before undoing"))
          _ (ground (arith, bytes_eq_refl r.content_hash))
      ∙ bind_to (list_ignore_policy_revisions db task 2) _
          (list_two db task r before rest ready.0 step.0 rows)
      ∙ apply_runs db task disk r rules before.content undo_source now size ready step valid
          undo_source-known later differ

-- Undo after Apply restores the rules that Apply replaced, in the state that it answers, in the file
-- and as the current revision of the database, and does not fail: for a history in order, rules that
-- differ from those of the file, a file system that writes, a positive time and a hash function of
-- 32 bytes.
pub undo-apply :
    (blake3 : Bytes → Bytes) (db next : Database) (task : Bytes) (disk after : Option Bytes)
    (expected rules source old : Bytes) (now later : ℕ) (state : IgnorePolicyState)
    → ((s : Bytes) → length (blake3 s) ≡ 32)
    → IsHistory db task
    → read_rules disk ≡ ok old
    → bytes_eq rules old ≡ false
    → (later == 0) ≡ false
    → apply blake3 db task disk expected rules source now none ≡ ok (state, next, after)
    → (restored : IgnorePolicyState) × (last : Database) × (undo blake3 next task after
          state.content_hash later none
        ≡ ok (restored, last, some old))
      × (restored.rules ≡ old)
      × (r : IgnorePolicyRevision) × (current_ignore_policy_revision last task ≡ ok (some r))
      × (r.content ≡ old)
undo-apply blake3 db next task disk after expected rules source old now later state size v read
      differ positive h =
    let (r, before, rest, state_eq, ready, step, rows, same, _) =
      apply-Replaced blake3 db next task disk after expected rules source old now state v read
        differ h in
    let (_, _, content, _, _) = step in
    let valid = subst (λ x. validate x ≡ ok tt) (sym same) (read_rules-valid disk old read) in
    let apart =
      ap (λ x. bytes_eq x r.content) same
      ∙ ap (bytes_eq old) content
      ∙ bytes_eq_sym old rules
      ∙ differ in
    let (restored, last, made, is_old, now_current, current, again) =
      replace_rules_runs blake3 next task before.content undo_source later size ready step.0 valid
        undo_source-known positive in
    (
      restored,
      last,
      ap (λ x. undo blake3 next task after x.content_hash later none) state_eq
          ∙ undo_runs blake3 next task after r before rest rules later size ready step rows valid
              positive apart
          ∙ made
          ∙ ap (λ x. ok (restored, last, some x)) same,
      is_old ∙ same,
      now_current,
      current,
      again ∙ same,
    )
