-- ===== src/Storage/Ignore/Policy/Laws.antt =====
-- Synchronize of engine/storage/ignore_policy.cpp keeps the file and the history in step.
use veritas_sync_next.Prelude.{
  bind_cases, bind_to, ℕ, ◌≡◌, sym, ap, subst, ◌∙◌, true, false, not, ◌||◌, Bytes, ok, Error,
  Option, none, some, empty?, bytes_eq, bytes_eq_refl, bytes_eq→eq, ◌==◌, forbid, Bool-cases, inl,
  inr, arith,
}
use veritas_sync_next.Storage.Tables.{TaskDefinition, IgnorePolicyRevision, Database, has_task}
use veritas_sync_next.Storage.Records.{has_value}
use veritas_sync_next.Storage.Tasks.{find_task}
use veritas_sync_next.Storage.Policies.{
  record_ignore_policy_revision, current_ignore_policy_revision, manual,
}
use veritas_sync_next.Storage.Policies.Laws.{
  history-record_ignore_policy_revision, IsHistory, history, newest,
  IsHistory-record_ignore_policy_revision,
}
use veritas_sync_next.Storage.Ignore.Policy.{
  IgnorePolicyState, state_of, read_rules, hash_rules, import_rules, synchronize,
}
use veritas_sync_next.Storage.Ignore.Policy.Checks.{
  answer_inj, named_ok, not_forbidden, find_task-Ready, answer_of, current_newest,
  has_value-find_if, row, identity_required, task_missing, Ready, answer_eq,
}

module _ (blake3 : Bytes → Bytes) where
  -- The file and the history say the same: the newest revision has the content of the file.
  abbrev pub InStep : Database → Bytes → Option Bytes → IgnorePolicyRevision → Bytes → Type 0
  InStep db task disk r rules =
      IsHistory db task
      × (newest (history db task) ≡ some r)
      × (r.content ≡ rules)
      × (r.content_hash ≡ hash_rules blake3 rules)
      × (read_rules disk ≡ ok rules)

  import_rules_idle :
      (db : Database) (task rules : Bytes) (now : ℕ) (r : IgnorePolicyRevision)
      → r.content ≡ rules
      → r.content_hash ≡ hash_rules blake3 rules
      → import_rules blake3 db task rules now (some r) ≡ ok (r, db)
  unfolding import_rules
  import_rules_idle db task rules now r c h = ground (
    arith,
    ap (λ x. bytes_eq x rules) c,
    ap (λ x. bytes_eq x (hash_rules blake3 rules)) h,
    bytes_eq_refl rules,
    bytes_eq_refl (hash_rules blake3 rules),
  )

  pub synchronize_idle :
      (db : Database) (task : Bytes) (disk : Option Bytes) (now : ℕ) (r : IgnorePolicyRevision)
      (rules : Bytes)
      → Ready db task
      → (now == 0) ≡ false
      → InStep db task disk r rules
      → synchronize blake3 db task disk now ≡ ok (state_of r, db)
  unfolding synchronize
  synchronize_idle db task disk now r rules ready later (v, new, c, h, e) =
      let (found, there) = find_task-Ready db task ready in
      bind_to (forbid (empty? task || now == 0) _) _ (ground (arith, ready.0, later))
      ∙ bind_to (find_task db task) _ found
      ∙ bind_to (forbid (not (has_value (row db task))) _) _ (ground (arith, there))
      ∙ bind_to (read_rules disk) _ e
      ∙ bind_to (current_ignore_policy_revision db task) _
          (current_newest db task ready.0 v ∙ ap ok new)
      ∙ bind_to (import_rules blake3 db task rules now (some r)) _
          (import_rules_idle db task rules now r c h)

  -- What a revision that has been recorded, or was there before, says of the rules.
  abbrev pub Holds : Database → Bytes → Bytes → IgnorePolicyRevision → Type 0
  Holds db task rules r =
      IsHistory db task
      × (newest (history db task) ≡ some r)
      × (r.content ≡ rules)
      × (r.content_hash ≡ hash_rules blake3 rules)
      × (has_task db task ≡ true)

  pub recorded-Holds :
      (db next : Database) (task rules source : Bytes) (now : ℕ) (r : IgnorePolicyRevision)
      → IsHistory db task
      → record_ignore_policy_revision db task rules (hash_rules blake3 rules) source now
        ≡ ok (r, next)
      → Holds next task rules r
  recorded-Holds db next task rules source now r v h =
      let (first, content, hash, known) =
        history-record_ignore_policy_revision db next task rules (hash_rules blake3 rules) source
          now r h in
      (
        IsHistory-record_ignore_policy_revision db next task rules (hash_rules blake3 rules) source
            now r h task v,
        ap newest first,
        content,
        hash,
        known,
      )

  unchanged :
      (current : IgnorePolicyRevision) (rules : Bytes)
      → (not (bytes_eq current.content_hash (hash_rules blake3 rules))
          || not (bytes_eq current.content rules))
        ≡ false
      → (current.content ≡ rules) × (current.content_hash ≡ hash_rules blake3 rules)
  unchanged current rules h = (
    bytes_eq→eq current.content rules (ground (arith, h)),
    bytes_eq→eq current.content_hash (hash_rules blake3 rules) (ground (arith, h)),
  )

  import_rules-Holds :
      (db next : Database) (task rules : Bytes) (now : ℕ) (r : IgnorePolicyRevision)
      (current : Option IgnorePolicyRevision)
      → IsHistory db task
      → has_task db task ≡ true
      → newest (history db task) ≡ current
      → import_rules blake3 db task rules now current ≡ ok (r, next)
      → Holds next task rules r
  unfolding import_rules
  import_rules-Holds db next task rules now r none v known e h =
      recorded-Holds db next task rules manual now r v h
  import_rules-Holds db next task rules now r (some current) v known e h =
      elim (Bool-cases (
        not (bytes_eq current.content_hash (hash_rules blake3 rules))
        || not (bytes_eq current.content rules))) [
          | inl changed ↦ recorded-Holds db next task rules manual now r v (rw changed at h)
          | inr same ↦
              let (content, hash) = unchanged current rules same in
              let (r_eq, db_eq) = answer_inj (current, db) (r, next) (rw same at h) in
              subst (λ d. Holds d task rules r) db_eq
                (subst (Holds db task rules) r_eq (v, e, content, hash, known))
        ]

  -- The checks of Synchronize have passed when it goes on.
  synchronize-checked :
      (db : Database) (task : Bytes) (now : ℕ) (e f : Error) (found : Option TaskDefinition)
      → forbid (empty? task || now == 0) e ≡ ok tt
      → find_task db task ≡ ok found
      → forbid (not (has_value found)) f ≡ ok tt
      → Ready db task
  unfolding find_task has_task
  synchronize-checked db task now e f found named looked there =
      let filled = named_ok (empty? task) (now == 0) e named in
      (
        filled,
        sym (has_value-find_if (λ t. bytes_eq t.task_id task) db.tasks)
            ∙ ap has_value (answer_of db task found filled looked)
            ∙ not_forbidden (has_value found) f there,
      )

  pub synchronize-InStep :
      (db next : Database) (task : Bytes) (disk : Option Bytes) (now : ℕ)
      (state : IgnorePolicyState)
      → IsHistory db task
      → synchronize blake3 db task disk now ≡ ok (state, next)
      → (r : IgnorePolicyRevision) × (rules : Bytes) × (state ≡ state_of r)
        × Ready next task
        × InStep next task disk r rules
  unfolding synchronize
  synchronize-InStep db next task disk now state v h =
      bind_cases (forbid (empty? task || now == 0) identity_required) _ h λ _ named h1.
        bind_cases (find_task db task) _ h1 λ found looked h2.
          bind_cases (forbid (not (has_value found)) task_missing) _ h2 λ _ there h3.
            bind_cases (read_rules disk) _ h3 λ rules read h4.
              bind_cases (current_ignore_policy_revision db task) _ h4 λ current pointed h5.
                bind_cases (import_rules blake3 db task rules now current) _ h5
                  λ (r, last) imported made.
                    let ready =
                      synchronize-checked db task now identity_required task_missing found named
                        looked there in
                    let current_eq = answer_eq (sym (current_newest db task ready.0 v) ∙ pointed) in
                    let (vl, new, content, hash, known) =
                      import_rules-Holds db last task rules now r current v ready.1 current_eq
                        imported in
                    let (state_eq, db_eq) = answer_inj (state_of r, last) (state, next) made in
                    (
                      r,
                      rules,
                      sym state_eq,
                      subst (λ d. Ready d task) db_eq (ready.0, known),
                      subst (λ d. InStep d task disk r rules) db_eq (vl, new, content, hash, read),
                    )
