-- ===== src/Storage/Ignore/Policy/Replace.antt =====
-- What Apply of engine/storage/ignore_policy.cpp leaves when the rules are new.
use veritas_sync_next.Prelude.{
  ℕ, ◌≡◌, refl, sym, ap, subst, ◌∙◌, false, not, Bytes, ok, List, [], ◌∷◌, Option, none, some,
  bytes_eq, ltb, forbid, length, arith, bind_to, bind_cases, invalid_argument,
}
use veritas_sync_next.Storage.Tables.{IgnorePolicyRevision, Database}
use veritas_sync_next.Storage.Policies.{record_ignore_policy_revision, known_source}
use veritas_sync_next.Storage.Policies.Laws.{
  IsHistory, history, newest, history-record_ignore_policy_revision,
}
use veritas_sync_next.Storage.Ignore.Validate.{validate, maximum_bytes}
use veritas_sync_next.Storage.Ignore.Policy.{
  IgnorePolicyState, state_of, read_rules, hash_rules, synchronize, replace_rules, apply,
}
use veritas_sync_next.Storage.Ignore.Policy.Checks.{Ready, answer_eq}
use veritas_sync_next.Storage.Ignore.Policy.Laws.{InStep, recorded-Holds, synchronize-InStep}

no_rules_valid : validate [] ≡ ok tt
unfolding validate
no_rules_valid = refl

pub read_rules-valid :
    (disk : Option Bytes) (rules : Bytes) → read_rules disk ≡ ok rules → validate rules ≡ ok tt
unfolding read_rules
read_rules-valid none rules h = subst (λ t. validate t ≡ ok tt) (cc h) no_rules_valid
read_rules-valid (some text) rules h =
    bind_cases (validate text) _ h λ _ valid same. subst (λ t. validate t ≡ ok tt) (cc same) valid

pub validate-short :
    (text : Bytes) → validate text ≡ ok tt → ltb maximum_bytes (length text) ≡ false
unfolding validate
validate-short text h =
    bind_cases
      (forbid (ltb maximum_bytes (length text)) (invalid_argument "ignore rules exceed 16 KiB")) _ h
      λ _ short rest. ground (arith, short)

first_of :
    (rows : List IgnorePolicyRevision) (r : IgnorePolicyRevision)
    → newest rows ≡ some r
    → (rest : List IgnorePolicyRevision) × (rows ≡ r ∷ rest)
first_of [] r h = absurd (cc h)
first_of (q ∷ rows) r h = (rows, ap (λ x. x ∷ rows) (cc h))

triple_inj {ℓ κ μ} :
    {A : Type ℓ} {B : Type κ} {C : Type μ} (p q : A × B × C)
    → ok p ≡ ok q
    → (p.0 ≡ q.0) × (p.1 ≡ q.1) × (p.2 ≡ q.2)
triple_inj p q e = ground (arith, e)

written : (rules : Bytes) → validate rules ≡ ok tt → read_rules (some rules) ≡ ok rules
unfolding read_rules
written rules valid = bind_to (validate rules) _ valid

module _ (blake3 : Bytes → Bytes) where
  -- What Apply has left when the rules were new: the new revision in front of the one before it.
  abbrev pub Replaced : Database → Bytes → Option Bytes → IgnorePolicyState → Bytes → Bytes → Type 0
  Replaced db task disk state rules old =
      (r : IgnorePolicyRevision) × (before : IgnorePolicyRevision) × (rest : List
        IgnorePolicyRevision)
      × (state ≡ state_of r)
      × Ready db task
      × InStep blake3 db task disk r rules
      × (history db task ≡ r ∷ before ∷ rest)
      × (before.content ≡ old)
      × (disk ≡ some rules)

  replace_rules-Replaced :
      (db next : Database) (task rules source : Bytes) (now : ℕ) (disk : Option Bytes)
      (state : IgnorePolicyState) (before : IgnorePolicyRevision)
      → Ready db task
      → IsHistory db task
      → newest (history db task) ≡ some before
      → validate rules ≡ ok tt
      → replace_rules blake3 db task rules source now none ≡ ok (state, next, disk)
      → Replaced next task disk state rules before.content
  unfolding replace_rules
  replace_rules-Replaced db next task rules source now disk state before ready v new valid h =
      bind_cases (record_ignore_policy_revision db task rules (hash_rules blake3 rules) source now)
        _ h
        λ (r, last) recorded made.
          let (rest, rows) = first_of (history db task) before new in
          let (vl, top, content, hash, known) =
            recorded-Holds blake3 db last task rules source now r v recorded in
          let (grown, _, _, _) =
            history-record_ignore_policy_revision db last task rules (hash_rules blake3 rules)
              source now r recorded in
          let (state_eq, db_eq, disk_eq) =
            triple_inj (state_of r, last, some rules) (state, next, disk) made in
          (
            r,
            before,
            rest,
            sym state_eq,
            subst (λ d. Ready d task) db_eq (ready.0, known),
            subst (λ d. InStep blake3 d task disk r rules) db_eq
                (
                  vl,
                  top,
                  content,
                  hash,
                  subst (λ x. read_rules x ≡ ok rules) disk_eq (written rules valid),
                ),
            ap (λ d. history d task) (sym db_eq) ∙ grown ∙ ap (◌∷◌ r) rows,
            refl,
            sym disk_eq,
          )

  -- An Apply that goes through with rules that differ from those of the file.
  pub apply-Replaced :
      (db next : Database) (task : Bytes) (disk after : Option Bytes)
      (expected rules source old : Bytes) (now : ℕ) (state : IgnorePolicyState)
      → IsHistory db task
      → read_rules disk ≡ ok old
      → bytes_eq rules old ≡ false
      → apply blake3 db task disk expected rules source now none ≡ ok (state, next, after)
      → Replaced next task after state rules old
  unfolding apply
  apply-Replaced db next task disk after expected rules source old now state v read differ h =
      bind_cases (validate rules) _ h λ _ valid h1.
        bind_cases
          (forbid (not (known_source source)) (invalid_argument "ignore policy source is invalid"))
          _ h1
          λ _ _ h2.
            bind_cases (synchronize blake3 db task disk now) _ h2
              λ (current, synced) synchronized h3.
                bind_cases
                  (forbid (not (bytes_eq expected current.content_hash))
                    (invalid_argument "ignore policy changed; refresh before applying"))
                  _ h3
                  λ _ _ h4.
                    let (r, found, state_eq, ready, step) =
                      synchronize-InStep blake3 db synced task disk now current v synchronized in
                    let (vs, new, content, _, read_again) = step in
                    let same = content ∙ answer_eq (sym read_again ∙ read) in
                    let differs =
                      ap (bytes_eq rules) (ap (λ q. q.rules) state_eq ∙ same) ∙ differ in
                    subst (Replaced next task after state rules) same (
                      replace_rules-Replaced synced next task rules source now after state r ready
                        vs new valid (rw differs at h4))
