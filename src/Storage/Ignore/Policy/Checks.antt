-- ===== src/Storage/Ignore/Policy/Checks.antt =====
-- The checks that Synchronize of engine/storage/ignore_policy.cpp makes first, and what it looks up.
use veritas_sync_next.Prelude.{
  find_if_miss, find_if_hit, any_of, ◌≡◌, refl, sym, ap, ◌∙◌, Bool, true, false, not, ◌||◌, Bytes,
  ok, Error, List, [], ◌∷◌, Option, empty?, bytes_eq, forbid, find_if, Bool-cases, inl, inr, arith,
  invalid_argument,
}
use veritas_sync_next.Storage.Tables.{TaskDefinition, Database, has_task}
use veritas_sync_next.Storage.Records.{has_value}
use veritas_sync_next.Storage.Tasks.{find_task}
use veritas_sync_next.Storage.Policies.{current_ignore_policy_revision}
use veritas_sync_next.Storage.Policies.Laws.{IsHistory, history, newest}

-- What the checks at the start of Synchronize ask.
abbrev pub Ready : Database → Bytes → Type 0
Ready db task = (empty? task ≡ false) × (has_task db task ≡ true)

pub has_value-find_if {ℓ} :
    {A : Type ℓ} (p : A → Bool) (xs : List A) → has_value (find_if p xs) ≡ any_of p xs
has_value-find_if p [] = refl
has_value-find_if p (x ∷ xs) = elim (Bool-cases (p x)) [
  | inl hit ↦ ap has_value (find_if_hit p x xs hit) ∙ sym (rw hit refl)
  | inr miss ↦ ap has_value (find_if_miss p x xs miss) ∙ has_value-find_if p xs ∙ sym (rw miss refl)
]

pub answer_inj {ℓ κ} :
    {A : Type ℓ} {B : Type κ} (p q : A × B) → ok p ≡ ok q → (p.0 ≡ q.0) × (p.1 ≡ q.1)
answer_inj p q e = ground (arith, e)

pub answer_eq {ℓ} : {A : Type ℓ} {a b : A} → ok a ≡ ok b → a ≡ b
answer_eq e = cc e

abbrev pub identity_required : Error
identity_required = invalid_argument "ignore policy identity and timestamp are required"

abbrev pub task_missing : Error
task_missing = invalid_argument "ignore policy task does not exist"

pub named_ok : (a b : Bool) (e : Error) → forbid (a || b) e ≡ ok tt → a ≡ false
named_ok true b e h = absurd (cc h)
named_ok false b e h = refl

pub not_forbidden : (b : Bool) (e : Error) → forbid (not b) e ≡ ok tt → b ≡ true
not_forbidden true e h = refl
not_forbidden false e h = absurd (cc h)

abbrev pub row : Database → Bytes → Option TaskDefinition
row db task = find_if (λ t. bytes_eq t.task_id task) db.tasks

pub find_task-Ready :
    (db : Database) (task : Bytes)
    → Ready db task
    → (find_task db task ≡ ok (row db task)) × (has_value (row db task) ≡ true)
unfolding find_task has_task
find_task-Ready db task (named, known) =
    (rw named refl, has_value-find_if (λ t. bytes_eq t.task_id task) db.tasks ∙ known)

pub answer_of :
    (db : Database) (task : Bytes) (found : Option TaskDefinition)
    → empty? task ≡ false
    → find_task db task ≡ ok found
    → row db task ≡ found
unfolding find_task
answer_of db task found named h = ground (arith, named, h)

pub current_newest :
    (db : Database) (task : Bytes)
    → empty? task ≡ false
    → IsHistory db task
    → current_ignore_policy_revision db task ≡ ok (newest (history db task))
unfolding current_ignore_policy_revision
current_newest db task named v = rw named (ap ok v.1)
