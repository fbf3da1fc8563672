-- ===== src/Storage/Policies/Laws.antt =====
-- The history of a task's ignore policy in engine/storage/database.cpp.
use veritas_sync_next.Prelude.{
  find_if-holds, subst, Option-cases, ℕ, ◌+◌, ◌≤◌, ◌<◌, ◌≡◌, refl, sym, ap, ◌∙◌, Bool, true, false,
  ◌&&◌, Bytes, ok, List, [], ◌∷◌, Option, none, some, empty?, bytes_eq, bytes_eq_refl, bytes_eq→eq,
  ◌==◌, ==_refl, max, sort_by, insert_by, keep_if, keep_if_hit, keep_if_miss, find_if, find_if_hit,
  find_if_miss, All, Bool-cases, inl, inr, arith,
}
use veritas_sync_next.Storage.Tables.{IgnorePolicyRevision, IgnorePolicyPointer, Database, has_task}
use veritas_sync_next.Storage.Policies.{
  of_task, max_revision, point_to, record_ignore_policy_revision, newer, pointer_of, joined,
  pointer, pointer_of, next_revision, with_revision,
}

abbrev row_of : Bytes → IgnorePolicyPointer → Bool
row_of task q = bytes_eq q.task_id task

find-point_to_self :
    (p : IgnorePolicyPointer) (qs : List IgnorePolicyPointer)
    → find_if (row_of p.task_id) (point_to p qs) ≡ some p
unfolding point_to
find-point_to_self p [] = find_if_hit (row_of p.task_id) p [] (bytes_eq_refl p.task_id)
find-point_to_self p (q ∷ qs) = elim (Bool-cases (bytes_eq q.task_id p.task_id)) [
  | inl same ↦ rw same (find_if_hit (row_of p.task_id) p qs (bytes_eq_refl p.task_id))
  | inr other ↦
      rw other (find_if_miss (row_of p.task_id) q (point_to p qs) other ∙ find-point_to_self p qs)
]

-- The pointers of other tasks stay.
find-point_to_other :
    (p : IgnorePolicyPointer) (task : Bytes) (qs : List IgnorePolicyPointer)
    → bytes_eq p.task_id task ≡ false
    → find_if (row_of task) (point_to p qs) ≡ find_if (row_of task) qs
unfolding point_to
find-point_to_other p task [] h = find_if_miss (row_of task) p [] h
find-point_to_other p task (q ∷ qs) h = elim (Bool-cases (bytes_eq q.task_id p.task_id)) [
  | inl same ↦ rw same (
      find_if_miss (row_of task) p qs h
      ∙ sym
          (find_if_miss (row_of task) q qs (ap (λ x. bytes_eq x task) (bytes_eq→eq _ _ same) ∙ h)))
  | inr other ↦ rw other (elim (Bool-cases (bytes_eq q.task_id task)) [
    | inl found ↦
        find_if_hit (row_of task) q (point_to p qs) found
        ∙ sym (find_if_hit (row_of task) q qs found)
    | inr missed ↦
        find_if_miss (row_of task) q (point_to p qs) missed
        ∙ find-point_to_other p task qs h
        ∙ sym (find_if_miss (row_of task) q qs missed)
  ])
]

-- What a call that records has done.
pub record_ignore_policy_revision_ok :
    (db next : Database) (task content hash source : Bytes) (time : ℕ) (r : IgnorePolicyRevision)
    → record_ignore_policy_revision db task content hash source time ≡ ok (r, next)
    → (r ≡ next_revision db task content hash source time)
      × (next ≡ with_revision db (next_revision db task content hash source time))
      × (empty? task ≡ false)
      × (has_task db task ≡ true)
unfolding record_ignore_policy_revision
record_ignore_policy_revision_ok db next task content hash source time r h = ground (arith, h)

abbrev pub history : Database → Bytes → List IgnorePolicyRevision
history db task = keep_if (of_task task) db.ignore_policy_revisions

-- The rows of a task, the newest first.
abbrev pub Descending : List IgnorePolicyRevision → Type 0
Descending [] = Unit
Descending (r ∷ rs) = All (λ q. q.revision < r.revision) rs × Descending rs

abbrev pub newest : List IgnorePolicyRevision → Option IgnorePolicyRevision
newest [] = none
newest (r ∷ rs) = some r

-- The rows of a task have different revisions, and the current one is the newest.
abbrev pub IsHistory : Database → Bytes → Type 0
IsHistory db task =
    Descending (history db task)
    × (joined db.ignore_policy_revisions (pointer db task) ≡ newest (history db task))

insert-newer :
    (r : IgnorePolicyRevision) (rs : List IgnorePolicyRevision)
    → All (λ q. q.revision < r.revision) rs
    → insert_by newer r rs ≡ r ∷ rs
unfolding insert_by
insert-newer r [] h = refl
insert-newer r (q ∷ rs) h = ground (arith, h.0)

pub sort_by-newer : (rows : List IgnorePolicyRevision) → Descending rows → sort_by newer rows ≡ rows
unfolding sort_by
sort_by-newer [] d = refl
sort_by-newer (r ∷ rs) d = ap (insert_by newer r) (sort_by-newer rs d.1) ∙ insert-newer r rs d.0

All-below :
    (low high : ℕ) (rows : List IgnorePolicyRevision)
    → low ≤ high
    → All (λ q. q.revision < low) rows
    → All (λ q. q.revision < high) rows
All-below low high [] b h = tt
All-below low high (r ∷ rs) b h = (omega (arith, h.0), All-below low high rs b h.1)

max_revision-All :
    (rows : List IgnorePolicyRevision) → All (λ q. q.revision < max_revision rows + 1) rows
unfolding max_revision
max_revision-All [] = tt
max_revision-All (r ∷ rs) = (
  omega arith,
  All-below (max_revision rs + 1) (max r.revision (max_revision rs) + 1) rs (omega arith)
      (max_revision-All rs),
)

and_left_false : {a : Bool} (b : Bool) → a ≡ false → (a && b) ≡ false
and_left_false b e = ground arith

history_self :
    (db : Database) (r : IgnorePolicyRevision)
    → history (with_revision db r) r.task_id ≡ r ∷ history db r.task_id
history_self db r =
    keep_if_hit (of_task r.task_id) r db.ignore_policy_revisions (bytes_eq_refl r.task_id)

joined_self :
    (db : Database) (r : IgnorePolicyRevision)
    → joined (r ∷ db.ignore_policy_revisions) (pointer (with_revision db r) r.task_id) ≡ some r
joined_self db r =
    ap (joined (r ∷ db.ignore_policy_revisions))
      (find-point_to_self (pointer_of r) db.ignore_policy_state)
    ∙ find_if_hit (λ q. of_task r.task_id q && q.revision == r.revision) r
        db.ignore_policy_revisions (rw (bytes_eq_refl r.task_id) (==_refl r.revision))

with_revision-IsHistory_self :
    (db : Database) (r : IgnorePolicyRevision)
    → All (λ q. q.revision < r.revision) (history db r.task_id)
    → IsHistory db r.task_id
    → IsHistory (with_revision db r) r.task_id
with_revision-IsHistory_self db r above v = (
  subst Descending (sym (history_self db r)) (above, v.0),
  joined_self db r ∙ sym (ap newest (history_self db r)),
)

joined-other :
    (r : IgnorePolicyRevision) (task : Bytes) (rows : List IgnorePolicyRevision)
    (p : IgnorePolicyPointer)
    → bytes_eq r.task_id task ≡ false
    → bytes_eq p.task_id task ≡ true
    → joined (r ∷ rows) (some p) ≡ joined rows (some p)
joined-other r task rows p h e =
    find_if_miss (λ q. of_task p.task_id q && q.revision == p.revision) r rows
      (and_left_false (r.revision == p.revision)
        (ap (bytes_eq r.task_id) (bytes_eq→eq p.task_id task e) ∙ h))

joined-others :
    (r : IgnorePolicyRevision) (task : Bytes) (rows : List IgnorePolicyRevision)
    (qs : List IgnorePolicyPointer)
    → bytes_eq r.task_id task ≡ false
    → joined (r ∷ rows) (find_if (row_of task) qs) ≡ joined rows (find_if (row_of task) qs)
joined-others r task rows qs h = elim (Option-cases (find_if (row_of task) qs)) [
  | inl nothing ↦ ap (joined (r ∷ rows)) nothing ∙ sym (ap (joined rows) nothing)
  | inr (p, e) ↦
      ap (joined (r ∷ rows)) e
      ∙ joined-other r task rows p h (find_if-holds (row_of task) qs p e)
      ∙ sym (ap (joined rows) e)
]

with_revision-IsHistory_other :
    (db : Database) (r : IgnorePolicyRevision) (task : Bytes)
    → bytes_eq r.task_id task ≡ false
    → IsHistory db task
    → IsHistory (with_revision db r) task
with_revision-IsHistory_other db r task h v =
    let same = keep_if_miss (of_task task) r db.ignore_policy_revisions h in
    (
      subst Descending (sym same) v.0,
      ap (joined (r ∷ db.ignore_policy_revisions))
            (find-point_to_other (pointer_of r) task db.ignore_policy_state h)
          ∙ joined-others r task db.ignore_policy_revisions db.ignore_policy_state h
          ∙ v.1
          ∙ sym (ap newest same),
    )

-- Recording a revision keeps the history of every task in order, with its newest row as the current
-- one.
pub IsHistory-record_ignore_policy_revision :
    (db next : Database) (task content hash source : Bytes) (time : ℕ) (r : IgnorePolicyRevision)
    → record_ignore_policy_revision db task content hash source time ≡ ok (r, next)
    → (other : Bytes) → IsHistory db other
    → IsHistory next other
IsHistory-record_ignore_policy_revision db next task content hash source time r h other v =
    let (_, same, _, _) =
      record_ignore_policy_revision_ok db next task content hash source time r h in
    let fresh = next_revision db task content hash source time in
    subst (λ x. IsHistory x other) (sym same)
      (elim (Bool-cases (bytes_eq task other)) [
        | inl own ↦ subst (IsHistory (with_revision db fresh)) (bytes_eq→eq task other own) (
            with_revision-IsHistory_self db fresh (max_revision-All (history db task))
              (subst (IsHistory db) (sym (bytes_eq→eq task other own)) v))
        | inr foreign ↦ with_revision-IsHistory_other db fresh other foreign v
      ])

-- What recording a revision leaves for its task: the new row in front of the others.
pub history-record_ignore_policy_revision :
    (db next : Database) (task content hash source : Bytes) (time : ℕ) (r : IgnorePolicyRevision)
    → record_ignore_policy_revision db task content hash source time ≡ ok (r, next)
    → (history next task ≡ r ∷ history db task)
      × (r.content ≡ content)
      × (r.content_hash ≡ hash)
      × (has_task next task ≡ true)
unfolding has_task
history-record_ignore_policy_revision db next task content hash source time r h =
    let (own, same, named, known) =
      record_ignore_policy_revision_ok db next task content hash source time r h in
    let fresh = next_revision db task content hash source time in
    (
      ap (λ d. history d task) same
          ∙ history_self db fresh
          ∙ ap (λ q. q ∷ history db task) (sym own),
      ap (λ q. q.content) own,
      ap (λ q. q.content_hash) own,
      ap (λ d. has_task d task) same ∙ known,
    )
