-- ===== src/Storage/Conflicts/Laws.antt =====
-- UpdateConflictState against ListConflicts of engine/storage/database.cpp.
use veritas_sync_next.Prelude.{
  map, bytes_eq, ◌≡◌, refl, sym, ap, subst, ◌∙◌, Bytes, ok, List, [], ◌∷◌, if◌then◌else◌, empty?,
  ◌>>=◌, Bool-cases, inl, inr, keep_if, keep_if_hit, keep_if_miss, sort_by, insert_by, arith,
}
use veritas_sync_next.Storage.Tables.{ConflictRecord, Database}
use veritas_sync_next.Storage.Conflicts.{
  has_conflict_id, in_conflict, conflict_before, mark, list_conflicts, update_conflict_state,
}

module _ (conflict_id state : Bytes) where
  abbrev marked : ConflictRecord → ConflictRecord
  marked c = if has_conflict_id conflict_id c then record c { state = state } else c

  -- A mark changes neither the task of a conflict nor its place in the order.
  task_id-marked : (c : ConflictRecord) → (marked c).task_id ≡ c.task_id
  task_id-marked c = elim (Bool-cases (has_conflict_id conflict_id c)) [
    | inl h ↦ rw h refl
    | inr h ↦ rw h refl
  ]

  conflict_before-marked :
      (a b : ConflictRecord) → conflict_before (marked a) (marked b) ≡ conflict_before a b
  conflict_before-marked a b = elim (Bool-cases (has_conflict_id conflict_id a)) [
    | inl h ↦ elim (Bool-cases (has_conflict_id conflict_id b)) [
      | inl k ↦ rw (h, k) refl
      | inr k ↦ rw (h, k) refl
    ]
    | inr h ↦ elim (Bool-cases (has_conflict_id conflict_id b)) [
      | inl k ↦ rw (h, k) refl
      | inr k ↦ rw (h, k) refl
    ]
  ]

  mark-map : (cs : List ConflictRecord) → mark conflict_id state cs ≡ map marked cs
  unfolding mark
  mark-map [] = refl
  mark-map (c ∷ cs) = ap (◌∷◌ (marked c)) (mark-map cs)

  mark-keep_if :
      (task_id : Bytes) (cs : List ConflictRecord)
      → keep_if (in_conflict task_id) (mark conflict_id state cs)
        ≡ mark conflict_id state (keep_if (in_conflict task_id) cs)
  unfolding mark
  mark-keep_if task_id [] = refl
  mark-keep_if task_id (c ∷ cs) =
      let same = ap (λ k. bytes_eq k task_id) (task_id-marked c) in
      elim (Bool-cases (in_conflict task_id c)) [
        | inl h ↦
            keep_if_hit (in_conflict task_id) (marked c) (mark conflict_id state cs) (same ∙ h)
            ∙ ap (◌∷◌ (marked c)) (mark-keep_if task_id cs)
            ∙ sym (ap (mark conflict_id state) (keep_if_hit (in_conflict task_id) c cs h))
        | inr h ↦
            keep_if_miss (in_conflict task_id) (marked c) (mark conflict_id state cs) (same ∙ h)
            ∙ mark-keep_if task_id cs
            ∙ sym (ap (mark conflict_id state) (keep_if_miss (in_conflict task_id) c cs h))
      ]

  mark-insert_by :
      (c : ConflictRecord) (cs : List ConflictRecord)
      → insert_by conflict_before (marked c) (mark conflict_id state cs)
        ≡ mark conflict_id state (insert_by conflict_before c cs)
  unfolding mark insert_by
  mark-insert_by c [] = refl
  mark-insert_by c (d ∷ cs) = elim (Bool-cases (conflict_before c d)) [
    | inl h ↦ rw (conflict_before-marked c d, h) refl
    | inr h ↦ rw (conflict_before-marked c d, h) (ap (◌∷◌ (marked d)) (mark-insert_by c cs))
  ]

  mark-sort_by :
      (cs : List ConflictRecord)
      → sort_by conflict_before (mark conflict_id state cs)
        ≡ mark conflict_id state (sort_by conflict_before cs)
  unfolding mark sort_by
  mark-sort_by [] = refl
  mark-sort_by (c ∷ cs) =
      ap (insert_by conflict_before (marked c)) (mark-sort_by cs)
      ∙ mark-insert_by c (sort_by conflict_before cs)

update_conflict_state_ok :
    (db next : Database) (conflict_id state : Bytes)
    → update_conflict_state db conflict_id state ≡ ok next
    → next ≡ record db { conflicts = mark conflict_id state db.conflicts }
unfolding update_conflict_state
update_conflict_state_ok db next conflict_id state h = ground (arith, h)

-- After UpdateConflictState answers, the list of any task's conflicts is the list from before, in
-- the same order, with the new state on the conflict that the call names and on no other; an empty
-- task id is the same error as before.
pub list_conflicts-update_conflict_state :
    (db next : Database) (conflict_id state task_id : Bytes)
    → update_conflict_state db conflict_id state ≡ ok next
    → list_conflicts next task_id ≡ (
        list_conflicts db task_id >>= λ cs. ok (
          map
            (λ c. if bytes_eq c.conflict_id conflict_id then record c { state = state } else c)
            cs))
unfolding list_conflicts
list_conflicts-update_conflict_state db next conflict_id state task_id h =
    let shown : List ConflictRecord → List ConflictRecord = map (marked conflict_id state) in
    subst (λ n. list_conflicts n task_id ≡ (list_conflicts db task_id >>= λ cs. ok (shown cs)))
      (sym (update_conflict_state_ok db next conflict_id state h))
      (elim (Bool-cases (empty? task_id)) [
        | inl none_given ↦ rw none_given refl
        | inr named ↦ rw named (
            ap ok (
              ap (sort_by conflict_before) (mark-keep_if conflict_id state task_id db.conflicts)
              ∙ mark-sort_by conflict_id state (keep_if (in_conflict task_id) db.conflicts)
              ∙ mark-map conflict_id state
                  (sort_by conflict_before (keep_if (in_conflict task_id) db.conflicts))))
      ])
