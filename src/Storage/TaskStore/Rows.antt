-- ===== src/Storage/TaskStore/Rows.antt =====
-- The rows that a DELETE by task id leaves in a table of engine/storage/database.cpp.
use veritas_sync_next.Prelude.{
  ◌≡◌, refl, sym, ap, ◌∙◌, Bool, true, false, not, Bytes, List, [], ◌∷◌, map, bytes_eq, bytes_eq→eq,
  Bool-cases, inl, inr, keep_if, keep_if_hit, keep_if_miss, find_if, find_if_hit, find_if_miss,
  none,
}
use veritas_sync_next.Storage.TaskStore.{without}

module _ {ℓ} {A : Type ℓ} (key : A → Bytes) (gone : Bytes) where
  abbrev belongs : Bytes → A → Bool
  belongs task_id r = bytes_eq (key r) task_id

  abbrev stays : A → Bool
  stays r = not (bytes_eq (key r) gone)

  pub without_hit :
      (r : A) (rows : List A)
      → bytes_eq (key r) gone ≡ true
      → without key gone (r ∷ rows) ≡ without key gone rows
  without_hit r rows h = keep_if_miss stays r rows (ap not h)

  pub without_miss :
      (r : A) (rows : List A)
      → bytes_eq (key r) gone ≡ false
      → without key gone (r ∷ rows) ≡ r ∷ without key gone rows
  without_miss r rows h = keep_if_hit stays r rows (ap not h)

  -- None of the task's own rows is left.
  pub keep-without_self : (rows : List A) → keep_if (belongs gone) (without key gone rows) ≡ []
  keep-without_self [] = refl
  keep-without_self (r ∷ rows) = elim (Bool-cases (bytes_eq (key r) gone)) [
    | inl h ↦ ap (keep_if (belongs gone)) (without_hit r rows h) ∙ keep-without_self rows
    | inr h ↦
        ap (keep_if (belongs gone)) (without_miss r rows h)
        ∙ keep_if_miss (belongs gone) r (without key gone rows) h
        ∙ keep-without_self rows
  ]

  pub find-without_self : (rows : List A) → find_if (belongs gone) (without key gone rows) ≡ none
  find-without_self [] = refl
  find-without_self (r ∷ rows) = elim (Bool-cases (bytes_eq (key r) gone)) [
    | inl h ↦ ap (find_if (belongs gone)) (without_hit r rows h) ∙ find-without_self rows
    | inr h ↦
        ap (find_if (belongs gone)) (without_miss r rows h)
        ∙ find_if_miss (belongs gone) r (without key gone rows) h
        ∙ find-without_self rows
  ]

  module _ (task_id : Bytes) (other : bytes_eq gone task_id ≡ false) where
    not_theirs : (r : A) → bytes_eq (key r) gone ≡ true → belongs task_id r ≡ false
    not_theirs r h = ap (λ k. bytes_eq k task_id) (bytes_eq→eq _ _ h) ∙ other

    -- The rows of another task are all left.
    pub keep-without_other :
        (rows : List A)
        → keep_if (belongs task_id) (without key gone rows) ≡ keep_if (belongs task_id) rows
    keep-without_other [] = refl
    keep-without_other (r ∷ rows) = elim (Bool-cases (bytes_eq (key r) gone)) [
      | inl h ↦
          ap (keep_if (belongs task_id)) (without_hit r rows h)
          ∙ keep-without_other rows
          ∙ sym (keep_if_miss (belongs task_id) r rows (not_theirs r h))
      | inr h ↦
          ap (keep_if (belongs task_id)) (without_miss r rows h)
          ∙ elim (Bool-cases (belongs task_id r)) [
            | inl mine ↦
                keep_if_hit (belongs task_id) r (without key gone rows) mine
                ∙ ap (◌∷◌ r) (keep-without_other rows)
                ∙ sym (keep_if_hit (belongs task_id) r rows mine)
            | inr not_mine ↦
                keep_if_miss (belongs task_id) r (without key gone rows) not_mine
                ∙ keep-without_other rows
                ∙ sym (keep_if_miss (belongs task_id) r rows not_mine)
          ]
    ]

    pub find-without_other :
        (rows : List A)
        → find_if (belongs task_id) (without key gone rows) ≡ find_if (belongs task_id) rows
    find-without_other [] = refl
    find-without_other (r ∷ rows) = elim (Bool-cases (bytes_eq (key r) gone)) [
      | inl h ↦
          ap (find_if (belongs task_id)) (without_hit r rows h)
          ∙ find-without_other rows
          ∙ sym (find_if_miss (belongs task_id) r rows (not_theirs r h))
      | inr h ↦
          ap (find_if (belongs task_id)) (without_miss r rows h)
          ∙ elim (Bool-cases (belongs task_id r)) [
            | inl mine ↦
                find_if_hit (belongs task_id) r (without key gone rows) mine
                ∙ sym (find_if_hit (belongs task_id) r rows mine)
            | inr not_mine ↦
                find_if_miss (belongs task_id) r (without key gone rows) not_mine
                ∙ find-without_other rows
                ∙ sym (find_if_miss (belongs task_id) r rows not_mine)
          ]
    ]

  -- What is deleted is told by the keys alone.
  pub map-without :
      (rows : List A) → map key (without key gone rows) ≡ without (λ k. k) gone (map key rows)
  map-without [] = refl
  map-without (r ∷ rows) = elim (Bool-cases (bytes_eq (key r) gone)) [
    | inl h ↦
        ap (map key) (without_hit r rows h)
        ∙ map-without rows
        ∙ sym (keep_if_miss (λ k. not (bytes_eq k gone)) (key r) (map key rows) (ap not h))
    | inr h ↦
        ap (map key) (without_miss r rows h)
        ∙ ap (◌∷◌ (key r)) (map-without rows)
        ∙ sym (keep_if_hit (λ k. not (bytes_eq k gone)) (key r) (map key rows) (ap not h))
  ]
