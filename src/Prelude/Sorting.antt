-- ===== src/Prelude/Sorting.antt =====
-- std::ranges::sort as a stable insertion sort by a strict Boolean order.
use mathlib.Core.Path.{◌≡◌, refl, ◌∙◌, ap}
use mathlib.Core.Logic.{inl, inr}
use mathlib.Core.Bool.{false, ◌&&◌, Bool, true, ◌||◌, not}
use mathlib.Core.List.{List, [], ◌∷◌}
use native.Mathlib.Omega.{arith}
use veritas_sync_next.Prelude.Tests.{and_true, Bool-cases, if◌then◌else◌}
use veritas_sync_next.Prelude.Lists.{any_of, All}

module _ {ℓ} {A : Type ℓ} where
  unfoldable pub insert_by : (A → A → Bool) → A → List A → List A
  insert_by less x [] = x ∷ []
  insert_by less x (y ∷ ys) = if less x y then x ∷ (y ∷ ys) else y ∷ insert_by less x ys

  unfoldable pub sort_by : (A → A → Bool) → List A → List A
  sort_by less [] = []
  sort_by less (x ∷ xs) = insert_by less x (sort_by less xs)

  -- std::ranges::is_sorted
  unfoldable pub is_sorted : (A → A → Bool) → List A → Bool
  is_sorted less [] = true
  is_sorted less (x ∷ []) = true
  is_sorted less (x ∷ y ∷ ys) = not (less y x) && is_sorted less (y ∷ ys)

  pub any_of-insert_by :
      (less : A → A → Bool) (p : A → Bool) (x : A) (xs : List A)
      → any_of p (insert_by less x xs) ≡ (p x || any_of p xs)
  unfolding insert_by
  any_of-insert_by less p x [] = refl
  any_of-insert_by less p x (y ∷ ys) = ground (arith, any_of-insert_by less p x ys)

  -- Sorting keeps what is there.
  pub any_of-sort_by :
      (less : A → A → Bool) (p : A → Bool) (xs : List A) → any_of p (sort_by less xs) ≡ any_of p xs
  unfolding sort_by
  any_of-sort_by less p [] = refl
  any_of-sort_by less p (x ∷ xs) =
      any_of-insert_by less p x (sort_by less xs) ∙ ap (◌||◌ (p x)) (any_of-sort_by less p xs)

  pub All-insert_by {κ} :
      (less : A → A → Bool) (P : A → Type κ) (x : A) (xs : List A)
      → P x
      → All P xs
      → All P (insert_by less x xs)
  unfolding insert_by
  All-insert_by less P x [] px h = (px, tt)
  All-insert_by less P x (y ∷ ys) px h = elim (Bool-cases (less x y)) [
    | inl before ↦ rw before (px, h)
    | inr after ↦ rw after (h.0, All-insert_by less P x ys px h.1)
  ]

  pub All-sort_by {κ} :
      (less : A → A → Bool) (P : A → Type κ) (xs : List A) → All P xs → All P (sort_by less xs)
  unfolding sort_by
  All-sort_by less P [] h = tt
  All-sort_by less P (x ∷ xs) h =
      All-insert_by less P x (sort_by less xs) h.0 (All-sort_by less P xs h.1)

  is_sorted-insert_after :
      (less : A → A → Bool) (y x : A) (ys : List A)
      → ((a b : A) → less a b ≡ true → less b a ≡ false)
      → less x y ≡ false
      → is_sorted less (y ∷ ys) ≡ true
      → is_sorted less (y ∷ insert_by less x ys) ≡ true
  unfolding insert_by is_sorted
  is_sorted-insert_after less y x [] asym h sorted = rw h
  is_sorted-insert_after less y x (z ∷ zs) asym h sorted = elim (Bool-cases (less x z)) [
    | inl before ↦
        rw (before, h, asym x z before)
          (and_true (not (less z y)) (is_sorted less (z ∷ zs)) sorted).1
    | inr after ↦
        let (first, rest) = and_true (not (less z y)) (is_sorted less (z ∷ zs)) sorted in
        rw (after, first) (is_sorted-insert_after less z x zs asym after rest)
  ]

  is_sorted-insert_by :
      (less : A → A → Bool) (x : A) (xs : List A)
      → ((a b : A) → less a b ≡ true → less b a ≡ false)
      → is_sorted less xs ≡ true
      → is_sorted less (insert_by less x xs) ≡ true
  unfolding insert_by is_sorted
  is_sorted-insert_by less x [] asym h = refl
  is_sorted-insert_by less x (y ∷ ys) asym h = elim (Bool-cases (less x y)) [
    | inl before ↦ rw (before, asym x y before) h
    | inr after ↦ rw after (is_sorted-insert_after less y x ys asym after h)
  ]

  pub is_sorted-sort_by :
      (less : A → A → Bool)
      → ((a b : A) → less a b ≡ true → less b a ≡ false)
      → (xs : List A) → is_sorted less (sort_by less xs) ≡ true
  unfolding sort_by is_sorted
  is_sorted-sort_by less asym [] = refl
  is_sorted-sort_by less asym (x ∷ xs) =
      is_sorted-insert_by less x (sort_by less xs) asym (is_sorted-sort_by less asym xs)
