-- ===== src/Prelude/Lists.antt =====
-- Lists measured and indexed by native numbers, under the library's names.
use Prim.Native.Nat.{ℕ, zero, suc, ◌+◌, ◌-◌, min}
use mathlib.Core.Path.{◌≡◌, refl, ap, sym, subst, ◌∙◌}
use mathlib.Core.Logic.{inl, inr}
use veritas_sync_next.Prelude.Tests.{Bool-cases}
use mathlib.Core.Bool.{Bool, true, false, ◌||◌}
use mathlib.Core.List.{List, [], ◌∷◌, ◌++◌}
use mathlib.Core.Option.{Option, none, some}
use native.Mathlib.Omega.{arith}

module _ {ℓ} {A : Type ℓ} where
  abbrev pub length : List A → ℕ
  length [] = 0
  length (x ∷ xs) = suc (length xs)

  abbrev pub empty? : List A → Bool
  empty? [] = true
  empty? (x ∷ xs) = false

  abbrev pub get_elem? : List A → ℕ → Option A
  get_elem? [] i = none
  get_elem? (x ∷ xs) zero = some x
  get_elem? (x ∷ xs) (suc i) = get_elem? xs i

  abbrev pub get_or : List A → ℕ → A → A
  get_or [] i d = d
  get_or (x ∷ xs) zero d = x
  get_or (x ∷ xs) (suc i) d = get_or xs i d

  -- A write out of bounds changes nothing.
  abbrev pub set : List A → ℕ → A → List A
  set [] i v = []
  set (x ∷ xs) zero v = v ∷ xs
  set (x ∷ xs) (suc i) v = x ∷ set xs i v

  abbrev pub take : ℕ → List A → List A
  take zero xs = []
  take (suc n) [] = []
  take (suc n) (x ∷ xs) = x ∷ take n xs

  abbrev pub drop : ℕ → List A → List A
  drop zero xs = xs
  drop (suc n) [] = []
  drop (suc n) (x ∷ xs) = drop n xs

  abbrev pub replicate : ℕ → A → List A
  replicate zero a = []
  replicate (suc n) a = a ∷ replicate n a

  -- std::ranges::any_of, std::ranges::find_if, and what std::remove_if leaves of the others.
  abbrev pub any_of : (A → Bool) → List A → Bool
  any_of p [] = false
  any_of p (x ∷ xs) = p x || any_of p xs

  abbrev pub find_if : (A → Bool) → List A → Option A
  find_if p [] = none
  find_if p (x ∷ xs) = elim (p x) [ true ↦ some x | false ↦ find_if p xs ]

  abbrev pub keep_if : (A → Bool) → List A → List A
  keep_if p [] = []
  keep_if p (x ∷ xs) = elim (p x) [ true ↦ x ∷ keep_if p xs | false ↦ keep_if p xs ]

  -- Every element has the property.
  abbrev pub All {κ} : (A → Type κ) → List A → Type κ
  All P [] = Unit
  All P (x ∷ xs) = P x × All P xs

module _ {ℓ} {A : Type ℓ} where
  some_inj : {a b : A} → some a ≡ some b → a ≡ b
  some_inj e = cc e

  pub length-append : (xs ys : List A) → length (xs ++ ys) ≡ length xs + length ys
  length-append [] ys = omega arith
  length-append (x ∷ xs) ys = omega (arith, length-append xs ys)

  pub take-append-drop : (n : ℕ) (xs : List A) → take n xs ++ drop n xs ≡ xs
  take-append-drop zero xs = refl
  take-append-drop (suc n) [] = refl
  take-append-drop (suc n) (x ∷ xs) = rw (take-append-drop n xs)

  pub length-take : (n : ℕ) (xs : List A) → length (take n xs) ≡ min n (length xs)
  length-take zero xs = omega arith
  length-take (suc n) [] = omega arith
  length-take (suc n) (x ∷ xs) = omega (arith, length-take n xs)

  pub length-drop : (n : ℕ) (xs : List A) → length (drop n xs) ≡ length xs - n
  length-drop zero xs = omega arith
  length-drop (suc n) [] = omega arith
  length-drop (suc n) (x ∷ xs) = omega (arith, length-drop n xs)

  pub length-replicate : (n : ℕ) (a : A) → length (replicate n a) ≡ n
  length-replicate zero a = refl
  length-replicate (suc n) a = ap suc (length-replicate n a)

  -- A prefix of known length is what `take` takes, and `drop` leaves the rest.
  pub take-append : (n : ℕ) (xs ys : List A) → length xs ≡ n → take n (xs ++ ys) ≡ xs
  take-append zero [] ys h = refl
  take-append zero (x ∷ xs) ys h = absurd (omega arith)
  take-append (suc n) [] ys h = absurd (omega arith)
  take-append (suc n) (x ∷ xs) ys h = rw (take-append n xs ys (omega arith))

  pub drop-append : (n : ℕ) (xs ys : List A) → length xs ≡ n → drop n (xs ++ ys) ≡ ys
  drop-append zero [] ys h = refl
  drop-append zero (x ∷ xs) ys h = absurd (omega arith)
  drop-append (suc n) [] ys h = absurd (omega arith)
  drop-append (suc n) (x ∷ xs) ys h = drop-append n xs ys (omega arith)

  pub length-set : (xs : List A) (i : ℕ) (v : A) → length (set xs i v) ≡ length xs
  length-set [] i v = refl
  length-set (x ∷ xs) zero v = refl
  length-set (x ∷ xs) (suc i) v = ap suc (length-set xs i v)

  pub All-append {κ} : (P : A → Type κ) (xs ys : List A) → All P xs → All P ys → All P (xs ++ ys)
  All-append P [] ys hx hy = hy
  All-append P (x ∷ xs) ys hx hy = (hx.0, All-append P xs ys hx.1 hy)

  pub find_if_hit : (p : A → Bool) (x : A) (xs : List A) → p x ≡ true → find_if p (x ∷ xs) ≡ some x
  find_if_hit p x xs h = rw (h, find_if)

  pub find_if_miss :
      (p : A → Bool) (x : A) (xs : List A) → p x ≡ false → find_if p (x ∷ xs) ≡ find_if p xs
  find_if_miss p x xs h = rw (h, find_if)

  pub find_if-append_some :
      (p : A → Bool) (xs ys : List A) (a : A)
      → find_if p xs ≡ some a
      → find_if p (xs ++ ys) ≡ some a
  find_if-append_some p [] ys a h = cc h
  find_if-append_some p (x ∷ xs) ys a h = elim (Bool-cases (p x)) [
    | inl hit ↦ find_if_hit p x (xs ++ ys) hit ∙ sym (find_if_hit p x xs hit) ∙ h
    | inr miss ↦
        find_if_miss p x (xs ++ ys) miss
        ∙ find_if-append_some p xs ys a (sym (find_if_miss p x xs miss) ∙ h)
  ]

  pub find_if-append_none :
      (p : A → Bool) (xs ys : List A) → find_if p xs ≡ none → find_if p (xs ++ ys) ≡ find_if p ys
  find_if-append_none p [] ys h = refl
  find_if-append_none p (x ∷ xs) ys h = elim (Bool-cases (p x)) [
    | inl hit ↦ cc (find_if_hit p x xs hit, h)
    | inr miss ↦
        find_if_miss p x (xs ++ ys) miss
        ∙ find_if-append_none p xs ys (sym (find_if_miss p x xs miss) ∙ h)
  ]

  pub keep_if_hit :
      (p : A → Bool) (x : A) (xs : List A) → p x ≡ true → keep_if p (x ∷ xs) ≡ x ∷ keep_if p xs
  keep_if_hit p x xs h = rw (h, keep_if)

  pub keep_if_miss :
      (p : A → Bool) (x : A) (xs : List A) → p x ≡ false → keep_if p (x ∷ xs) ≡ keep_if p xs
  keep_if_miss p x xs h = rw (h, keep_if)

  pub any_of-implies :
      (p q : A → Bool)
      → ((x : A) → p x ≡ true → q x ≡ true)
      → (xs : List A) → any_of p xs ≡ true
      → any_of q xs ≡ true
  any_of-implies p q imp [] h = h
  any_of-implies p q imp (x ∷ xs) h = ground (arith, imp x, any_of-implies p q imp xs)

  pub find_if-holds : (p : A → Bool) (xs : List A) (a : A) → find_if p xs ≡ some a → p a ≡ true
  find_if-holds p [] a h = absurd (cc h)
  find_if-holds p (x ∷ xs) a h = elim (Bool-cases (p x)) [
    | inl hit ↦ subst (λ y. p y ≡ true) (some_inj (sym (find_if_hit p x xs hit) ∙ h)) hit
    | inr miss ↦ find_if-holds p xs a (sym (find_if_miss p x xs miss) ∙ h)
  ]
