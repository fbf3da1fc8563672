-- ===== src/Prelude/ByteStrings.antt =====
-- Byte strings: std::string, std::vector<uint8_t> and fixed arrays are lists of numbers below 256.
use Prim.Native.Nat.{ℕ}
use mathlib.Core.Path.{◌≡◌, refl}
use mathlib.Core.Logic.{◌↔◌, inl, inr}
use mathlib.Core.Bool.{Bool, true, false, ◌&&◌}
use mathlib.Core.List.{List, [], ◌∷◌}
use native.Mathlib.Omega.{arith}
use veritas_sync_next.Prelude.Tests.{Bool-cases, ltb, ◌==◌, if◌then◌else◌}

abbrev pub Bytes : Type 0
Bytes = List ℕ

-- operator== of two byte strings.
unfoldable pub bytes_eq : Bytes → Bytes → Bool
bytes_eq [] [] = true
bytes_eq [] (y ∷ ys) = false
bytes_eq (x ∷ xs) [] = false
bytes_eq (x ∷ xs) (y ∷ ys) = x == y && bytes_eq xs ys

-- operator< of two byte strings: lexicographic on unsigned bytes.
unfoldable pub bytes_lt : Bytes → Bytes → Bool
bytes_lt [] [] = false
bytes_lt [] (y ∷ ys) = true
bytes_lt (x ∷ xs) [] = false
bytes_lt (x ∷ xs) (y ∷ ys) =
    let rest = bytes_lt xs ys in if ltb x y then true else if ltb y x then false else rest

pub bytes_eq_refl : (xs : Bytes) → bytes_eq xs xs ≡ true
unfolding bytes_eq
bytes_eq_refl [] = refl
bytes_eq_refl (x ∷ xs) = ground (arith, bytes_eq_refl xs)

pub bytes_eq→eq : (xs ys : Bytes) → bytes_eq xs ys ≡ true → xs ≡ ys
unfolding bytes_eq
bytes_eq→eq [] [] h = refl
bytes_eq→eq [] (y ∷ ys) h = cc
bytes_eq→eq (x ∷ xs) [] h = cc
bytes_eq→eq (x ∷ xs) (y ∷ ys) h = ground (arith, bytes_eq→eq xs ys)

pub bytes_eq_iff : (xs ys : Bytes) → (bytes_eq xs ys ≡ true) ↔ (xs ≡ ys)
bytes_eq_iff xs ys = (bytes_eq→eq xs ys, λ e. rw (← e) (bytes_eq_refl xs))

pub bytes_lt_refl : (xs : Bytes) → bytes_lt xs xs ≡ false
unfolding bytes_lt
bytes_lt_refl [] = refl
bytes_lt_refl (x ∷ xs) = ground (arith, bytes_lt_refl xs)

pub bytes_lt_trans :
    (xs ys zs : Bytes) → bytes_lt xs ys ≡ true → bytes_lt ys zs ≡ true → bytes_lt xs zs ≡ true
unfolding bytes_lt
bytes_lt_trans [] [] zs h g = absurd (cc h)
bytes_lt_trans (x ∷ xs) [] zs h g = cc h
bytes_lt_trans xs (y ∷ ys) [] h g = cc g
bytes_lt_trans [] (y ∷ ys) (z ∷ zs) h g = refl
bytes_lt_trans (x ∷ xs) (y ∷ ys) (z ∷ zs) h g = ground (arith, h, g, bytes_lt_trans xs ys zs)

-- Of two byte strings neither of which is the smaller, both are the same.
pub bytes_lt_total :
    (xs ys : Bytes) → bytes_lt xs ys ≡ false → bytes_lt ys xs ≡ false → bytes_eq xs ys ≡ true
unfolding bytes_lt bytes_eq
bytes_lt_total [] [] h g = refl
bytes_lt_total [] (y ∷ ys) h g = cc h
bytes_lt_total (x ∷ xs) [] h g = cc g
bytes_lt_total (x ∷ xs) (y ∷ ys) h g = ground (arith, h, g, bytes_lt_total xs ys)

pub bytes_lt→ne : (xs ys : Bytes) → bytes_lt xs ys ≡ true → bytes_eq xs ys ≡ false
bytes_lt→ne xs ys h = elim (Bool-cases (bytes_eq xs ys)) [
  | inl same ↦ cc (h, bytes_lt_refl xs, bytes_eq→eq xs ys same)
  | inr other ↦ other
]

pub bytes_lt→ne_sym : (xs ys : Bytes) → bytes_lt xs ys ≡ true → bytes_eq ys xs ≡ false
bytes_lt→ne_sym xs ys h = elim (Bool-cases (bytes_eq ys xs)) [
  | inl same ↦ cc (h, bytes_lt_refl xs, bytes_eq→eq ys xs same)
  | inr other ↦ other
]

pub bytes_lt_asym : (xs ys : Bytes) → bytes_lt xs ys ≡ true → bytes_lt ys xs ≡ false
bytes_lt_asym xs ys h = elim (Bool-cases (bytes_lt ys xs)) [
  | inl back ↦ absurd (cc (bytes_lt_trans xs ys xs h back, bytes_lt_refl xs))
  | inr fresh ↦ fresh
]

pub bytes_eq_sym : (xs ys : Bytes) → bytes_eq xs ys ≡ bytes_eq ys xs
unfolding bytes_eq
bytes_eq_sym [] [] = refl
bytes_eq_sym [] (y ∷ ys) = refl
bytes_eq_sym (x ∷ xs) [] = refl
bytes_eq_sym (x ∷ xs) (y ∷ ys) = ground (arith, bytes_eq_sym xs ys)
