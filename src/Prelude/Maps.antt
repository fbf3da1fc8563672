-- ===== src/Prelude/Maps.antt =====
-- std::map and std::unordered_map as association lists, over keys with a Boolean equality.
use Prim.Native.Nat.{ℕ}
use mathlib.Core.Path.{◌≡◌, refl}
use mathlib.Core.Logic.{inl, inr}
use mathlib.Core.Bool.{Bool, true, false}
use mathlib.Core.Option.{Option, none, some}
use mathlib.Core.List.{List, [], ◌∷◌, ◌++◌}
use veritas_sync_next.Prelude.Tests.{◌==◌, if◌then◌else◌, ==_refl, ==→eq, Bool-cases}
use veritas_sync_next.Prelude.ByteStrings.{Bytes, bytes_eq, bytes_eq→eq, bytes_eq_refl}

pub record Key {ℓ} (K : Type ℓ) : Type ℓ where
  pub same : K → K → Bool
  pub same_refl : (a : K) → same a a ≡ true
  pub same_eq : (a b : K) → same a b ≡ true → a ≡ b

instance abbrev pub nat_key : Key ℕ
nat_key = record { same = λ a b. a == b; same_refl = ==_refl; same_eq = ==→eq }

instance abbrev pub bytes_key : Key Bytes
bytes_key = record { same = bytes_eq; same_refl = bytes_eq_refl; same_eq = bytes_eq→eq }

module _ {ℓ κ} {K : Type ℓ} {V : Type κ} ⦃e : Key K⦄ where
  unfoldable pub lookup : K → List (K × V) → Option V
  lookup k [] = none
  lookup k ((j, v) ∷ m) = if e.same j k then some v else lookup k m

  unfoldable pub assign : K → V → List (K × V) → List (K × V)
  assign k v [] = (k, v) ∷ []
  assign k v ((j, w) ∷ m) = if e.same j k then (k, v) ∷ m else (j, w) ∷ assign k v m

  unfoldable pub erase : K → List (K × V) → List (K × V)
  erase k [] = []
  erase k ((j, w) ∷ m) = if e.same j k then erase k m else (j, w) ∷ erase k m

  pub lookup-assign_self : (k : K) (v : V) (m : List (K × V)) → lookup k (assign k v m) ≡ some v
  unfolding lookup assign
  lookup-assign_self k v [] = rw (e.same_refl k)
  lookup-assign_self k v ((j, w) ∷ m) = elim (Bool-cases (e.same j k)) [
    | inl hit ↦ rw (hit, e.same_refl k)
    | inr miss ↦ rw (miss, miss) (lookup-assign_self k v m)
  ]

  pub lookup-assign_ne :
      (k j : K) (v : V) (m : List (K × V))
      → e.same k j ≡ false
      → lookup j (assign k v m) ≡ lookup j m
  unfolding lookup assign
  lookup-assign_ne k j v [] h = rw h
  lookup-assign_ne k j v ((i, w) ∷ m) h = elim (Bool-cases (e.same i k)) [
    | inl hit ↦ rw (hit, e.same_eq i k hit, h)
    | inr miss ↦ rw (miss, lookup-assign_ne k j v m h)
  ]

  -- A key that is not there is added at the end.
  pub assign_new :
      (k : K) (v : V) (m : List (K × V)) → lookup k m ≡ none → assign k v m ≡ m ++ (k, v) ∷ []
  unfolding lookup assign
  assign_new k v [] h = refl
  assign_new k v ((j, w) ∷ m) h = elim (Bool-cases (e.same j k)) [
    | inl hit ↦ cc (rw hit at h)
    | inr miss ↦ rw (miss, assign_new k v m (rw miss at h))
  ]
