-- ===== src/Prelude/Results.antt =====
-- Exceptions as values: the standard exception classes that the engine throws, with their text.
use Prim.Native.String.{String}
use Prim.Native.Nat.{ℕ}
use mathlib.Core.Path.{◌≡◌, refl}
use mathlib.Core.Logic.{◌⊎◌, inl, inr}
use mathlib.Core.Bool.{Bool, true, false}
use mathlib.Core.List.{List}

-- `invalid_line n text` is invalid_argument with "ignore rule line n" in front of the text, and
-- `peer_reason` is the text of a CANCEL frame, which a node keeps as its last error.
pub data Error : Type 0 where
  invalid_argument : String → Error
  length_error : String → Error
  logic_error : String → Error
  runtime_error : String → Error
  overflow_error : String → Error
  peer_reason : List ℕ → Error
  invalid_line : ℕ → String → Error

pub data Result {ℓ} (A : Type ℓ) : Type ℓ where
  err : Error → Result A
  ok : A → Result A

-- `if (b) throw e;`
abbrev pub forbid : Bool → Error → Result (Unit {0})
forbid false problem = ok tt
forbid true problem = err problem

-- The rest of a block after a call that may throw.
infixl 5 ◌>>=◌
abbrev pub ◌>>=◌ {ℓ κ} : {S : Type ℓ} {T : Type κ} → Result S → (S → Result T) → Result T
err problem >>= rest = err problem
ok value >>= rest = rest value

infixl 5 ◌>>◌
abbrev pub ◌>>◌ {ℓ} : {T : Type ℓ} → Result (Unit {0}) → Result T → Result T
check >> rest = check >>= λ done. rest

pub Result-cases {ℓ} :
    {S : Type ℓ} (r : Result S) → ((a : S) × (r ≡ ok a)) ⊎ ((e : Error) × (r ≡ err e))
Result-cases (err problem) = inr (problem, refl)
Result-cases (ok value) = inl (value, refl)

-- A block that answers came through its first call.
pub bind_ok {ℓ κ} :
    {S : Type ℓ} {T : Type κ} {t : T} (first : Result S) (rest : S → Result T)
    → (first >>= rest) ≡ ok t
    → (s : S) × (first ≡ ok s) × (rest s ≡ ok t)
bind_ok (err problem) rest e = absurd (cc e)
bind_ok (ok s) rest e = (s, refl, e)

-- Blocks whose rests agree agree.
pub bind_ext {ℓ κ} :
    {S : Type ℓ} {T : Type κ} (first : Result S) (f g : S → Result T)
    → ((s : S) → f s ≡ g s)
    → (first >>= f) ≡ (first >>= g)
bind_ext (err problem) f g same = refl
bind_ext (ok s) f g same = same s

-- A block goes on after a first call that answers.
pub bind_to {ℓ κ} :
    {S : Type ℓ} {T : Type κ} {s : S} (first : Result S) (rest : S → Result T)
    → first ≡ ok s
    → (first >>= rest) ≡ rest s
bind_to first rest e = rw e refl

-- The same as bind_ok, for a goal.
pub bind_cases {ℓ κ μ} :
    {S : Type ℓ} {T : Type κ} {G : Type μ} {t : T} (first : Result S) (rest : S → Result T)
    → (first >>= rest) ≡ ok t
    → ((s : S) → first ≡ ok s → rest s ≡ ok t → G)
    → G
bind_cases (err problem) rest e go = absurd (cc e)
bind_cases (ok s) rest e go = go s refl e
