-- ===== src/Protocol/RoundTrip.antt =====
-- What one Writer call appends, the matching Reader call takes off again, whatever follows it.
use native.Mathlib.Nat.{pow-suc}
use veritas_sync_next.Prelude.{
  ℕ, zero, suc, ◌/◌, ◌%◌, ◌^◌, ◌≤◌, ◌<◌, ◌≡◌, refl, sym, ap, ◌∙◌, Bytes, ok, err, [], ◌∷◌, ◌++◌,
  List, if◌then◌else◌, length, append_assoc, append-nil, invalid_argument, length-append,
  take-append, drop-append, All, arith, inl, inr, ltb, Bool, Error, Bool-cases, le→ltb, true, false,
}
use veritas_sync_next.Protocol.Writer.{
  Put, ◌⊕◌, le_bytes, put_u8, put_int, put_bytes, put_string, put_each,
}
use veritas_sync_next.Protocol.Reader.{
  Reader, ◌>>=◌, ◌>>◌, forbid, pure, read_bytes, le_value, read_int, read_u8, read_string,
  read_each, run,
}

-- If `p` succeeds, `g` reads `v` off what it wrote.
abbrev pub Reads {ℓ} : {A : Type ℓ} → Put → Reader A → A → Type ℓ
Reads p g v = (bs rest : Bytes) → p ≡ ok bs → g (bs ++ rest) ≡ ok (v, rest)

module _ {ℓ κ} {A : Type ℓ} {B : Type κ} where
  pub Reads-seq :
      (p q : Put) (g : Reader A) (k : A → Reader B) (v : A) (w : B)
      → Reads p g v
      → Reads q (k v) w
      → Reads (p ⊕ q) (g >>= k) w
  Reads-seq (err x) q g k v w hp hq bs rest e = cc
  Reads-seq (ok a) (err x) g k v w hp hq bs rest e = cc
  Reads-seq (ok a) (ok b) g k v w hp hq bs rest e =
      let whole : bs ≡ a ++ b = cc in
      rw (whole, append_assoc a b rest) (rw (hp a (b ++ rest) refl, ◌>>=◌) (hq b rest refl))

  pub Reads-last :
      (p : Put) (g : Reader A) (f : A → B) (v : A)
      → Reads p g v
      → Reads p (g >>= λ x. pure (f x)) (f v)
  Reads-last p g f v h bs rest e = rw (h bs rest e, ◌>>=◌)

-- The last read, and then only checks and a result.
pub Reads-end {ℓ κ} :
    {A : Type ℓ} {B : Type κ} (p : Put) (g : Reader A) (k : A → Reader B) (v : A) (w : B)
    → Reads p g v
    → ((rest : Bytes) → k v rest ≡ ok (w, rest))
    → Reads p (g >>= k) w
Reads-end p g k v w h c bs rest e = rw (h bs rest e, ◌>>=◌) (c rest)

-- A writer that checks first: what it refuses, it does not write.
pub Reads-unless {ℓ} :
    {A : Type ℓ} (b : Bool) (x : Error) (p : Put) (g : Reader A) (v : A)
    → (b ≡ false → Reads p g v)
    → Reads (if b then err x else p) g v
Reads-unless true x p g v h bs rest e = cc
Reads-unless false x p g v h bs rest e = h refl bs rest e

pub length-le_bytes : (n v : ℕ) → length (le_bytes n v) ≡ n
unfolding le_bytes
length-le_bytes zero v = refl
length-le_bytes (suc n) v = ap suc (length-le_bytes n (v / 256))

le_value-le_bytes : (n v : ℕ) → v < 256 ^ n → le_value (le_bytes n v) ≡ v
unfolding le_value le_bytes
le_value-le_bytes zero v h = omega arith
le_value-le_bytes (suc n) v h =
    let small : v / 256 < 256 ^ n = omega (arith, pow-suc 256 n) in
    omega (arith, le_value-le_bytes n (v / 256) small)

read_bytes-append :
    (s rest : Bytes) (n : ℕ) → length s ≡ n → read_bytes n (s ++ rest) ≡ ok (s, rest)
unfolding read_bytes
read_bytes-append s rest n h = rw (
  le→ltb (length (s ++ rest)) n (omega (arith, length-append s rest)),
  take-append n s rest h,
  drop-append n s rest h,
)

read_int-append :
    (s rest : Bytes) (n : ℕ) → length s ≡ n → read_int n (s ++ rest) ≡ ok (le_value s, rest)
unfolding read_int
read_int-append s rest n h = unfold read_int in rw (read_bytes-append s rest n h, ◌>>=◌)

-- A number that fits `n` bytes is read back.
pub int-Reads : (n v : ℕ) → v < 256 ^ n → Reads (put_int n v) (read_int n) v
unfolding put_int
int-Reads n v h bs rest e =
    let same : bs ≡ le_bytes n v = cc in
    rw same (
      read_int-append (le_bytes n v) rest n (length-le_bytes n v)
      ∙ ap (λ t. ok (t, rest)) (le_value-le_bytes n v h))

pub u8-Reads : (v : ℕ) → Reads (put_u8 v) read_u8 v
unfolding put_u8 read_u8
u8-Reads v bs rest e = let one : bs ≡ v ∷ [] = cc in rw one

pub bytes-Reads : (s : Bytes) (n : ℕ) → length s ≡ n → Reads (put_bytes s) (read_bytes n) s
unfolding put_bytes
bytes-Reads s n h bs rest e = let same : bs ≡ s = cc in rw same (read_bytes-append s rest n h)

put_string_fits :
    (s : Bytes) → length s ≤ 65535 → put_string s ≡ (put_int 2 (length s) ⊕ put_bytes s)
unfolding put_string put_bytes
put_string_fits s h =
    let whole : length s % 65536 ≡ length s = omega arith in rw (le→ltb 65535 (length s) h, whole)

put_string_long :
    (s : Bytes)
    → ltb 65535 (length s) ≡ true
    → put_string s ≡ err (invalid_argument "string too long")
unfolding put_string
put_string_long s h = rw h

-- A string that `put_string` takes is read back.
pub string-Reads : (s : Bytes) → Reads (put_string s) read_string s
unfolding read_string
string-Reads s bs rest e = elim (Bool-cases (ltb 65535 (length s))) [
  | inl long ↦ unfold put_string in cc (put_string_long s long)
  | inr fits ↦
      let small : length s ≤ 65535 = ground arith in
      Reads-seq (put_int 2 (length s)) (put_bytes s) (read_int 2) read_bytes (length s) s
        (int-Reads 2 (length s) (omega arith)) (bytes-Reads s (length s) refl) bs rest
        (sym (put_string_fits s small) ∙ e)
]

-- The elements of a list, one after the other.
pub each-Reads {ℓ} :
    {A : Type ℓ} (f : A → Put) (g : Reader A) (xs : List A)
    → All (λ x. Reads (f x) g x) xs
    → Reads (put_each f xs) (read_each g (length xs)) xs
unfolding put_each read_each
each-Reads f g [] h bs rest e = let none_left : bs ≡ [] = cc in rw none_left
each-Reads f g (x ∷ xs) h bs rest e =
    Reads-seq (f x) (put_each f xs) g _ x (x ∷ xs) h.0
      (Reads-last (put_each f xs) (read_each g (length xs)) (λ ys. x ∷ ys) xs
        (each-Reads f g xs h.1))
      bs rest e

-- On exactly what was written, a reader hands over its value and nothing is left.
pub Reads-whole {ℓ κ} :
    {A : Type ℓ} {B : Type κ} (p : Put) (g : Reader A) (k : A → Reader B) (v : A) (bs : Bytes)
    → Reads p g v
    → p ≡ ok bs
    → (g >>= k) bs ≡ k v []
Reads-whole p g k v bs h e =
    let exact : g bs ≡ ok (v, []) = rw append-nil at (h bs [] e) in rw (exact, ◌>>=◌)

-- A decoder that reads by `g` and checks by `k` gives what `k` makes of the value.
pub run-Reads {ℓ κ} :
    {A : Type ℓ} {B : Type κ} (p : Put) (g : Reader A) (k : A → Reader B) (v : A) (w : B)
    (bs : Bytes)
    → Reads p g v
    → p ≡ ok bs
    → k v [] ≡ ok (w, [])
    → run (g >>= k) bs ≡ ok w
unfolding run
run-Reads p g k v w bs h e c = rw (Reads-whole p g k v bs h e, run) (rw (c, run))

-- A check that passes reads nothing.
pub Reads-forbid {ℓ} :
    {A : Type ℓ} (p : Put) (b : Bool) (x : Error) (g : Reader A) (v : A)
    → b ≡ false
    → Reads p g v
    → Reads p (forbid b x >> g) v
Reads-forbid p b x g v h r bs rest e = rw h (r bs rest e)
