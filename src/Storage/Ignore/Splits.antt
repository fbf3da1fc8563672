-- ===== src/Storage/Ignore/Splits.antt =====
-- Where the loops of GlobMatches in engine/storage/ignore_rules.cpp find what they look for.
use veritas_sync_next.Prelude.{
  Bool, true, false, ◌||◌, ◌≡◌, refl, sym, ap, ◌∙◌, inl, inr, [], ◌∷◌, ◌++◌, Bytes, any_of, ◌==◌,
  Bool-cases, ==→eq, arith, All,
}
use veritas_sync_next.Storage.Ignore.Glob.{suffixes, after_slashes, in_component}

abbrev pub NoSlash : Bytes → Type 0
NoSlash u = All (λ b. (b == b'/') ≡ false) u

or_false : (a b : Bool) → a ≡ false → (a || b) ≡ b
or_false a b e = rw e refl

-- What a loop over the rests of a path has found: a first part `u` with the property and a rest.
abbrev pub Found : (Bytes → Type 0) → (Bytes → Bool) → Bytes → Type 0
Found P onward path = (u : Bytes) × (s : Bytes) × (path ≡ u ++ s) × P u × (onward s ≡ true)

module _ (onward : Bytes → Bool) where
  pub suffixes_sound : (s : Bytes) → any_of onward (suffixes s) ≡ true → Found (λ u. Unit) onward s
  unfolding suffixes
  suffixes_sound [] h = ([], [], refl, tt, ground arith)
  suffixes_sound (b ∷ s) h = elim (Bool-cases (onward (b ∷ s))) [
    | inl hit ↦ ([], b ∷ s, refl, tt, hit)
    | inr miss ↦
        let (u, v, e, p, hit) = suffixes_sound s (sym (or_false _ _ miss) ∙ h) in
        (b ∷ u, v, ap (◌∷◌ b) e, tt, hit)
  ]

  pub suffixes_complete : (u s : Bytes) → onward s ≡ true → any_of onward (suffixes (u ++ s)) ≡ true
  unfolding suffixes
  suffixes_complete [] [] h = ground arith
  suffixes_complete [] (b ∷ s) h = ground arith
  suffixes_complete (b ∷ u) s h = ground (arith, suffixes_complete u s h)

  pub after_slashes_sound :
      (s : Bytes)
      → any_of onward (after_slashes s) ≡ true
      → (u : Bytes) × (v : Bytes) × (s ≡ u ++ b'/' ∷ v) × (onward v ≡ true)
  unfolding after_slashes
  after_slashes_sound [] h = absurd (cc h)
  after_slashes_sound (b ∷ s) h = elim (Bool-cases (b == b'/')) [
    | inl slash ↦ elim (Bool-cases (onward s)) [
      | inl hit ↦ ([], s, ap (λ x. x ∷ s) (==→eq b b'/' slash), hit)
      | inr miss ↦
          let (u, v, e, hit) = after_slashes_sound s (ground (arith, h)) in
          (b ∷ u, v, ap (◌∷◌ b) e, hit)
    ]
    | inr other ↦
        let (u, v, e, hit) = after_slashes_sound s (ground (arith, h)) in
        (b ∷ u, v, ap (◌∷◌ b) e, hit)
  ]

  pub after_slashes_complete :
      (u s : Bytes) → onward s ≡ true → any_of onward (after_slashes (u ++ b'/' ∷ s)) ≡ true
  unfolding after_slashes
  after_slashes_complete [] s h = ground arith
  after_slashes_complete (b ∷ u) s h = ground (arith, after_slashes_complete u s h)

  pub in_component_sound :
      (s : Bytes) → any_of onward (in_component s) ≡ true → Found NoSlash onward s
  unfolding in_component
  in_component_sound [] h = ([], [], refl, tt, ground arith)
  in_component_sound (b ∷ s) h = elim (Bool-cases (onward (b ∷ s))) [
    | inl hit ↦ ([], b ∷ s, refl, tt, hit)
    | inr miss ↦ elim (Bool-cases (b == b'/')) [
      | inl slash ↦ absurd (ground arith)
      | inr other ↦
          let (u, v, e, p, hit) = in_component_sound s (ground (arith, h)) in
          (b ∷ u, v, ap (◌∷◌ b) e, (other, p), hit)
    ]
  ]

  pub in_component_complete :
      (u s : Bytes) → NoSlash u → onward s ≡ true → any_of onward (in_component (u ++ s)) ≡ true
  unfolding in_component
  in_component_complete [] [] n h = ground arith
  in_component_complete [] (b ∷ s) n h = ground arith
  in_component_complete (b ∷ u) s n h = ground (arith, n.0, in_component_complete u s n.1 h)
