-- ===== src/Storage/Lineage/Laws.antt =====
-- Ancestry as reachability along recorded parents, the immutability of parents, and the clock.
use veritas_sync_next.Prelude.{
  ◌≤◌, ◌⊎◌, find_if-append_some, Error, ℕ, zero, suc, ◌<◌, ◌≡◌, ap, sym, ◌∙◌, inl, inr, true, false,
  Bytes, ok, err, List, [], ◌∷◌, ◌++◌, Option, none, some, empty?, bytes_eq, ◌>>=◌, arith, assign,
  find_if, bytes_eq_refl, bytes_eq→eq, Bool-cases, lookup-assign_self, lookup-assign_ne, bytes_key,
  Option-cases, Result-cases, ◌⊎◌, ◌↔◌,
}
use veritas_sync_next.Storage.Tables.{VersionLineage, Database}
use veritas_sync_next.Storage.Lineage.{
  lineage_key, find_version_lineage, same_parent, add_lineage, record_version_lineage, parent_of,
  climb, max_depth, is_version_ancestor, clock_of, advance_logical_clock,
}

-- `a` is reached from `v` by going up `n` recorded parents.
pub data Above (db : Database) (task : Bytes) (a : Bytes) : ℕ → Bytes → Type 0 where
  here : (v : Bytes) → v ≡ a → Above db task a zero v
  up :
      (n : ℕ) (v p : Bytes) (found : Option VersionLineage)
      → find_version_lineage db task v ≡ ok found
      → parent_of found ≡ some p
      → Above db task a n p
      → Above db task a (suc n) v

-- One step of the climb.
climb_found :
    (db : Database) (task a : Bytes) (depth : ℕ) (v p : Bytes) (found : Option VersionLineage)
    → bytes_eq v a ≡ false
    → find_version_lineage db task v ≡ ok found
    → parent_of found ≡ some p
    → climb db task a (suc depth) v ≡ climb db task a depth p
unfolding climb
climb_found db task a depth v p found h f g = rw (h, f, ◌>>=◌, g)

climb_end :
    (db : Database) (task a : Bytes) (depth : ℕ) (v : Bytes) (found : Option VersionLineage)
    → bytes_eq v a ≡ false
    → find_version_lineage db task v ≡ ok found
    → parent_of found ≡ none
    → climb db task a (suc depth) v ≡ ok false
unfolding climb
climb_end db task a depth v found h f g = rw (h, f, ◌>>=◌, g)

climb_err :
    (db : Database) (task a : Bytes) (depth : ℕ) (v : Bytes) (e : Error)
    → bytes_eq v a ≡ false
    → find_version_lineage db task v ≡ err e
    → climb db task a (suc depth) v ≡ err e
unfolding climb
climb_err db task a depth v e h f = rw (h, f)

climb_sound :
    (db : Database) (task a : Bytes) (depth : ℕ) (v : Bytes)
    → climb db task a depth v ≡ ok true
    → (n : ℕ) × (n < depth) × Above db task a n v
unfolding climb
climb_sound db task a zero v e = cc
climb_sound db task a (suc depth) v e = elim (Bool-cases (bytes_eq v a)) [
  | inl same ↦ (0, omega arith, here v (bytes_eq→eq v a same))
  | inr other ↦ elim (Result-cases (find_version_lineage db task v)) [
    | inr (x, f) ↦ absurd (cc (climb_err db task a depth v x other f, e))
    | inl (found, f) ↦ elim (Option-cases (parent_of found)) [
      | inl g ↦ absurd (cc (climb_end db task a depth v found other f g, e))
      | inr (p, g) ↦
          let (n, short, above) =
            climb_sound db task a depth p
              (sym (climb_found db task a depth v p found other f g) ∙ e) in
          (suc n, omega (arith, short), up n v p found f g above)
    ]
  ]
]

climb_complete :
    (db : Database) (task a : Bytes) (depth n : ℕ) (v : Bytes)
    → n < depth
    → Above db task a n v
    → climb db task a depth v ≡ ok true
unfolding climb
climb_complete db task a zero n v h above = absurd (omega (arith, h))
climb_complete db task a (suc depth) _ _ h (here v same) = rw (same, bytes_eq_refl a)
climb_complete db task a (suc depth) _ _ h (up n v p found f g above) =
    elim (Bool-cases (bytes_eq v a)) [
      | inl same ↦ rw same
      | inr other ↦
          climb_found db task a depth v p found other f g
          ∙ climb_complete db task a depth n p (omega (arith, h)) above
    ]

pub advanced :
    (db next : Database) (task : Bytes) (observed clock : ℕ)
    → advance_logical_clock db task observed ≡ ok (clock, next)
    → (clock_of db task < clock)
      × (observed < clock)
      × (next ≡ record db { task_clocks = assign task clock db.task_clocks })
unfolding advance_logical_clock
advanced db next task observed clock e = ground arith

advanced_inside :
    (db next : Database) (task : Bytes) (observed clock : ℕ)
    → advance_logical_clock db task observed ≡ ok (clock, next)
    → (clock ≤ 9223372036854775807) ⊎ (9223372036854775807 < clock_of db task)
unfolding advance_logical_clock
advanced_inside db next task observed clock e = ground (arith, e)

-- What the ancestry test answers, for identities that are not empty: yes exactly when the ancestor
-- is reached from the descendant along recorded parents in less than the limit of steps.
pub is_version_ancestor-Above :
    (db : Database) (task a v : Bytes)
    → empty? task ≡ false
    → empty? a ≡ false
    → empty? v ≡ false
    → (is_version_ancestor db task a v ≡ ok true)
      ↔ ((n : ℕ) × (n < max_depth) × Above db task a n v)
unfolding is_version_ancestor
is_version_ancestor-Above db task a v ht ha hv =
    rw (ht, ha, hv)
      (
        climb_sound db task a max_depth v,
        λ (n, short, above). climb_complete db task a max_depth n v short above,
      )

-- Advancing the clock of a task gives a number above its old clock and above the observed one; the
-- number is inside std::int64_t unless the old clock was not; it is the task's clock from then on, and no other clock changes.
pub advance_logical_clock-grows :
    (db next : Database) (task : Bytes) (observed clock : ℕ)
    → advance_logical_clock db task observed ≡ ok (clock, next)
    → (clock_of db task < clock)
      × (observed < clock)
      × ((clock ≤ 9223372036854775807) ⊎ (9223372036854775807 < clock_of db task))
      × (clock_of next task ≡ clock)
      × ((other : Bytes) → bytes_eq task other ≡ false → clock_of next other ≡ clock_of db other)
unfolding clock_of
advance_logical_clock-grows db next task observed clock e =
    let (above, seen, same) = advanced db next task observed clock e in
    (
      above,
      seen,
      advanced_inside db next task observed clock e,
      rw (same, clock_of, lookup-assign_self task clock db.task_clocks),
      λ other h. rw (same, clock_of, lookup-assign_ne task other clock db.task_clocks h),
    )

looked_up :
    (db : Database) (task v : Bytes) (known : Option VersionLineage)
    → find_version_lineage db task v ≡ ok known
    → (find_if (lineage_key task v) db.version_lineage ≡ known)
      × ((more : List VersionLineage)
          → find_version_lineage (record db { version_lineage = more }) task v
            ≡ ok (find_if (lineage_key task v) more))
unfolding find_version_lineage
looked_up db task v known e = ground arith

pub added :
    (db next : Database) (l : VersionLineage) (known : Option VersionLineage)
    → add_lineage db l known ≡ ok next
    → ((known ≡ none) × (next ≡ record db { version_lineage = db.version_lineage ++ l ∷ [] }))
      ⊎ ((k : VersionLineage) × (known ≡ some k)
          × (same_parent k.parent_version_id l.parent_version_id ≡ true)
          × (next ≡ db))
unfolding add_lineage
added db next l none e = ground arith
added db next l (some k) e = ground arith

pub recorded :
    (db next : Database) (l : VersionLineage)
    → record_version_lineage db l ≡ ok next
    → (known : Option VersionLineage) × (find_version_lineage db l.task_id l.version_id ≡ ok known)
      × (add_lineage db l known ≡ ok next)
unfolding record_version_lineage
recorded db next l e = ground arith

-- A version that is recorded keeps its parent: whatever is recorded later, it is found as before.
pub record_version_lineage-keeps :
    (db next : Database) (l : VersionLineage) (task v : Bytes) (k : VersionLineage)
    → record_version_lineage db l ≡ ok next
    → find_version_lineage db task v ≡ ok (some k)
    → find_version_lineage next task v ≡ ok (some k)
record_version_lineage-keeps db next l task v k e f =
    let (known, g, h) = recorded db next l e in
    let (first, rest) = looked_up db task v (some k) f in
    elim (added db next l known h) [
      | inl (_, same) ↦ rw same (
          rest (db.version_lineage ++ l ∷ [])
          ∙ ap ok (find_if-append_some (lineage_key task v) db.version_lineage (l ∷ []) k first))
      | inr (_, _, _, same) ↦ rw same f
    ]
