-- ===== src/Sync/ManifestDiff/Laws.antt =====
-- The merge of two ordered lists against a lookup of every path on its own.
use veritas_sync_next.Prelude.{
  some, not, Option, bytes_lt_asym, is_sorted-sort_by, is_sorted, subst, ℕ, zero, suc, ◌+◌, ◌≤◌,
  ◌≡◌, refl, sym, ◌∙◌, inl, inr, Bool, true, false, ◌||◌, Bytes, Result, ok, err, List, [], ◌∷◌,
  none, if◌then◌else◌, ◌>>=◌, bytes_eq, bytes_lt, length, any_of, find_if, find_if_hit,
  find_if_miss, All, arith, Bool-cases, bytes_lt→ne, bytes_lt→ne_sym, bytes_lt_trans,
  bytes_lt_total, bytes_eq→eq, bytes_eq_refl,
}
use veritas_sync_next.Storage.Tables.{file, directory, tombstone, FileKind, FileRecord}
use veritas_sync_next.Storage.Records.{is_tombstone}
use veritas_sync_next.Sync.ManifestDiff.Reference.{
  file_differs, differs, changed_at, keep_changed, record_at, changed_entries, entry_at, gone_paths,
  difference,
}
use veritas_sync_next.Sync.ManifestDiff.{
  file_entry, directory_entry, SnapshotKind, same_hash, is_same_content, path_before, repeats_path,
  diff_manifest, ordered_entries, in_order, SnapshotEntry, ManifestDiff, entry_path, record_path,
  add_changed, add_deleted, is_change, merge,
}

module _ {ℓ} {A : Type ℓ} (path : A → Bytes) where
  -- Every path comes after `p`.
  abbrev pub After : Bytes → List A → Type 0
  After p xs = All (λ a. bytes_lt p (path a) ≡ true) xs

  abbrev pub Strict : List A → Type 0
  Strict [] = Unit
  Strict (a ∷ rest) = After (path a) rest × Strict rest

  After-trans : (p q : Bytes) (xs : List A) → bytes_lt p q ≡ true → After q xs → After p xs
  After-trans p q [] h g = tt
  After-trans p q (x ∷ xs) h (g, gs) = (bytes_lt_trans p q (path x) h g, After-trans p q xs h gs)

  any_of-After :
      (p : Bytes) (xs : List A) → After p xs → any_of (λ x. bytes_eq (path x) p) xs ≡ false
  any_of-After p [] h = refl
  any_of-After p (x ∷ xs) (g, gs) = rw (bytes_lt→ne_sym p (path x) g) (any_of-After p xs gs)

  find_if-After :
      (p : Bytes) (xs : List A) → After p xs → find_if (λ x. bytes_eq (path x) p) xs ≡ none
  find_if-After p [] h = refl
  find_if-After p (x ∷ xs) (g, gs) =
      find_if_miss (λ x. bytes_eq (path x) p) x xs (bytes_lt→ne_sym p (path x) g)
      ∙ find_if-After p xs gs

  sorted-Strict :
      (xs : List A)
      → is_sorted (path_before path) xs ≡ true
      → repeats_path path xs ≡ false
      → Strict xs
  unfolding is_sorted repeats_path
  sorted-Strict [] h g = tt
  sorted-Strict (x ∷ []) h g = (tt, tt)
  sorted-Strict (x ∷ y ∷ ys) h g =
      let (later, rest) = sorted-Strict (y ∷ ys) (ground (arith, h)) (ground (arith, g)) in
      let before : bytes_lt (path x) (path y) ≡ true =
        ground (arith, h, g, bytes_lt_total (path x) (path y)) in
      ((before, After-trans (path x) (path y) ys before later), (later, rest))

  in_order-sorted : (xs : List A) → is_sorted (path_before path) (in_order path xs) ≡ true
  unfolding in_order
  in_order-sorted xs = elim (Bool-cases (is_sorted (path_before path) xs)) [
    | inl sorted ↦ rw sorted sorted
    | inr unsorted ↦
        rw unsorted
          (is_sorted-sort_by (path_before path) (λ a b. bytes_lt_asym (path a) (path b)) xs)
  ]

  ordered_entries-Strict :
      (xs ys : List A) → ordered_entries path xs ≡ ok ys → (ys ≡ in_order path xs) × Strict ys
  unfolding ordered_entries
  ordered_entries-Strict xs ys e =
      let fresh : repeats_path path (in_order path xs) ≡ false = ground (arith, e) in
      let same : ys ≡ in_order path xs = ground (arith, e) in
      (same, rw same (sorted-Strict (in_order path xs) (in_order-sorted xs) fresh))

-- A record before every entry makes no entry a change.
changed_entries-skip :
    (r : FileRecord) (rs : List FileRecord) (es : List SnapshotEntry)
    → After entry_path r.relative_path es
    → changed_entries (r ∷ rs) es ≡ changed_entries rs es
unfolding changed_entries
changed_entries-skip r rs [] h = refl
changed_entries-skip r rs (e ∷ es) (g, gs) = rw (
  find_if_miss (record_at e.relative_path) r rs (bytes_lt→ne r.relative_path e.relative_path g),
  changed_entries-skip r rs es gs,
)

gone_paths-skip :
    (e : SnapshotEntry) (es : List SnapshotEntry) (rs : List FileRecord)
    → After record_path e.relative_path rs
    → gone_paths (e ∷ es) rs ≡ gone_paths es rs
unfolding gone_paths
gone_paths-skip e es [] h = refl
gone_paths-skip e es (r ∷ rs) (g, gs) =
    rw (bytes_lt→ne e.relative_path r.relative_path g, gone_paths-skip e es rs gs)

created_shape :
    (e : SnapshotEntry) (m : Result (List SnapshotEntry)) (gone : List Bytes)
    → ((m >>= λ rest. ok (keep_changed e true rest)) >>= λ c.
        ok (record { created_or_changed = c; deleted_paths = gone }))
      ≡ ((m >>= λ c. ok (record { created_or_changed = c; deleted_paths = gone })) >>= λ d.
          ok (add_changed true e d))
created_shape e (ok c) gone = refl
created_shape e (err x) gone = refl

difference-created :
    (e : SnapshotEntry) (es : List SnapshotEntry) (rs : List FileRecord)
    → After record_path e.relative_path rs
    → difference (e ∷ es) rs ≡ (difference es rs >>= λ d. ok (add_changed true e d))
unfolding difference changed_entries changed_at
difference-created e es rs h =
    rw (find_if-After record_path e.relative_path rs h, gone_paths-skip e es rs h)
      (created_shape e (changed_entries rs es) (gone_paths es rs))

abbrev diff_of : List Bytes → List SnapshotEntry → Result ManifestDiff
diff_of gone c = ok (record { created_or_changed = c; deleted_paths = gone })

abbrev delete_unless : Bool → FileRecord → ManifestDiff → Result ManifestDiff
delete_unless b r d =
    ok (if b then d else record d { deleted_paths = r.relative_path ∷ d.deleted_paths })

deleted_shape :
    (r : FileRecord) (b : Bool) (m : Result (List SnapshotEntry)) (gone : List Bytes)
    → (m >>= diff_of (if b || false then gone else r.relative_path ∷ gone))
      ≡ ((m >>= diff_of gone) >>= delete_unless b r)
deleted_shape r true (ok c) gone = refl
deleted_shape r false (ok c) gone = refl
deleted_shape r b (err x) gone = refl

difference-deleted :
    (r : FileRecord) (es : List SnapshotEntry) (rs : List FileRecord)
    → After entry_path r.relative_path es
    → difference es (r ∷ rs) ≡ (difference es rs >>= λ d. ok (add_deleted r d))
unfolding difference gone_paths
difference-deleted r es rs h =
    rw (changed_entries-skip r rs es h, any_of-After entry_path r.relative_path es h)
      (deleted_shape r (is_tombstone r.kind) (changed_entries rs es) (gone_paths es rs))

both_shape :
    (e : SnapshotEntry) (r : FileRecord) (b : Bool) (change : Result Bool)
    (m : Result (List SnapshotEntry)) (gone : List Bytes)
    → ((change >>= λ changed. m >>= λ rest. ok (keep_changed e changed rest))
        >>= diff_of (if b || true then gone else r.relative_path ∷ gone))
      ≡ (change >>= λ changed. (m >>= diff_of gone) >>= λ d. ok (add_changed changed e d))
both_shape e r b (err x) m gone = refl
both_shape e r b (ok changed) (err x) gone = refl
both_shape e r true (ok true) (ok c) gone = refl
both_shape e r true (ok false) (ok c) gone = refl
both_shape e r false (ok true) (ok c) gone = refl
both_shape e r false (ok false) (ok c) gone = refl

difference-both :
    (e : SnapshotEntry) (r : FileRecord) (es : List SnapshotEntry) (rs : List FileRecord)
    → r.relative_path ≡ e.relative_path
    → After entry_path e.relative_path es
    → After record_path r.relative_path rs
    → difference (e ∷ es) (r ∷ rs) ≡ (
        differs e.kind r.kind e r >>= λ changed.
        difference es rs >>= λ d. ok (add_changed changed e d))
unfolding difference gone_paths changed_entries changed_at
difference-both e r es rs h he hr =
    let here : record_at e.relative_path r ≡ true = rw h (bytes_eq_refl e.relative_path) in
    let there : entry_at r.relative_path e ≡ true = rw h (bytes_eq_refl e.relative_path) in
    rw
      (
        find_if_hit (record_at e.relative_path) r rs here,
        there,
        changed_entries-skip r rs es (subst (λ p. After entry_path p es) (sym h) he),
        gone_paths-skip e es rs (subst (λ p. After record_path p rs) h hr),
      )
      (both_shape e r (is_tombstone r.kind) (differs e.kind r.kind e r) (changed_entries rs es)
        (gone_paths es rs))

same_hash-differs :
    (hash : Option Bytes) (e : SnapshotEntry) (r : FileRecord)
    → (same_hash e hash r >>= λ same. ok (not same)) ≡ file_differs hash e r
same_hash-differs none e r = refl
same_hash-differs (some hash) e r = ground arith

is_change-by :
    (k : SnapshotKind) (f : FileKind) (e : SnapshotEntry) (r : FileRecord)
    → (if is_tombstone f
        then ok true
        else (is_same_content k e (record r { kind = f }) >>= λ same. ok (not same)))
      ≡ differs k f e (record r { kind = f })
unfolding is_same_content
is_change-by file_entry file e r = same_hash-differs e.content_hash e (record r { kind = file })
is_change-by file_entry directory e r = refl
is_change-by file_entry tombstone e r = refl
is_change-by directory_entry file e r = refl
is_change-by directory_entry directory e r = refl
is_change-by directory_entry tombstone e r = refl

is_change-differs : (e : SnapshotEntry) (r : FileRecord) → is_change e r ≡ differs e.kind r.kind e r
unfolding is_change
is_change-differs e r = is_change-by e.kind r.kind e r

difference-nil : difference [] [] ≡ ok (record { created_or_changed = []; deleted_paths = [] })
unfolding difference changed_entries gone_paths
difference-nil = refl

-- With as much fuel as there are elements, the merge of two lists in strict order is the
-- difference path by path.
merge-difference :
    (fuel : ℕ) (es : List SnapshotEntry) (rs : List FileRecord)
    → length es + length rs ≤ fuel
    → Strict entry_path es
    → Strict record_path rs
    → merge fuel es rs ≡ difference es rs
unfolding merge
merge-difference fuel [] [] h se sr = sym difference-nil
merge-difference zero (e ∷ es) rs h se sr = absurd (omega (arith, h))
merge-difference zero [] (r ∷ rs) h se sr = absurd (omega (arith, h))
merge-difference (suc fuel) (e ∷ es) [] h (he, se) sr =
    rw (merge-difference fuel es [] (omega (arith, h)) se sr) (sym (difference-created e es [] tt))
merge-difference (suc fuel) [] (r ∷ rs) h se (hr, sr) =
    rw (merge-difference fuel [] rs (omega (arith, h)) se sr) (sym (difference-deleted r [] rs tt))
merge-difference (suc fuel) (e ∷ es) (r ∷ rs) h (he, se) (hr, sr) =
    elim (Bool-cases (bytes_lt e.relative_path r.relative_path)) [
      | inl first ↦
          rw (merge, first, merge-difference fuel es (r ∷ rs) (omega (arith, h)) se (hr, sr))
            (sym (
              difference-created e es (r ∷ rs)
                (first, After-trans record_path e.relative_path r.relative_path rs first hr)))
      | inr not_first ↦ elim (Bool-cases (bytes_lt r.relative_path e.relative_path)) [
        | inl second ↦
            rw
              (
                merge,
                not_first,
                second,
                merge-difference fuel (e ∷ es) rs (omega (arith, h)) (he, se) sr,
              )
              (sym (
                difference-deleted r (e ∷ es) rs
                  (second, After-trans entry_path r.relative_path e.relative_path es second he)))
        | inr neither ↦
            let same =
              bytes_eq→eq r.relative_path e.relative_path
                (bytes_lt_total r.relative_path e.relative_path neither not_first) in
            rw
              (
                merge,
                not_first,
                neither,
                is_change-differs e r,
                merge-difference fuel es rs (omega (arith, h)) se sr,
              )
              (sym (difference-both e r es rs same he hr))
      ]
    ]

-- The two-pointer comparison of a scan with the records is, on inputs without a repeated path, the
-- difference path by path of the two lists in path order: an entry is a change if no record or only
-- a tombstone is at its path, or the kind differs, or the size or the hash of a file; and a live
-- record is gone if nothing was scanned at its path.
pub diff_manifest-difference :
    (snapshot es : List SnapshotEntry) (known rs : List FileRecord)
    → ordered_entries entry_path snapshot ≡ ok es
    → ordered_entries record_path known ≡ ok rs
    → (diff_manifest snapshot known ≡ difference es rs)
      × (es ≡ in_order entry_path snapshot)
      × (rs ≡ in_order record_path known)
unfolding diff_manifest
diff_manifest-difference snapshot es known rs he hr =
    let (same_es, strict_es) = ordered_entries-Strict entry_path snapshot es he in
    let (same_rs, strict_rs) = ordered_entries-Strict record_path known rs hr in
    (
      rw (he, hr)
          (merge-difference (length es + length rs) es rs (omega arith) strict_es strict_rs),
      same_es,
      same_rs,
    )
