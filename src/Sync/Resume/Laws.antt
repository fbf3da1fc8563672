-- ===== src/Sync/Resume/Laws.antt =====
-- The missing ranges cover exactly the chunks that are not completed.
use veritas_sync_next.Prelude.{
  subst, ℕ, ◌+◌, ◌-◌, ◌≤◌, ◌<◌, ◌≡◌, refl, ap, ◌∙◌, inl, inr, Bool, true, false, not, ◌&&◌, ◌||◌,
  ok, List, [], ◌∷◌, ◌++◌, arith, sort_by, insert_by, any_of, ◌==◌, ltb, leb, Bool-cases,
  any_of-sort_by, ==→eq,
}
use veritas_sync_next.Protocol.Types.{ChunkRange}
use veritas_sync_next.Sync.Resume.{
  uint32_max, unique_after, unique, gap, gaps, back_reaches, missing_chunk_ranges,
}

-- Whether a chunk lies in one of the ranges.
abbrev pub in_range : ℕ → ChunkRange → Bool
in_range i r = leb r.first_chunk i && ltb i (r.first_chunk + r.chunk_count)

abbrev pub mem : ℕ → List ℕ → Bool
mem i = any_of (λ c. c == i)

-- Each number is at least the one before, and the first at least `low`.
Chain : ℕ → List ℕ → Type 0
Chain low [] = Unit
Chain low (c ∷ cs) = (low ≤ c) × Chain c cs

-- Strictly ascending numbers from `low` to below `total`.
Ascending : ℕ → ℕ → List ℕ → Type 0
Ascending low total [] = low ≤ total
Ascending low total (c ∷ cs) = (low ≤ c) × (c < total) × Ascending (c + 1) total cs

Chain-insert : (low x : ℕ) (cs : List ℕ) → low ≤ x → Chain low cs → Chain low (insert_by ltb x cs)
unfolding insert_by Chain
Chain-insert low x [] h ch = (h, tt)
Chain-insert low x (c ∷ cs) h (hc, ch) = elim (Bool-cases (ltb x c)) [
  | inl before ↦ rw before (h, (ground (arith, before), ch))
  | inr after ↦ rw after (hc, Chain-insert c x cs (ground (arith, after)) ch)
]

Chain-sort : (cs : List ℕ) → Chain 0 (sort_by ltb cs)
unfolding sort_by Chain
Chain-sort [] = tt
Chain-sort (c ∷ cs) = Chain-insert 0 c (sort_by ltb cs) (omega arith) (Chain-sort cs)

unique_after-Ascending :
    (total last : ℕ) (cs : List ℕ)
    → Chain last cs
    → back_reaches total (last ∷ unique_after last cs) ≡ false
    → (last < total) × Ascending (last + 1) total (unique_after last cs)
unfolding unique_after Chain Ascending back_reaches
unique_after-Ascending total last [] ch h = ground (arith, h)
unique_after-Ascending total last (c ∷ cs) (hc, ch) h = elim (Bool-cases (c == last)) [
  | inl same ↦ rw same (
      unique_after-Ascending total last cs (subst (λ x. Chain x cs) (==→eq c last same) ch)
        (rw same at h))
  | inr new ↦
      let (below, asc) = unique_after-Ascending total c cs ch (rw new at h) in
      rw new (omega (arith, below, hc), (ground (arith, new, hc), below, asc))
]

absorb :
    (c last i : ℕ) (b : Bool)
    → (c == last) ≡ true
    → ((last == i) || b) ≡ ((last == i) || ((c == i) || b))
absorb c last i b h = ground arith

mem-unique_after :
    (i last : ℕ) (cs : List ℕ) → mem i (last ∷ unique_after last cs) ≡ mem i (last ∷ cs)
unfolding unique_after
mem-unique_after i last [] = refl
mem-unique_after i last (c ∷ cs) = elim (Bool-cases (c == last)) [
  | inl same ↦ rw same (mem-unique_after i last cs ∙ absorb c last i (mem i cs) same)
  | inr new ↦ rw new (ap (λ b. (last == i) || b) (mem-unique_after i c cs))
]

unique_sound :
    (total : ℕ) (cs : List ℕ)
    → Chain 0 cs
    → back_reaches total (unique cs) ≡ false
    → Ascending 0 total (unique cs)
unfolding unique Chain Ascending
unique_sound total [] ch h = omega arith
unique_sound total (c ∷ cs) (hc, ch) h =
    let (below, asc) = unique_after-Ascending total c cs ch h in (omega arith, below, asc)

mem-unique : (i : ℕ) (cs : List ℕ) → mem i (unique cs) ≡ mem i cs
unfolding unique
mem-unique i [] = refl
mem-unique i (c ∷ cs) = mem-unique_after i c cs

in_range-append :
    (i : ℕ) (rs qs : List ChunkRange)
    → any_of (in_range i) (rs ++ qs) ≡ (any_of (in_range i) rs || any_of (in_range i) qs)
in_range-append i [] qs = refl
in_range-append i (r ∷ rs) qs = ground (arith, in_range-append i rs qs)

gap-covers :
    (cursor chunk i : ℕ) (rs : List ChunkRange)
    → gap cursor chunk ≡ ok rs
    → any_of (in_range i) rs ≡ (leb cursor i && ltb i chunk)
unfolding gap
gap-covers cursor chunk i rs e = ground arith

-- Nothing below the start of an ascending list is in it.
mem-below : (low total i : ℕ) (cs : List ℕ) → Ascending low total cs → i < low → mem i cs ≡ false
unfolding Ascending
mem-below low total i [] asc h = refl
mem-below low total i (c ∷ cs) (hc, _, asc) h =
    ground (arith, hc, h, mem-below (c + 1) total i cs asc (omega (arith, hc, h)))

gaps_step :
    (total cursor c : ℕ) (cs : List ℕ) (rs : List ChunkRange)
    → gaps total cursor (c ∷ cs) ≡ ok rs
    → (before after : List ChunkRange) × (gap cursor c ≡ ok before)
      × (gaps total (c + 1) cs ≡ ok after)
      × (rs ≡ before ++ after)
unfolding gaps
gaps_step total cursor c cs rs e = ground arith

step_covers :
    (cursor c total i : ℕ) (m : Bool)
    → cursor ≤ c
    → c < total
    → (i < c + 1 → m ≡ false)
    → ((leb cursor i && ltb i c) || (leb (c + 1) i && (ltb i total && not m)))
      ≡ (leb cursor i && (ltb i total && not ((c == i) || m)))
step_covers cursor c total i true hc below h = ground (arith, hc, below, h)
step_covers cursor c total i false hc below h = ground (arith, hc, below)

accepted :
    (total : ℕ) (completed : List ℕ) (rs : List ChunkRange)
    → missing_chunk_ranges total completed ≡ ok rs
    → (back_reaches total (unique (sort_by ltb completed)) ≡ false)
      × (gaps total 0 (unique (sort_by ltb completed)) ≡ ok rs)
unfolding missing_chunk_ranges
accepted total completed rs e = ground arith

gaps-cover :
    (total cursor i : ℕ) (cs : List ℕ) (rs : List ChunkRange)
    → Ascending cursor total cs
    → gaps total cursor cs ≡ ok rs
    → any_of (in_range i) rs ≡ (leb cursor i && (ltb i total && not (mem i cs)))
unfolding gaps Ascending
gaps-cover total cursor i [] rs asc e =
    gap-covers cursor total i rs e ∙ ap (λ b. leb cursor i && b) (ground arith)
gaps-cover total cursor i (c ∷ cs) rs (hc, below, asc) e =
    let (before, after, g, h, same) = gaps_step total cursor c cs rs e in
    ap (any_of (in_range i)) same
    ∙ in_range-append i before after
    ∙ rw (gap-covers cursor c i before g, gaps-cover total (c + 1) i cs after asc h)
        (step_covers cursor c total i (mem i cs) hc below (mem-below (c + 1) total i cs asc))

-- What the request for a download asks for: a chunk lies in one of the missing ranges exactly when
-- it is a chunk of the file and is not among the completed ones, in whatever order and however often
-- these are listed.
pub missing_chunk_ranges-exact :
    (total : ℕ) (completed : List ℕ) (rs : List ChunkRange)
    → missing_chunk_ranges total completed ≡ ok rs
    → (i : ℕ) → any_of (in_range i) rs ≡ (ltb i total && not (mem i completed))
missing_chunk_ranges-exact total completed rs e i =
    let (within, g) = accepted total completed rs e in
    gaps-cover total 0 i (unique (sort_by ltb completed)) rs
      (unique_sound total (sort_by ltb completed) (Chain-sort completed) within) g
    ∙ rw (mem-unique i (sort_by ltb completed), any_of-sort_by ltb (λ c. c == i) completed)
        (ground arith)

gap-total :
    (cursor chunk : ℕ) → chunk ≤ uint32_max → (rs : List ChunkRange) × (gap cursor chunk ≡ ok rs)
unfolding gap
gap-total cursor chunk h = elim (Bool-cases (ltb cursor chunk)) [
  | inl before ↦
      let small : ltb uint32_max (chunk - cursor) ≡ false = ground (arith, h) in
      rw (before, small) (_, refl)
  | inr after ↦ rw after ([], refl)
]

gaps-total :
    (total cursor : ℕ) (cs : List ℕ)
    → total ≤ uint32_max
    → Ascending cursor total cs
    → (rs : List ChunkRange) × (gaps total cursor cs ≡ ok rs)
unfolding gaps Ascending
gaps-total total cursor [] h asc = gap-total cursor total h
gaps-total total cursor (c ∷ cs) h (hc, below, asc) =
    let (before, g) = gap-total cursor c (omega (arith, h, below)) in
    let (after, k) = gaps-total total (c + 1) cs h asc in rw (g, k) (before ++ after, refl)

back_reaches-unique_after :
    (total last : ℕ) (cs : List ℕ)
    → last < total
    → any_of (leb total) cs ≡ false
    → back_reaches total (last ∷ unique_after last cs) ≡ false
unfolding back_reaches unique_after
back_reaches-unique_after total last [] h g = ground (arith, h)
back_reaches-unique_after total last (c ∷ cs) h g = elim (Bool-cases (c == last)) [
  | inl same ↦ rw same (back_reaches-unique_after total last cs h (ground (arith, g)))
  | inr new ↦ rw new (back_reaches-unique_after total c cs (ground (arith, g)) (ground (arith, g)))
]

back_reaches-unique :
    (total : ℕ) (cs : List ℕ)
    → any_of (leb total) cs ≡ false
    → back_reaches total (unique cs) ≡ false
unfolding back_reaches unique
back_reaches-unique total [] g = refl
back_reaches-unique total (c ∷ cs) g =
    back_reaches-unique_after total c cs (ground (arith, g)) (ground (arith, g))

-- The missing ranges of a file of one chunk up to 2 ^ 32 - 1 are found for every list of completed
-- chunks that are chunks of the file.
pub missing_chunk_ranges-total :
    (total : ℕ) (completed : List ℕ)
    → 0 < total
    → total ≤ uint32_max
    → any_of (leb total) completed ≡ false
    → (rs : List ChunkRange) × (missing_chunk_ranges total completed ≡ ok rs)
unfolding missing_chunk_ranges
missing_chunk_ranges-total total completed h small known =
    let within =
      back_reaches-unique total (sort_by ltb completed)
        (any_of-sort_by ltb (leb total) completed ∙ known) in
    let (rs, g) =
      gaps-total total 0 (unique (sort_by ltb completed)) small
        (unique_sound total (sort_by ltb completed) (Chain-sort completed) within) in
    let some_chunks : (total == 0) ≡ false = ground (arith, h) in rw (some_chunks, within) (rs, g)
