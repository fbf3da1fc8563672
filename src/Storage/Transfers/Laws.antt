-- ===== src/Storage/Transfers/Laws.antt =====
-- What the marked chunks and a new state are when they are read back.
use veritas_sync_next.Prelude.{
  ℕ, ◌≡◌, refl, ap, ◌∙◌, inl, inr, Bool, true, ◌&&◌, ◌||◌, Bytes, ok, List, [], ◌∷◌, ◌++◌, map,
  bytes_eq, if◌then◌else◌, arith, keep_if, keep_if_hit, keep_if_miss, any_of, ◌==◌, ==→eq,
  bytes_eq→eq, ltb, Bool-cases, any_of-sort_by,
}
use veritas_sync_next.Storage.Tables.{Database}
use veritas_sync_next.Storage.Transfers.{
  is_chunk, mark_chunks, mark_transfer_chunks_completed, chunk_of, completed_transfer_chunks,
}

-- Whether a chunk is among the completed ones.
abbrev pub is_completed : Database → Bytes → ℕ → Bool
is_completed db id i = any_of (λ c. c == i) (completed_transfer_chunks db id)

any_of-chunks :
    (id : Bytes) (i : ℕ) (rows : List (Bytes × ℕ))
    → any_of (λ c. c == i) (map chunk_of (keep_if (λ row. bytes_eq row.0 id) rows))
      ≡ any_of (is_chunk id i) rows
any_of-chunks id i [] = refl
any_of-chunks id i ((j, c) ∷ rows) = elim (Bool-cases (bytes_eq j id)) [
  | inl own ↦
      rw (keep_if_hit (λ row. bytes_eq row.0 id) (j, c) rows own, own)
        (ap (λ b. (c == i) || b) (any_of-chunks id i rows))
  | inr other ↦
      rw (keep_if_miss (λ row. bytes_eq row.0 id) (j, c) rows other, other)
        (any_of-chunks id i rows)
]

is_completed-rows :
    (db : Database) (id : Bytes) (i : ℕ)
    → is_completed db id i ≡ any_of (is_chunk id i) db.transfer_chunks
unfolding completed_transfer_chunks
is_completed-rows db id i =
    any_of-sort_by ltb (λ c. c == i) _ ∙ any_of-chunks id i db.transfer_chunks

any_of-append :
    (p : Bytes × ℕ → Bool) (xs ys : List (Bytes × ℕ))
    → any_of p (xs ++ ys) ≡ (any_of p xs || any_of p ys)
any_of-append p [] ys = refl
any_of-append p (x ∷ xs) ys = ground (arith, any_of-append p xs ys)

same_chunk :
    (id other : Bytes) (k i : ℕ) (rows : List (Bytes × ℕ))
    → bytes_eq id other ≡ true
    → (k == i) ≡ true
    → any_of (is_chunk other i) rows ≡ any_of (is_chunk id k) rows
same_chunk id other k i rows h g = rw (bytes_eq→eq id other h, ==→eq k i g)

any_of-mark_one :
    (id other : Bytes) (k i : ℕ) (rows : List (Bytes × ℕ))
    → any_of (is_chunk other i) (if any_of (is_chunk id k) rows then rows else rows ++ (id, k) ∷ [])
      ≡ (any_of (is_chunk other i) rows || (bytes_eq id other && k == i))
any_of-mark_one id other k i rows = elim (Bool-cases (any_of (is_chunk id k) rows)) [
  | inr absent ↦ rw absent (any_of-append (is_chunk other i) rows ((id, k) ∷ []) ∙ ground arith)
  | inl present ↦
      let same = same_chunk id other k i rows in rw present (ground (arith, present, same))
]

any_of-mark :
    (id other : Bytes) (i : ℕ) (is : List ℕ) (rows : List (Bytes × ℕ))
    → any_of (is_chunk other i) (mark_chunks id is rows)
      ≡ (any_of (is_chunk other i) rows || (bytes_eq id other && any_of (λ c. c == i) is))
unfolding mark_chunks
any_of-mark id other i [] rows = ground arith
any_of-mark id other i (k ∷ is) rows =
    let first = any_of-mark_one id other k i rows in
    let rest =
      any_of-mark id other i is
        (if any_of (is_chunk id k) rows then rows else rows ++ (id, k) ∷ []) in
    ground (arith, first, rest)

marked :
    (db next : Database) (id : Bytes) (is : List ℕ) (time : ℕ)
    → mark_transfer_chunks_completed db id is time ≡ ok next
    → next.transfer_chunks ≡ mark_chunks id is db.transfer_chunks
unfolding mark_transfer_chunks_completed
marked db next id is time e = ground arith

-- After a batch of chunks of a transfer is marked, the completed chunks are the old ones and those
-- of the batch, and no chunk of another transfer is added.
pub mark_transfer_chunks_completed-adds :
    (db next : Database) (id : Bytes) (is : List ℕ) (time : ℕ)
    → mark_transfer_chunks_completed db id is time ≡ ok next
    → (other : Bytes) (i : ℕ)
    → is_completed next other i
      ≡ (is_completed db other i || (bytes_eq id other && any_of (λ c. c == i) is))
mark_transfer_chunks_completed-adds db next id is time e other i =
    rw (is_completed-rows next other i, is_completed-rows db other i, marked db next id is time e)
      (any_of-mark id other i is db.transfer_chunks)
