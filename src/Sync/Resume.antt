-- ===== src/Sync/Resume.antt =====
-- engine/sync/resume_request.cpp: the ranges of chunks that are still missing.
pub mod Laws
use veritas_sync_next.Prelude.{
  ◌++◌, ℕ, ◌+◌, ◌-◌, Bool, true, false, ◌||◌, Bytes, Result, ok, invalid_argument, List, [], ◌∷◌,
  if◌then◌else◌, forbid, ◌>>=◌, ◌>>◌, sort_by, any_of, ◌==◌, ltb, leb,
}
use veritas_sync_next.Protocol.Types.{ChunkRange, FileRequest}
use veritas_sync_next.Storage.Tables.{Database}
use veritas_sync_next.Storage.Transfers.{completed_transfer_chunks}

-- std::unique: of a run of equal neighbours the first stays. `last` is the one before.
unfoldable pub unique_after : ℕ → List ℕ → List ℕ
unique_after last [] = []
unique_after last (c ∷ cs) = if c == last then unique_after last cs else c ∷ unique_after c cs

unfoldable pub unique : List ℕ → List ℕ
unique [] = []
unique (c ∷ cs) = c ∷ unique_after c cs

abbrev pub uint32_max : ℕ
uint32_max = 4294967295

-- The range from `cursor` to before `chunk`, where there is a gap.
unfoldable pub gap : ℕ → ℕ → Result (List ChunkRange)
gap cursor chunk =
    if ltb cursor chunk
    then (do
      forbid (ltb uint32_max (chunk - cursor)) (invalid_argument "missing range is too large")
      ok (record { first_chunk = cursor; chunk_count = chunk - cursor } ∷ []))
    else ok []

-- completed.back() >= total, of a list that is not empty.
unfoldable pub back_reaches : ℕ → List ℕ → Bool
back_reaches total [] = false
back_reaches total (c ∷ []) = leb total c
back_reaches total (c ∷ d ∷ cs) = back_reaches total (d ∷ cs)

-- The loop over the completed chunks, and the gap after the last of them.
unfoldable pub gaps : ℕ → ℕ → List ℕ → Result (List ChunkRange)
gaps total cursor [] = gap cursor total
gaps total cursor (chunk ∷ chunks) = do
  before ← gap cursor chunk
  after ← gaps total (chunk + 1) chunks
  ok (before ++ after)

unfoldable pub missing_chunk_ranges : ℕ → List ℕ → Result (List ChunkRange)
missing_chunk_ranges total completed_chunks = do
  forbid (total == 0) (invalid_argument "transfer must contain chunks")
  let completed = unique (sort_by ltb completed_chunks)
  forbid (back_reaches total completed) (invalid_argument "completed chunk exceeds transfer size")
  gaps total 0 completed

unfoldable pub build_resume_request : Bytes → Bytes → ℕ → Database → Result FileRequest
build_resume_request transfer_id file_hash total db = do
  ranges ← missing_chunk_ranges total (completed_transfer_chunks db transfer_id)
  ok (record { transfer_id = transfer_id; file_hash = file_hash; missing_ranges = ranges })
