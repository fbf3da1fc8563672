-- ===== src/Storage/Ignore/Preview.antt =====
-- Preview of engine/storage/ignore_policy.cpp: what a proposal changes for the files of a task. The
-- inventory is the list of the files' paths that the walk over the task's directory answers.
use veritas_sync_next.Prelude.{
  ◌≡◌, ◌≤◌, ℕ, ◌+◌, Bool, true, false, not, ◌&&◌, List, [], ◌∷◌, ◌++◌, Bytes, Result, ok, ◌>>=◌,
  any_of, bytes_eq, ltb, bind_ok, arith, length-append, if◌then◌else◌, length,
}
use veritas_sync_next.Storage.Ignore.Rules.{IgnoreRules, create, load, is_ignored}

pub record IgnorePreview : Type 0 where
  pub scanned_files : ℕ
  pub currently_ignored : ℕ
  pub proposed_ignored : ℕ
  pub newly_ignored : ℕ
  pub newly_included : ℕ
  pub tracked_newly_ignored : ℕ
  pub truncated : Bool
  pub newly_ignored_samples : List Bytes
  pub newly_included_samples : List Bytes
  pub tracked_deletion_samples : List Bytes

abbrev pub add_sample : ℕ → Bytes → List Bytes → List Bytes
add_sample maximum path samples =
    if ltb (length samples) maximum then samples ++ path ∷ [] else samples

abbrev pub add_if : Bool → ℕ → ℕ
add_if true n = n + 1
add_if false n = n

abbrev pub tracked_loss : ℕ → Bytes → IgnorePreview → IgnorePreview
tracked_loss maximum path p = record p {
  tracked_newly_ignored = p.tracked_newly_ignored + 1;
  tracked_deletion_samples = add_sample maximum path p.tracked_deletion_samples;
}

abbrev pub loss : ℕ → Bytes → IgnorePreview → IgnorePreview
loss maximum path p = record p {
  newly_ignored = p.newly_ignored + 1;
  newly_ignored_samples = add_sample maximum path p.newly_ignored_samples;
}

abbrev pub gain : ℕ → Bytes → IgnorePreview → IgnorePreview
gain maximum path p = record p {
  newly_included = p.newly_included + 1;
  newly_included_samples = add_sample maximum path p.newly_included_samples;
}

-- The body of the loop, for what the two sets of rules say of the path.
unfoldable pub compare_verdicts : ℕ → Bool → Bytes → IgnorePreview → Bool → Bool → IgnorePreview
compare_verdicts maximum is_tracked path p was will =
    let counted = record p {
      currently_ignored = add_if was p.currently_ignored;
      proposed_ignored = add_if will p.proposed_ignored;
    } in
    if not was && will
    then if is_tracked
      then tracked_loss maximum path (loss maximum path counted)
      else loss maximum path counted
    else if was && not will
    then gain maximum path counted
    else counted

unfoldable pub preview_files :
    IgnoreRules → IgnoreRules → List Bytes → ℕ → List Bytes → IgnorePreview → Result IgnorePreview
unfolding compare_verdicts
preview_files current proposed tracked maximum [] p = ok p
preview_files current proposed tracked maximum (path ∷ rest) p = do
  was ← is_ignored current path
  will ← is_ignored proposed path
  preview_files current proposed tracked maximum rest
      (compare_verdicts maximum (any_of (bytes_eq path) tracked) path p was will)

unfoldable pub preview : Bytes → Bytes → List Bytes → ℕ → List Bytes → Bool → Result IgnorePreview
unfolding preview_files
preview current_rules proposed_rules tracked maximum inventory truncated = do
  current ← load create current_rules
  proposed ← load create proposed_rules
  preview_files current proposed tracked maximum inventory (record {
    scanned_files = length inventory;
    currently_ignored = 0;
    proposed_ignored = 0;
    newly_ignored = 0;
    newly_included = 0;
    tracked_newly_ignored = 0;
    truncated = truncated;
    newly_ignored_samples = [];
    newly_included_samples = [];
    tracked_deletion_samples = [];
  })

-- The counts of a preview, and its samples within their limit.
abbrev pub IsBalanced : ℕ → IgnorePreview → Type 0
IsBalanced maximum p =
    (p.proposed_ignored + p.newly_included ≡ p.currently_ignored + p.newly_ignored)
    × (p.tracked_newly_ignored ≤ p.newly_ignored)
    × (p.newly_ignored ≤ p.proposed_ignored)
    × (p.newly_included ≤ p.currently_ignored)
    × (length p.newly_ignored_samples ≤ maximum)
    × (length p.newly_included_samples ≤ maximum)
    × (length p.tracked_deletion_samples ≤ maximum)

length-add_sample :
    (maximum : ℕ) (path : Bytes) (samples : List Bytes)
    → length samples ≤ maximum
    → length (add_sample maximum path samples) ≤ maximum
length-add_sample maximum path samples h = grind (arith, length-append samples (path ∷ []))

IsBalanced-compare_verdicts :
    (maximum : ℕ) (path : Bytes) (p : IgnorePreview) (is_tracked was will : Bool)
    → IsBalanced maximum p
    → IsBalanced maximum (compare_verdicts maximum is_tracked path p was will)
unfolding compare_verdicts
IsBalanced-compare_verdicts maximum path p true false true (sum, tracked, new, back, ni, nb, td) = (
  omega arith,
  omega arith,
  omega arith,
  back,
  length-add_sample maximum path p.newly_ignored_samples ni,
  nb,
  length-add_sample maximum path p.tracked_deletion_samples td,
)
IsBalanced-compare_verdicts maximum path p false false true (sum, tracked, new, back, ni, nb, td) =
    (
      omega arith,
      omega arith,
      omega arith,
      back,
      length-add_sample maximum path p.newly_ignored_samples ni,
      nb,
      td,
    )
IsBalanced-compare_verdicts maximum path p is_tracked true false
      (sum, tracked, new, back, ni, nb, td) =
    (
      omega arith,
      tracked,
      new,
      omega arith,
      ni,
      length-add_sample maximum path p.newly_included_samples nb,
      td,
    )
IsBalanced-compare_verdicts maximum path p is_tracked true true
      (sum, tracked, new, back, ni, nb, td) =
    (omega arith, tracked, omega arith, omega arith, ni, nb, td)
IsBalanced-compare_verdicts maximum path p is_tracked false false h = h

IsBalanced-preview_files :
    (current proposed : IgnoreRules) (tracked : List Bytes) (maximum : ℕ) (files : List Bytes)
    (p final : IgnorePreview)
    → preview_files current proposed tracked maximum files p ≡ ok final
    → IsBalanced maximum p
    → IsBalanced maximum final
unfolding preview_files
IsBalanced-preview_files current proposed tracked maximum [] p final e h = ground (arith, e, h)
IsBalanced-preview_files current proposed tracked maximum (path ∷ rest) p final e h =
    let (was, _, after) = bind_ok (is_ignored current path) _ e in
    let (will, _, last) = bind_ok (is_ignored proposed path) _ after in
    IsBalanced-preview_files current proposed tracked maximum rest _ final last
      (IsBalanced-compare_verdicts maximum path p (any_of (bytes_eq path) tracked) was will h)

-- The counts of a preview agree: what is ignored after the proposal and what it brings back are as
-- many as what is ignored now and what it newly ignores; the tracked losses are among the new ones,
-- and no list of samples is longer than its limit.
pub preview-balance :
    (current proposed : Bytes) (tracked : List Bytes) (maximum : ℕ) (inventory : List Bytes)
    (truncated : Bool) (p : IgnorePreview)
    → preview current proposed tracked maximum inventory truncated ≡ ok p
    → IsBalanced maximum p
unfolding preview
preview-balance current proposed tracked maximum inventory truncated p e =
    let (now, _, rest) = bind_ok (load create current) _ e in
    let (next, _, last) = bind_ok (load create proposed) _ rest in
    IsBalanced-preview_files now next tracked maximum inventory _ p last (omega arith)
