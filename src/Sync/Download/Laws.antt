-- ===== src/Sync/Download/Laws.antt =====
-- What a download receiver accepts, what it writes, and what a finished download is.
use veritas_sync_next.Prelude.{
  ◌||◌, ◌&&◌, leb, ltb, assign, none, ◌==◌, subst, sym, some, Option, any_of, lookup-assign_self,
  bytes_eq→eq, ℕ, zero, suc, ◌+◌, ◌-◌, ◌*◌, ◌%◌, ◌<◌, ◌≡◌, refl, ap, ◌∙◌, Bool, true, false, Bytes,
  ok, List, [], ◌∷◌, ◌++◌, length, take, drop, replicate, get_or, set, bytes_eq, lookup, bytes_key,
  arith, take-append, drop-append, length-take, length-append, length-replicate, append_assoc,
}
use veritas_sync_next.Protocol.Types.{logical_chunk_size}
use veritas_sync_next.Storage.Tables.{Database}
use veritas_sync_next.Storage.Transfers.{mark_transfer_chunk_completed, completed_transfer_chunks}
use veritas_sync_next.Storage.Transfers.Laws.{mark_transfer_chunks_completed-adds, is_completed}
use veritas_sync_next.Sync.Download.{
  written_partial, Disk, commit, counts_from, commit_partial, mark_if, front_of, write_at,
  content_or_empty, write_partial, chunk_length, Session, accepted_chunk, accept_chunk,
}

padded-length :
    (offset : ℕ) (content padding : Bytes)
    → length padding ≡ offset - length content
    → length (take offset (content ++ padding)) ≡ offset
padded-length offset content padding h =
    length-take offset (content ++ padding) ∙ rw (length-append content padding, h) (omega arith)

front-length : (offset : ℕ) (content : Bytes) → length (front_of offset content) ≡ offset
unfolding front_of
front-length offset content =
    padded-length offset content (replicate (offset - length content) 0)
      (length-replicate {A = ℕ} (offset - length content) 0)

-- What is written is read back at its place.
read-write_at :
    (offset : ℕ) (bytes content : Bytes)
    → take (length bytes) (drop offset (write_at offset bytes content)) ≡ bytes
unfolding write_at
read-write_at offset [] content = refl
read-write_at offset (b ∷ bs) content =
    ap (λ w. take (length (b ∷ bs)) (drop offset w))
      (append_assoc (front_of offset content) (b ∷ bs) (drop (offset + length (b ∷ bs)) content))
    ∙ ap (take (length (b ∷ bs))) (
        drop-append offset (front_of offset content)
          ((b ∷ bs) ++ (drop (offset + length (b ∷ bs)) content)) (front-length offset content))
    ∙ take-append (length (b ∷ bs)) (b ∷ bs) (drop (offset + length (b ∷ bs)) content) refl

-- What stands after it stays.
after-write_at :
    (offset : ℕ) (bytes content : Bytes)
    → drop (offset + length bytes) (write_at offset bytes content)
      ≡ drop (offset + length bytes) content
unfolding write_at
after-write_at offset [] content = refl
after-write_at offset (b ∷ bs) content =
    drop-append (offset + length (b ∷ bs)) (front_of offset content ++ (b ∷ bs))
      (drop (offset + length (b ∷ bs)) content)
      (length-append (front_of offset content) (b ∷ bs)
        ∙ ap (λ n. n + length (b ∷ bs)) (front-length offset content))

-- The bytes of the partial file of a session.
abbrev pub part_of : Session → Bytes
part_of s = content_or_empty (lookup s.receiver.relative_path s.disk.parts)

get_or-set :
    (flags : List Bool) (i : ℕ) → i < length flags → get_or (set flags i true) i false ≡ true
get_or-set [] i h = absurd (omega (arith, h))
get_or-set (x ∷ xs) zero h = refl
get_or-set (x ∷ xs) (suc i) h = get_or-set xs i (omega (arith, h))

part_of-accepted :
    (s : Session) (index offset : ℕ) (bytes : Bytes) (db : Database)
    → part_of (
        accepted_chunk s index bytes db
          (written_partial s.disk s.receiver.relative_path offset bytes))
      ≡ write_at offset bytes (part_of s)
unfolding accepted_chunk written_partial
part_of-accepted s index offset bytes db =
    ap content_or_empty
      (lookup-assign_self s.receiver.relative_path (write_at offset bytes (part_of s)) s.disk.parts)

accepted_bytes :
    (s : Session) (index : ℕ) (bytes : Bytes) (db : Database) (disk : Disk)
    → (accepted_chunk s index bytes db disk).receiver.received_bytes
      ≡ s.receiver.received_bytes + length bytes
unfolding accepted_chunk
accepted_bytes s index bytes db disk = refl

mark_if-adds :
    (persist : Bool) (db next : Database) (id : Bytes) (index time : ℕ)
    → mark_if persist db id index time ≡ ok next
    → (other : Bytes) (i : ℕ)
    → is_completed next other i
      ≡ (is_completed db other i || (persist && bytes_eq id other && index == i))
unfolding mark_if mark_transfer_chunk_completed
mark_if-adds false db next id index time h other i =
    let same : db ≡ next = cc h in
    subst (λ n. is_completed n other i ≡ (is_completed db other i || false)) same (ground arith)
mark_if-adds true db next id index time h other i =
    mark_transfer_chunks_completed-adds db next id (index ∷ []) time h other i ∙ ground arith

counts_from-mem :
    (first i : ℕ) (cs : List ℕ)
    → counts_from first cs ≡ true
    → any_of (λ c. c == i) cs ≡ (leb first i && ltb i (first + length cs))
unfolding counts_from
counts_from-mem first i [] h = ground arith
counts_from-mem first i (c ∷ cs) h = ground (arith, h, counts_from-mem (first + 1) i cs)

module _ (blake3 : Bytes → Bytes) where
  accept_chunk-cases :
      (s next : Session) (index offset : ℕ) (bytes hash : Bytes) (time : ℕ) (persist : Bool)
      → accept_chunk blake3 s index offset bytes hash time persist ≡ ok (true, next)
      → (s.receiver.cancelled ≡ false)
        × (index < s.receiver.chunk_count)
        × (offset ≡ (index * logical_chunk_size) % 18446744073709551616)
        × (length bytes ≡ chunk_length s.receiver.expected_size offset)
        × (bytes_eq (blake3 bytes) hash ≡ true)
        × (get_or s.receiver.accepted index false ≡ false)
        × (mark_if persist s.db s.receiver.transfer_id index time ≡ ok next.db)
        × (next
            ≡ accepted_chunk s index bytes next.db
                (written_partial s.disk s.receiver.relative_path offset bytes))
  unfolding accept_chunk accepted_chunk write_partial
  accept_chunk-cases s next index offset bytes hash time persist e = ground arith

  -- A chunk that is accepted has the hash that came with it; it stands at its offset of the partial
  -- file, the bytes after it are as before, the received bytes grow by its length, and the
  -- completed chunks of the database are the old ones and, if it is to be persisted, this one.
  pub accept_chunk-writes :
      (s next : Session) (index offset : ℕ) (bytes hash : Bytes) (time : ℕ) (persist : Bool)
      → accept_chunk blake3 s index offset bytes hash time persist ≡ ok (true, next)
      → (blake3 bytes ≡ hash)
        × (take (length bytes) (drop offset (part_of next)) ≡ bytes)
        × (drop (offset + length bytes) (part_of next) ≡ drop (offset + length bytes) (part_of s))
        × (next.receiver.received_bytes ≡ s.receiver.received_bytes + length bytes)
        × ((other : Bytes) (i : ℕ)
            → is_completed next.db other i ≡ (
                is_completed s.db other i
                || (persist && bytes_eq s.receiver.transfer_id other && index == i)))
  accept_chunk-writes s next index offset bytes hash time persist e =
      let (_, _, _, _, h, _, marked, same) =
        accept_chunk-cases s next index offset bytes hash time persist e in
      let part = ap part_of same ∙ part_of-accepted s index offset bytes next.db in
      (
        bytes_eq→eq (blake3 bytes) hash h,
        ap (λ w. take (length bytes) (drop offset w)) part ∙ read-write_at offset bytes (part_of s),
        ap (drop (offset + length bytes)) part ∙ after-write_at offset bytes (part_of s),
        ap (λ x. x.receiver.received_bytes) same ∙ accepted_bytes s index bytes next.db _,
        mark_if-adds persist s.db next.db s.receiver.transfer_id index time marked,
      )

  accept_known :
      (s : Session) (index offset : ℕ) (bytes hash : Bytes) (time : ℕ) (persist : Bool)
      → s.receiver.cancelled ≡ false
      → index < s.receiver.chunk_count
      → offset ≡ (index * logical_chunk_size) % 18446744073709551616
      → length bytes ≡ chunk_length s.receiver.expected_size offset
      → bytes_eq (blake3 bytes) hash ≡ true
      → get_or s.receiver.accepted index false ≡ true
      → accept_chunk blake3 s index offset bytes hash time persist ≡ ok (false, s)
  unfolding accept_chunk
  accept_known s index offset bytes hash time persist h1 h2 h3 h4 h5 h6 =
      ground (arith, h1, h2, h3, h4, h5, h6)

  -- A chunk that comes again is not written again: the second time nothing changes.
  pub accept_chunk_twice :
      (s next : Session) (index offset : ℕ) (bytes hash : Bytes) (time later : ℕ) (persist : Bool)
      → length s.receiver.accepted ≡ s.receiver.chunk_count
      → accept_chunk blake3 s index offset bytes hash time persist ≡ ok (true, next)
      → accept_chunk blake3 next index offset bytes hash later persist ≡ ok (false, next)
  unfolding accepted_chunk
  accept_chunk_twice s next index offset bytes hash time later persist full e =
      let (h1, h2, h3, h4, h5, _, _, same) =
        accept_chunk-cases s next index offset bytes hash time persist e in
      subst (λ x. accept_chunk blake3 x index offset bytes hash later persist ≡ ok (false, x))
        (sym same)
        (accept_known
          (accepted_chunk s index bytes next.db
            (written_partial s.disk s.receiver.relative_path offset bytes))
          index offset bytes hash later persist h1 h2 h3 h4 h5
          (get_or-set s.receiver.accepted index (omega (arith, full, h2))))

  commit-cases :
      (s next : Session) (time : ℕ)
      → commit blake3 s time ≡ ok next
      → (length (completed_transfer_chunks s.db s.receiver.transfer_id) ≡ s.receiver.chunk_count)
        × (counts_from 0 (completed_transfer_chunks s.db s.receiver.transfer_id) ≡ true)
        × (commit_partial blake3 s.disk s.receiver.relative_path s.receiver.expected_size
              s.receiver.expected_hash
              (lookup s.receiver.relative_path s.disk.parts)
            ≡ ok next.disk)
  unfolding commit
  commit-cases s next time e = ground arith

  commit_rows :
      (disk next : Disk) (path : Bytes) (size : ℕ) (hash content : Bytes)
      → commit_partial blake3 disk path size hash (some content) ≡ ok next
      → (length content ≡ size)
        × (bytes_eq (blake3 content) hash ≡ true)
        × (next.files ≡ assign path content disk.files)
  unfolding commit_partial
  commit_rows disk next path size hash content e = ground arith

  committed :
      (disk next : Disk) (path : Bytes) (size : ℕ) (hash : Bytes) (part : Option Bytes)
      → commit_partial blake3 disk path size hash part ≡ ok next
      → (content : Bytes) × (part ≡ some content)
        × (length content ≡ size)
        × (blake3 content ≡ hash)
        × (lookup path next.files ≡ some content)
  unfolding commit_partial
  committed disk next path size hash none e = cc
  committed disk next path size hash (some content) e =
      let (small, hashed, same) = commit_rows disk next path size hash content e in
      (
        content,
        refl,
        small,
        bytes_eq→eq (blake3 content) hash hashed,
        rw same (lookup-assign_self path content disk.files),
      )

  -- A download that is committed has every chunk of the file completed, and no other; the file that
  -- it leaves at its path has the expected size and the expected hash.
  pub commit_complete :
      (s next : Session) (time : ℕ)
      → commit blake3 s time ≡ ok next
      → ((i : ℕ) → is_completed s.db s.receiver.transfer_id i ≡ ltb i s.receiver.chunk_count)
        × (content : Bytes) × (lookup s.receiver.relative_path next.disk.files ≡ some content)
        × (length content ≡ s.receiver.expected_size)
        × (blake3 content ≡ s.receiver.expected_hash)
  commit_complete s next time e =
      let (count, in_order, moved) = commit-cases s next time e in
      let (content, _, size, hash, there) =
        committed s.disk next.disk s.receiver.relative_path s.receiver.expected_size
          s.receiver.expected_hash (lookup s.receiver.relative_path s.disk.parts) moved in
      (
        λ i.
            counts_from-mem 0 i (completed_transfer_chunks s.db s.receiver.transfer_id) in_order
            ∙ ap (λ n. leb 0 i && ltb i (0 + n)) count
            ∙ ground arith,
        content,
        there,
        size,
        hash,
      )
