-- ===== src/Protocol/ManifestLaws.antt =====
-- Manifests and versioned manifests survive the wire.
use veritas_sync_next.Prelude.{
  ℕ, ◌≡◌, ◌<◌, ◌^◌, refl, false, Bytes, ok, arith, List, Option, none, some, length, ltb, empty?,
  All, [], ◌∷◌,
}
use veritas_sync_next.Protocol.Types.{
  EntryKind, file, directory, tombstone, kind_code, ManifestEntry, Manifest, VersionedManifestEntry,
  VersionedManifest,
}
use veritas_sync_next.Protocol.Writer.{put_u8, put_int, put_string, put_each}
use veritas_sync_next.Protocol.Reader.{read_u8, read_int, read_string, read_each, finish}
use veritas_sync_next.Protocol.RoundTrip.{
  Reads, Reads-seq, Reads-last, Reads-forbid, Reads-end, Reads-unless, run-Reads, string-Reads,
  u8-Reads, int-Reads, each-Reads,
}
use veritas_sync_next.Protocol.Handshake.{whole}
use veritas_sync_next.Protocol.Manifests.{
  max_entries, put_manifest_entry, encode_manifest, read_manifest_entry, read_manifest,
  decode_manifest, put_deleted, deleted_flag, put_versioned_entry, encode_versioned_manifest,
  kind_of, read_timestamp, read_deleted, read_versioned_entry, read_versioned_manifest,
  decode_versioned_manifest,
}

abbrev pub IsU64 : ℕ → Type 0
IsU64 n = n < 256 ^ 8

-- A sender's entry: a path, and a size of 64 bits.
abbrev pub IsEntry : ManifestEntry → Type 0
IsEntry e = (empty? e.relative_path ≡ false) × IsU64 e.size

manifest_entry-Reads :
    (e : ManifestEntry) → IsEntry e → Reads (put_manifest_entry e) read_manifest_entry e
unfolding put_manifest_entry read_manifest_entry
manifest_entry-Reads e h =
    Reads-seq (put_string e.relative_path) _ read_string _ e.relative_path _
      (string-Reads e.relative_path)
      (Reads-seq (put_int 8 e.size) _ (read_int 8) _ e.size _ (int-Reads 8 e.size h.1) (
        Reads-end (put_string e.content_hash) read_string _ e.content_hash e
          (string-Reads e.content_hash) (λ rest. rw h.0)))

manifest_entries-Reads :
    (es : List ManifestEntry)
    → All IsEntry es
    → All (λ e. Reads (put_manifest_entry e) read_manifest_entry e) es
manifest_entries-Reads [] h = tt
manifest_entries-Reads (e ∷ es) h = (manifest_entry-Reads e h.0, manifest_entries-Reads es h.1)

abbrev pub IsManifest : Manifest → Type 0
IsManifest m = IsU64 m.revision × All IsEntry m.entries

manifest-Reads : (m : Manifest) → IsManifest m → Reads (encode_manifest m) read_manifest m
unfolding encode_manifest read_manifest
manifest-Reads m h = Reads-unless (ltb max_entries (length m.entries)) _ _ read_manifest m λ fits.
    Reads-seq (put_int 8 m.revision) _ (read_int 8) _ m.revision _ (int-Reads 8 m.revision h.0) (
      Reads-seq (put_int 4 (length m.entries)) _ (read_int 4) _ (length m.entries) _
        (int-Reads 4 (length m.entries) (ground arith))
        (Reads-forbid _ _ _ _ m fits (
          Reads-last (put_each put_manifest_entry m.entries)
            (read_each read_manifest_entry (length m.entries)) _ m.entries
            (each-Reads put_manifest_entry read_manifest_entry m.entries
              (manifest_entries-Reads m.entries h.1)))))

-- A manifest whose entries have paths is read back, with its entries in order.
pub decode-encode_manifest :
    (m : Manifest) (wire : Bytes)
    → IsManifest m
    → encode_manifest m ≡ ok wire
    → decode_manifest wire ≡ ok m
unfolding decode_manifest whole finish
decode-encode_manifest m wire h e =
    run-Reads (encode_manifest m) read_manifest whole m m wire (manifest-Reads m h) e refl

-- The numbers of an entry are of 64 bits.
pub record IsVersioned (e : VersionedManifestEntry) : Type 0 where
  pub size : IsU64 e.size
  pub clock : IsU64 e.logical_clock
  pub deleted : (t : ℕ) → e.deleted_at_ms ≡ some t → IsU64 t

kind_of-kind_code : (k : EntryKind) → kind_of (kind_code k) ≡ k
unfolding kind_of kind_code
kind_of-kind_code file = refl
kind_of-kind_code directory = refl
kind_of-kind_code tombstone = refl

deleted_flag_small : (d : Option ℕ) → ltb 1 (deleted_flag d) ≡ false
deleted_flag_small none = refl
deleted_flag_small (some t) = refl

deleted-Reads :
    (d : Option ℕ)
    → ((t : ℕ) → d ≡ some t → IsU64 t)
    → Reads (put_deleted d) (read_deleted (deleted_flag d)) d
unfolding read_deleted read_timestamp
deleted-Reads none h bs rest e = let nothing : bs ≡ [] = cc in rw nothing
deleted-Reads (some t) h bs rest e =
    Reads-last (put_int 8 t) (read_int 8) some t (int-Reads 8 t (h t refl)) bs rest e

versioned_entry-Reads :
    (e : VersionedManifestEntry)
    → IsVersioned e
    → Reads (put_versioned_entry e) read_versioned_entry e
unfolding put_versioned_entry read_versioned_entry
versioned_entry-Reads e h = Reads-unless _ _ _ read_versioned_entry e λ accepted.
    Reads-seq (put_string e.relative_path) _ read_string _ e.relative_path _
      (string-Reads e.relative_path)
      (Reads-seq (put_u8 (kind_code e.kind)) _ read_u8 _ (kind_code e.kind) _
        (u8-Reads (kind_code e.kind))
        (Reads-seq (put_int 8 e.size) _ (read_int 8) _ e.size _ (int-Reads 8 e.size h.size) (
          Reads-seq (put_string e.content_hash) _ read_string _ e.content_hash _
            (string-Reads e.content_hash)
            (Reads-seq (put_string e.version_id) _ read_string _ e.version_id _
              (string-Reads e.version_id)
              (Reads-seq (put_string e.origin_device_id) _ read_string _ e.origin_device_id _
                (string-Reads e.origin_device_id)
                (Reads-seq (put_int 8 e.logical_clock) _ (read_int 8) _ e.logical_clock _
                  (int-Reads 8 e.logical_clock h.clock)
                  (Reads-seq (put_string e.parent_version_id) _ read_string _ e.parent_version_id _
                    (string-Reads e.parent_version_id)
                    (Reads-seq (put_u8 (deleted_flag e.deleted_at_ms)) _ read_u8 _
                      (deleted_flag e.deleted_at_ms) _ (u8-Reads (deleted_flag e.deleted_at_ms))
                      (Reads-forbid _ _ _ _ e (deleted_flag_small e.deleted_at_ms) (
                        Reads-end (put_deleted e.deleted_at_ms)
                          (read_deleted (deleted_flag e.deleted_at_ms)) _ e.deleted_at_ms e
                          (deleted-Reads e.deleted_at_ms h.deleted)
                          (λ rest. rw (accepted, kind_of-kind_code e.kind))))))))))))

versioned_entries-Reads :
    (es : List VersionedManifestEntry)
    → All IsVersioned es
    → All (λ e. Reads (put_versioned_entry e) read_versioned_entry e) es
versioned_entries-Reads [] h = tt
versioned_entries-Reads (e ∷ es) h = (versioned_entry-Reads e h.0, versioned_entries-Reads es h.1)

abbrev pub IsVersionedManifest : VersionedManifest → Type 0
IsVersionedManifest m = IsU64 m.revision × All IsVersioned m.entries

versioned_manifest-Reads :
    (m : VersionedManifest)
    → IsVersionedManifest m
    → Reads (encode_versioned_manifest m) read_versioned_manifest m
unfolding encode_versioned_manifest read_versioned_manifest
versioned_manifest-Reads m h =
    Reads-unless (ltb max_entries (length m.entries)) _ _ read_versioned_manifest m λ fits.
      Reads-seq (put_int 8 m.revision) _ (read_int 8) _ m.revision _ (int-Reads 8 m.revision h.0) (
        Reads-seq (put_int 4 (length m.entries)) _ (read_int 4) _ (length m.entries) _
          (int-Reads 4 (length m.entries) (ground arith))
          (Reads-forbid _ _ _ _ m fits (
            Reads-last (put_each put_versioned_entry m.entries)
              (read_each read_versioned_entry (length m.entries)) _ m.entries
              (each-Reads put_versioned_entry read_versioned_entry m.entries
                (versioned_entries-Reads m.entries h.1)))))

-- Every versioned manifest that can be sent, tombstones included, is read back unchanged, where its
-- numbers fit the 64 bits of their fields.
pub decode-encode_versioned_manifest :
    (m : VersionedManifest) (wire : Bytes)
    → IsVersionedManifest m
    → encode_versioned_manifest m ≡ ok wire
    → decode_versioned_manifest wire ≡ ok m
unfolding decode_versioned_manifest whole finish
decode-encode_versioned_manifest m wire h e =
    run-Reads (encode_versioned_manifest m) read_versioned_manifest whole m m wire
      (versioned_manifest-Reads m h) e refl
