-- ===== src/Protocol/Manifests.antt =====
-- The MANIFEST and VERSION_MANIFEST messages of engine/common/protocol.cpp.
use veritas_sync_next.Prelude.{
  ℕ, Bool, not, ◌&&◌, ◌||◌, true, false, Bytes, Result, err, ok, invalid_argument, length, ltb,
  ◌==◌, empty?, if◌then◌else◌, Option, none, some, [],
}
use veritas_sync_next.Protocol.Types.{
  EntryKind, file, directory, tombstone, kind_code, ManifestEntry, Manifest, VersionedManifestEntry,
  VersionedManifest,
}
use veritas_sync_next.Protocol.Writer.{Put, ◌⊕◌, put_u8, put_int, put_string, put_each}
use veritas_sync_next.Protocol.Reader.{
  Reader, ◌>>=◌, ◌>>◌, pure, forbid, read_u8, read_int, read_string, read_each, run,
}
use veritas_sync_next.Protocol.Handshake.{whole}

abbrev pub max_entries : ℕ
max_entries = 1000000

unfoldable pub put_manifest_entry : ManifestEntry → Put
put_manifest_entry e = put_string e.relative_path ⊕ put_int 8 e.size ⊕ put_string e.content_hash

unfoldable pub encode_manifest : Manifest → Put
unfolding put_manifest_entry
encode_manifest m =
    if ltb max_entries (length m.entries)
    then err (invalid_argument "too many manifest entries")
    else (put_int 8 m.revision
        ⊕ put_int 4 (length m.entries)
        ⊕ put_each put_manifest_entry m.entries)

unfoldable pub read_manifest_entry : Reader ManifestEntry
read_manifest_entry = do
  path ← read_string
  size ← read_int 8
  hash ← read_string
  forbid (empty? path) (invalid_argument "empty manifest path")
  pure (record { relative_path = path; size = size; content_hash = hash })

unfoldable pub read_manifest : Reader Manifest
unfolding read_manifest_entry
read_manifest = do
  revision ← read_int 8
  count ← read_int 4
  forbid (ltb max_entries count) (invalid_argument "too many manifest entries")
  entries ← read_each read_manifest_entry count
  pure (record { revision = revision; entries = entries })

unfoldable pub decode_manifest : Bytes → Result Manifest
unfolding read_manifest whole
decode_manifest payload = run (read_manifest >>= whole) payload

abbrev pub has_value {ℓ} : {A : Type ℓ} → Option A → Bool
has_value none = false
has_value (some a) = true

abbrev pub differ : Bool → Bool → Bool
differ true b = not b
differ false b = b

-- The check that both directions make of one entry, with the kind as it stands on the wire.
unfoldable pub entry_rejected : Bytes → ℕ → ℕ → Bytes → Bytes → Bytes → Option ℕ → Bool
entry_rejected path kind size hash version origin deleted =
    empty? path
    || empty? version
    || empty? origin
    || not (kind == 1 || kind == 2 || kind == 3)
    || (kind == 1 && empty? hash)
    || (not (kind == 1) && not (empty? hash))
    || (not (kind == 1) && not (size == 0))
    || differ (kind == 3) (has_value deleted)

abbrev pub put_deleted : Option ℕ → Put
put_deleted none = ok []
put_deleted (some t) = put_int 8 t

abbrev pub deleted_flag : Option ℕ → ℕ
deleted_flag none = 0
deleted_flag (some t) = 1

unfoldable pub put_versioned_entry : VersionedManifestEntry → Put
put_versioned_entry e =
    if entry_rejected e.relative_path (kind_code e.kind) e.size e.content_hash e.version_id
      e.origin_device_id e.deleted_at_ms
    then err (invalid_argument "invalid versioned manifest entry")
    else (put_string e.relative_path
        ⊕ put_u8 (kind_code e.kind)
        ⊕ put_int 8 e.size
        ⊕ put_string e.content_hash
        ⊕ put_string e.version_id
        ⊕ put_string e.origin_device_id
        ⊕ put_int 8 e.logical_clock
        ⊕ put_string e.parent_version_id
        ⊕ put_u8 (deleted_flag e.deleted_at_ms)
        ⊕ put_deleted e.deleted_at_ms)

unfoldable pub encode_versioned_manifest : VersionedManifest → Put
unfolding put_versioned_entry
encode_versioned_manifest m =
    if ltb max_entries (length m.entries)
    then err (invalid_argument "too many versioned manifest entries")
    else (put_int 8 m.revision
        ⊕ put_int 4 (length m.entries)
        ⊕ put_each put_versioned_entry m.entries)

-- static_cast<VersionedEntryKind>(code), on the codes of the three kinds.
unfoldable pub kind_of : ℕ → EntryKind
kind_of c = if c == 1 then file else if c == 2 then directory else tombstone

unfoldable pub read_timestamp : Reader (Option ℕ)
read_timestamp = do t ← read_int 8; pure (some t)

-- The timestamp that stands behind the flag, if the flag says so.
unfoldable pub read_deleted : ℕ → Reader (Option ℕ)
unfolding read_timestamp
read_deleted flag = if flag == 1 then read_timestamp else pure none

unfoldable pub read_versioned_entry : Reader VersionedManifestEntry
read_versioned_entry = do
  path ← read_string
  kind ← read_u8
  size ← read_int 8
  hash ← read_string
  version ← read_string
  origin ← read_string
  clock ← read_int 8
  parent ← read_string
  flag ← read_u8
  forbid (ltb 1 flag) (invalid_argument "invalid tombstone timestamp flag")
  deleted ← read_deleted flag
  forbid (entry_rejected path kind size hash version origin deleted)
      (invalid_argument "invalid versioned manifest entry")
  pure (record {
    relative_path = path;
    kind = kind_of kind;
    size = size;
    content_hash = hash;
    version_id = version;
    origin_device_id = origin;
    logical_clock = clock;
    parent_version_id = parent;
    deleted_at_ms = deleted;
  })

unfoldable pub read_versioned_manifest : Reader VersionedManifest
unfolding read_versioned_entry
read_versioned_manifest = do
  revision ← read_int 8
  count ← read_int 4
  forbid (ltb max_entries count) (invalid_argument "too many versioned manifest entries")
  entries ← read_each read_versioned_entry count
  pure (record { revision = revision; entries = entries })

unfoldable pub decode_versioned_manifest : Bytes → Result VersionedManifest
unfolding read_versioned_manifest whole
decode_versioned_manifest payload = run (read_versioned_manifest >>= whole) payload
