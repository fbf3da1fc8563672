-- ===== src/Transport/Fragments.antt =====
-- engine/transport/frame_fragments.cpp: a frame in pieces that a DataChannel takes. Times are in
-- seconds.
pub mod Laws
use veritas_sync_next.Prelude.{
  ℕ, zero, suc, ◌+◌, ◌-◌, ◌*◌, ◌/◌, ◌%◌, min, Bool, true, false, not, ◌&&◌, ◌||◌, Bytes, Result, ok,
  err, invalid_argument, length_error, List, [], ◌∷◌, ◌++◌, Option, none, some, empty?, length,
  take, drop, replicate, get_or, set, if◌then◌else◌, forbid, ◌>>=◌, ◌>>◌, ◌==◌, ltb, leb, bytes_eq,
  lookup, assign, erase, nat_key, sub64,
}
use veritas_sync_next.Protocol.Types.{max_frame_size}
use veritas_sync_next.Protocol.Writer.{le_bytes}
use veritas_sync_next.Protocol.Reader.{le_value}

abbrev pub envelope_size : ℕ
envelope_size = 20

abbrev pub fragment_payload_size : ℕ
fragment_payload_size = 16364

-- 'V', 'F', 2, 0, and the three numbers.
unfoldable pub envelope : ℕ → ℕ → ℕ → Bytes
envelope id total offset =
    b'V' ∷ b'F' ∷ 2 ∷ 0 ∷ (le_bytes 8 id ++ le_bytes 4 total ++ le_bytes 4 offset)

-- The loop over the offsets, with `fuel` rounds left; `rest` is the wire from the offset on.
unfoldable pub fragments : ℕ → ℕ → ℕ → ℕ → Bytes → List Bytes
fragments id total fuel offset [] = []
fragments id total zero offset (b ∷ bs) = []
fragments id total (suc fuel) offset (b ∷ bs) =
    (envelope id total offset ++ take fragment_payload_size (b ∷ bs))
    ∷ fragments id total fuel (offset + fragment_payload_size) (drop fragment_payload_size (b ∷ bs))

unfoldable pub fragment_frame : ℕ → Bytes → Result (List Bytes)
fragment_frame id wire = do
  forbid (id == 0 || empty? wire || ltb max_frame_size (length wire))
      (invalid_argument "invalid fragment frame")
  ok (fragments id (length wire) (length wire) 0 wire)

-- FrameReassembler::Partial and FrameReassembler.
pub record Partial : Type 0 where
  pub wire : Bytes
  pub received : List Bool
  pub count : ℕ
  pub touched : ℕ

pub record Reassembler : Type 0 where
  pub pending : List (ℕ × Partial)
  pub bytes : ℕ

-- The loop that drops what was not touched for a minute.
unfoldable pub expire : ℕ → List (ℕ × Partial) → ℕ → Reassembler
expire now [] bytes = record { pending = []; bytes = bytes }
expire now ((id, p) ∷ rest) bytes =
    let stale = ltb 60 (now - p.touched) in
    let left = expire now rest (if stale then sub64 bytes (length p.wire) else bytes) in
    if stale then left else record left { pending = (id, p) ∷ left.pending }

abbrev pub reassembly_budget : ℕ
reassembly_budget = 33554432

-- The partial frame of an id, a new one where there is none.
unfoldable pub open_partial :
    Reassembler → ℕ → ℕ → ℕ → Option Partial → Result (Partial × Reassembler)
open_partial r id total now (some p) = ok (p, r)
open_partial r id total now none = do
  forbid (leb 32 (length r.pending) || ltb (sub64 reassembly_budget r.bytes) total)
      (length_error "per-channel reassembly budget exceeded")
  ok (
    record {
      wire = replicate total 0;
      received = replicate ((total + fragment_payload_size - 1) / fragment_payload_size) false;
      count = 0;
      touched = now;
    },
    record r { bytes = r.bytes + total },
  )

-- The payload at its place, or the check that a repeated one is the same.
unfoldable pub place : Partial → ℕ → Bytes → Result Partial
place p offset payload =
    if get_or p.received (offset / fragment_payload_size) false
    then (do
      forbid (not (bytes_eq payload (take (length payload) (drop offset p.wire))))
          (invalid_argument "duplicate fragment changed bytes")
      ok p)
    else ok (record p {
      wire = take offset p.wire ++ payload ++ drop (offset + length payload) p.wire;
      received = set p.received (offset / fragment_payload_size) true;
      count = p.count + 1;
    })

-- What is left when a payload has been placed: the wire, if nothing is missing.
unfoldable pub settle : Reassembler → ℕ → ℕ → ℕ → Partial → Option Bytes × Reassembler
settle r id total now p =
    if not (p.count == length p.received)
    then (none, record r { pending = assign id (record p { touched = now }) r.pending })
    else (some p.wire, record r { pending = erase id r.pending; bytes = sub64 r.bytes total })

unfoldable pub accept_range :
    Reassembler → ℕ → ℕ → ℕ → ℕ → Bytes → Result (Option Bytes × Reassembler)
accept_range r id total offset now payload = do
  forbid
      (id == 0
        || total == 0
        || ltb max_frame_size total
        || leb total offset
        || not (offset % fragment_payload_size == 0)
        || not (length payload == min fragment_payload_size (total - offset)))
      (invalid_argument "invalid fragment range")
  let fresh = expire now r.pending r.bytes
  (p, opened) ← open_partial fresh id total now (lookup id fresh.pending)
  forbid (not (length p.wire == total)) (invalid_argument "fragment total changed")
  placed ← place p offset payload
  ok (settle opened id total now placed)

unfoldable pub accept : Reassembler → Bytes → ℕ → Result (Option Bytes × Reassembler)
accept r fragment now = do
  forbid
      (leb (length fragment) envelope_size
        || ltb (envelope_size + fragment_payload_size) (length fragment)
        || not (bytes_eq (take 4 fragment) (b'V' ∷ b'F' ∷ 2 ∷ 0 ∷ [])))
      (invalid_argument "invalid DataChannel fragment")
  accept_range r (le_value (take 8 (drop 4 fragment))) (le_value (take 4 (drop 12 fragment)))
      (le_value (take 4 (drop 16 fragment))) now (drop envelope_size fragment)
