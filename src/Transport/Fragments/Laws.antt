-- ===== src/Transport/Fragments/Laws.antt =====
-- The fragments of a frame carry the frame.
use veritas_sync_next.Prelude.{
  ℕ, zero, suc, ◌+◌, ◌≤◌, ◌≡◌, refl, Bytes, ok, List, [], ◌∷◌, ◌++◌, length, take, drop, arith,
  length-append, length-drop, length-take, drop-append, take-append-drop, All,
}
use veritas_sync_next.Protocol.Writer.{le_bytes}
use veritas_sync_next.Protocol.RoundTrip.{length-le_bytes}
use veritas_sync_next.Transport.Fragments.{
  envelope_size, fragment_payload_size, envelope, fragments, fragment_frame,
}

-- The payloads of some fragments, one after the other.
unfoldable pub payloads : List Bytes → Bytes
payloads [] = []
payloads (f ∷ fs) = drop envelope_size f ++ payloads fs

length-envelope : (id total offset : ℕ) → length (envelope id total offset) ≡ envelope_size
unfolding envelope
length-envelope id total offset = omega (
  arith,
  length-append (le_bytes 8 id ++ le_bytes 4 total) (le_bytes 4 offset),
  length-append (le_bytes 8 id) (le_bytes 4 total),
  length-le_bytes 8 id,
  length-le_bytes 4 total,
  length-le_bytes 4 offset,
)

payloads-fragments :
    (id total fuel offset : ℕ) (rest : Bytes)
    → length rest ≤ fuel
    → payloads (fragments id total fuel offset rest) ≡ rest
unfolding payloads fragments
payloads-fragments id total fuel offset [] h = refl
payloads-fragments id total zero offset (b ∷ bs) h = absurd (omega (arith, h))
payloads-fragments id total (suc fuel) offset (b ∷ bs) h =
    rw
      (
        drop-append envelope_size (envelope id total offset) (take fragment_payload_size (b ∷ bs))
            (length-envelope id total offset),
        payloads-fragments id total fuel (offset + fragment_payload_size)
            (drop fragment_payload_size (b ∷ bs))
            (omega (arith, h, length-drop fragment_payload_size (b ∷ bs))),
      )
      (take-append-drop fragment_payload_size (b ∷ bs))

fragments-small :
    (id total fuel offset : ℕ) (rest : Bytes)
    → All (λ f. length f ≤ 16384) (fragments id total fuel offset rest)
unfolding fragments
fragments-small id total fuel offset [] = tt
fragments-small id total zero offset (b ∷ bs) = tt
fragments-small id total (suc fuel) offset (b ∷ bs) = (
  omega (
    arith,
    length-append (envelope id total offset) (take fragment_payload_size (b ∷ bs)),
    length-envelope id total offset,
    length-take fragment_payload_size (b ∷ bs),
  ),
  fragments-small id total fuel (offset + fragment_payload_size)
      (drop fragment_payload_size (b ∷ bs)),
)

-- The fragments of a frame hold all of its bytes in their order, and none is larger than the 16 KiB
-- of a DataChannel message.
pub payloads-fragment_frame :
    (id : ℕ) (wire : Bytes) (fs : List Bytes)
    → fragment_frame id wire ≡ ok fs
    → (payloads fs ≡ wire) × All (λ f. length f ≤ 16384) fs
unfolding fragment_frame
payloads-fragment_frame id wire fs e =
    let same : fs ≡ fragments id (length wire) (length wire) 0 wire = ground (arith, e) in
    rw same (
      payloads-fragments id (length wire) (length wire) 0 wire (omega arith),
      fragments-small id (length wire) (length wire) 0 wire,
    )
