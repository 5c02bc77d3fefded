-- ===== src/Protocol/Frame/Layout.antt =====
-- What extractInnerPacket returns on a frame laid out as its comment says.
use mcbeproxy.Base.{
  ℕ, ◌+◌, ◌*◌, ◌^◌, ◌≤◌, ◌<◌, ◌≡◌, ap, ◌∙◌, List, [], ◌∷◌, ◌++◌, arith, le→leb, lt→ltb, length,
  length-append, take, take-append,
}
use mcbeproxy.Protocol.Wire.{ok, at, be_uint}
use mcbeproxy.Protocol.Wire.Laws.{slice-ok, slice_from}
use mcbeproxy.Protocol.Frame.{byte_length, payload_offset, extract_inner_packet}

-- The frame type, the sequence number, the flags and the bit length, with what stands behind them.
abbrev pub frame : (t s0 s1 s2 flags hi lo : ℕ) → List ℕ → List ℕ
frame t s0 s1 s2 flags hi lo behind = t ∷ s0 ∷ s1 ∷ s2 ∷ flags ∷ hi ∷ lo ∷ behind

-- For every header of the size that the flags announce, and every bit length.
pub extract_inner_packet-frame :
    (t s0 s1 s2 flags hi lo : ℕ) (header body : List ℕ)
    → 7 + length header ≡ payload_offset flags
    → 0 < length body
    → extract_inner_packet (frame t s0 s1 s2 flags hi lo (header ++ body))
      ≡ ok (take (byte_length (be_uint (hi ∷ lo ∷ []))) body)
unfolding extract_inner_packet at
extract_inner_packet-frame t s0 s1 s2 flags hi lo header body h nonempty =
    rw
      (
        le→leb 4 (length whole) (omega arith),
        lt→ltb 4 (length whole) (omega arith),
        le→leb 7 (length whole) (omega arith),
        slice-ok whole 5 7 (omega arith) (omega arith),
        lt→ltb (payload_offset flags) (length whole) (omega (arith, length-append header body)),
      )
      (slice_from (frame t s0 s1 s2 flags hi lo header) body (payload_offset flags) _ (omega arith))
  where
    whole : List ℕ
    whole = frame t s0 s1 s2 flags hi lo (header ++ body)

-- A frame with a header as long as its flags announce and the bit length of its payload, of 1 to
-- 8191 bytes, gives the payload back, whatever stands behind it.
pub extract_inner_packet_exact :
    (t s0 s1 s2 flags hi lo : ℕ) (header payload rest : List ℕ)
    → 7 + length header ≡ payload_offset flags
    → 0 < length payload
    → length payload ≤ 8191
    → be_uint (hi ∷ lo ∷ []) ≡ 8 * length payload
    → extract_inner_packet (frame t s0 s1 s2 flags hi lo (header ++ (payload ++ rest))) ≡ ok payload
unfolding byte_length
extract_inner_packet_exact t s0 s1 s2 flags hi lo header payload rest h some_bytes small bits =
    extract_inner_packet-frame t s0 s1 s2 flags hi lo header (payload ++ rest) h
      (omega (arith, length-append payload rest))
    ∙ ap ok (rw (bits, byte_length) (take-append payload rest _ (omega arith)))

-- A frame with a header as long as its flags announce, some bytes behind it and a bit length from
-- 65529 on, where `bitLength + 7` wraps in uint16, is accepted with an empty packet.
pub extract_inner_packet_wraps :
    (t s0 s1 s2 flags hi lo : ℕ) (header body : List ℕ)
    → 7 + length header ≡ payload_offset flags
    → 0 < length body
    → 65529 ≤ be_uint (hi ∷ lo ∷ [])
    → be_uint (hi ∷ lo ∷ []) < 2 ^ 16
    → extract_inner_packet (frame t s0 s1 s2 flags hi lo (header ++ body)) ≡ ok []
unfolding byte_length
extract_inner_packet_wraps t s0 s1 s2 flags hi lo header body h nonempty large fits =
    extract_inner_packet-frame t s0 s1 s2 flags hi lo header body h nonempty
    ∙ ap (λ n. ok (take n body)) none_left
  where
    none_left : byte_length (be_uint (hi ∷ lo ∷ [])) ≡ 0
    none_left = omega arith
