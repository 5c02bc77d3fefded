-- ===== src/Protocol/Frame.antt =====
-- The RakNet frame layer of protocol.go and raknet.go: isFramedPacket, extractInnerPacket,
-- parseFragment and GetPacketReliability. `at` and `slice` panic out of range, as Go does.
pub mod Safety
pub mod Layout
use mcbeproxy.Base.{
  ℕ, ◌+◌, ◌/◌, ◌%◌, ◌^◌, min, Bool, not, ◌&&◌, ◌||◌, List, Option, none, some, ltb, leb, ◌==◌,
  if◌then◌else◌, length, bit_and,
}
use mcbeproxy.Protocol.Wire.{
  Result, ok, err, panic, ◌>>=◌, ◌>>◌, guard, packet_too_short, invalid_fragment, at, slice,
  be_uint,
}

-- RakNet frame types are in range 0x80-0x8f.
unfoldable pub is_framed_packet : ℕ → Bool
is_framed_packet packet_id = leb 0x80 packet_id && leb packet_id 0x8f

-- The offset behind the reliable message number, the sequencing index and the ordering info.
unfoldable pub skip_headers : ℕ → ℕ → ℕ
skip_headers offset reliability =
    let o1 = if leb 2 reliability && leb reliability 4 then offset + 3 else offset in
    let o2 = if reliability == 1 || reliability == 4 then o1 + 3 else o1 in
    if reliability == 1 || reliability == 3 || reliability == 4 || reliability == 7
    then o2 + 4
    else o2

-- `(bitLength + 7) / 8` in uint16.
unfoldable pub byte_length : ℕ → ℕ
byte_length bit_length = (bit_length + 7) % 2 ^ 16 / 8

-- `(b & 0xe0) >> 5` and `(b & 0x10) != 0`.
unfoldable pub reliability_of : ℕ → ℕ
reliability_of b = bit_and b 0xe0 / 2 ^ 5

unfoldable pub has_split_flag : ℕ → Bool
has_split_flag b = not (bit_and b 0x10 == 0)

-- Where the packet itself starts.
unfoldable pub payload_offset : ℕ → ℕ
payload_offset flags =
    let behind = skip_headers 7 (reliability_of flags) in
    if has_split_flag flags then behind + 10 else behind

unfoldable pub extract_inner_packet : List ℕ → Result (List ℕ)
extract_inner_packet d = do
  guard (leb 4 (length d)) packet_too_short
  guard (ltb 4 (length d)) packet_too_short
  flags ← at d 4
  guard (leb (5 + 2) (length d)) packet_too_short
  bits ← slice d 5 7
  let offset = payload_offset flags
  guard (ltb offset (length d)) packet_too_short
  slice d offset (min (offset + byte_length (be_uint bits)) (length d))

pub record Fragment : Type 0 where
  pub split_id : ℕ
  pub split_index : ℕ
  pub split_count : ℕ
  pub content : List ℕ
  pub received : ℕ

-- `now` is the time that `Received` takes.
unfoldable pub parse_fragment : List ℕ → ℕ → Result Fragment
parse_fragment d now = do
  guard (leb 5 (length d)) packet_too_short
  frame_type ← at d 0
  guard (is_framed_packet frame_type) invalid_fragment
  guard (ltb 4 (length d)) packet_too_short
  flags ← at d 4
  guard (has_split_flag flags) invalid_fragment
  guard (leb (5 + 2) (length d)) packet_too_short
  bits ← slice d 5 7
  let offset = skip_headers 7 (reliability_of flags)
  guard (leb (offset + 10) (length d)) packet_too_short
  count ← slice d offset (offset + 4)
  id ← slice d (offset + 4) (offset + 6)
  index ← slice d (offset + 6) (offset + 10)
  payload ← slice d (offset + 10) (min (offset + 10 + byte_length (be_uint bits)) (length d))
  ok (record {
    split_id = be_uint id;
    split_index = be_uint index;
    split_count = be_uint count;
    content = payload;
    received = now;
  })

-- `none` is the -1 of a packet that is no frame.
unfoldable pub get_packet_reliability : List ℕ → Result (Option ℕ)
get_packet_reliability d = if ltb (length d) 5 then ok none else do
  packet_id ← at d 0
  if not (is_framed_packet packet_id) then ok none else do b ← at d 4; ok (some (reliability_of b))
