-- ===== src/Protocol/Packets.antt =====
-- The game packets of protocol.go: disconnect, play status and transfer packets, and the
-- protocol version of a login packet. An int32 or uint16 stands for its bit pattern.
pub mod Transfer
pub mod Agreement
pub mod Panic
pub mod Version
use mcbeproxy.Base.{
  ℕ, ◌+◌, ◌-◌, ◌%◌, ◌^◌, ◌<◌, Bool, true, false, not, ◌&&◌, List, [], ◌∷◌, ◌++◌, ltb, leb, ◌==◌,
  if◌then◌else◌, length, drop,
}
use mcbeproxy.Base.Int.{ℤ, pos, negsuc, pos_part, neg_part, ltb_ℤ, sub_ℕ}
use mcbeproxy.Protocol.Wire.{
  Result, ok, err, panic, ◌>>=◌, ◌>>◌, guard, packet_too_short, invalid_packet, not_login_packet,
  not_transfer_packet, at, slice, be_uint, be_bytes, le_uint, le_bytes, id_login, id_disconnect,
  id_play_status, id_transfer,
}
use mcbeproxy.Protocol.VarInt.{write_var_int, read_var_int}
use mcbeproxy.Protocol.Frame.{is_framed_packet, extract_inner_packet}

-- `int32(len(x))`
abbrev int32_of_len : ℕ → ℕ
int32_of_len n = n % 2 ^ 32

unfoldable pub build_disconnect_packet : List ℕ → List ℕ
build_disconnect_packet message =
    write_var_int (0xfe ∷ id_disconnect ∷ 0x00 ∷ []) (int32_of_len (length message)) ++ message

unfoldable pub build_play_status_packet : ℕ → List ℕ
build_play_status_packet status = 0xfe ∷ id_play_status ∷ be_bytes 4 status

unfoldable pub build_transfer_packet : List ℕ → ℕ → List ℕ
build_transfer_packet address port =
    (write_var_int (0xfe ∷ id_transfer ∷ []) (int32_of_len (length address)) ++ address)
    ++ le_bytes 2 port

-- The id behind the game packet wrapper 0xfe, where more than the wrapper is there.
pub unwrap_id : List ℕ → ℕ → Result ℕ
unwrap_id d packet_id = if packet_id == 0xfe && ltb 1 (length d) then at d 1 else ok packet_id

-- `len(innerData) > 0`: the first byte of the inner packet, or the id as it was.
pub inner_id : List ℕ → ℕ → Result ℕ
unfolding unwrap_id
inner_id inner packet_id =
    if ltb 0 (length inner) then (do first ← at inner 0; unwrap_id inner first) else ok packet_id

unfoldable pub is_transfer_packet : List ℕ → Result Bool
unfolding unwrap_id inner_id
is_transfer_packet d = if ltb (length d) 2 then ok false else do
  first ← at d 0
  packet_id ← unwrap_id d first
  if is_framed_packet packet_id
      then elim (extract_inner_packet d) [
        | ok inner ↦ (do id ← inner_id inner packet_id; ok (id == id_transfer))
        | err e ↦ ok false
        | panic ↦ panic
      ]
      else ok (packet_id == id_transfer)

pub record TransferInfo : Type 0 where
  pub address : List ℕ
  pub port : ℕ

-- The inner packet of a frame, its id and the offset behind the id.
pub inner_head : List ℕ → ℕ → Result (List ℕ × ℕ × ℕ)
inner_head inner packet_id =
    if ltb 0 (length inner)
    then (do
      first ← at inner 0
      if first == 0xfe && ltb 1 (length inner)
          then (do id ← at inner 1; ok (inner, id, 2))
          else ok (inner, first, 1))
    else ok (inner, packet_id, 0)

-- The data, the packet id and the offset behind it, once wrapper or frame are off.
unfoldable pub transfer_head : List ℕ → Result (List ℕ × ℕ × ℕ)
unfolding inner_head
transfer_head d = do
  packet_id ← at d 0
  if packet_id == 0xfe
      then (do guard (ltb 1 (length d)) packet_too_short; id ← at d 1; ok (d, id, 2))
      else if is_framed_packet packet_id
      then (do inner ← extract_inner_packet d; inner_head inner packet_id)
      else ok (d, packet_id, 1)

-- `offset + int(addrLen)`: an int32 with the top bit set is negative.
pub int_add : ℕ → ℕ → ℤ
int_add offset pattern' =
    if ltb pattern' (2 ^ 31) then pos (offset + pattern') else sub_ℕ (offset + pattern') (2 ^ 32)

-- data[lo:hi] where `hi` may be negative.
pub slice_to : List ℕ → ℕ → ℤ → Result (List ℕ)
slice_to d lo (pos hi) = slice d lo hi
slice_to d lo (negsuc n) = panic

-- The address and the port, from the offset behind the packet id.
pub transfer_fields : List ℕ → ℕ → Result TransferInfo
transfer_fields body offset = do
  (addr_len, bytes_read) ← read_var_int body offset
  let start = offset + bytes_read
  let end' = int_add start addr_len
  guard (not (ltb_ℤ (pos (length body)) end')) packet_too_short
  address ← slice_to body start end'
  guard (leb (pos_part end' + 2) (length body)) packet_too_short
  port ← slice body (pos_part end') (pos_part end' + 2)
  ok (record { address = address; port = le_uint port })

unfoldable pub parse_transfer_packet : List ℕ → Result TransferInfo
unfolding transfer_head int_add slice_to transfer_fields
parse_transfer_packet d = do
  guard (leb 2 (length d)) packet_too_short
  (body, packet_id, offset) ← transfer_head d
  guard (packet_id == id_transfer) not_transfer_packet
  transfer_fields body offset

-- extractVersionFromLogin, extractVersionFromGamePacket and DetectProtocolVersion.
pub extract_version_from_login : List ℕ → Result ℕ
extract_version_from_login d = do
  guard (leb 5 (length d)) packet_too_short
  bytes ← slice d 1 5
  ok (be_uint bytes)

pub extract_version_from_game_packet : List ℕ → Result ℕ
unfolding extract_version_from_login
extract_version_from_game_packet d = do
  guard (leb 5 (length d)) packet_too_short
  id ← at d 0
  guard (id == id_login) not_login_packet
  extract_version_from_login d

-- The packet without its frame, and its id.
pub unframe : List ℕ → ℕ → Result (List ℕ × ℕ)
unframe d packet_id =
    if is_framed_packet packet_id
    then (do
      inner ← extract_inner_packet d
      if ltb 0 (length inner) then (do id ← at inner 0; ok (inner, id)) else ok (d, packet_id))
    else ok (d, packet_id)

unfoldable pub detect_protocol_version : List ℕ → Result ℕ
unfolding unframe extract_version_from_game_packet
detect_protocol_version d = do
  guard (leb 1 (length d)) packet_too_short
  first ← at d 0
  (body, packet_id) ← unframe d first
  if packet_id == 0xfe && ltb 1 (length body)
      then (do game ← slice body 1 (length body); extract_version_from_game_packet game)
      else if packet_id == id_login
      then extract_version_from_login body
      else err invalid_packet
