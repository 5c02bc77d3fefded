-- ===== src/Protocol/RakNet.antt =====
-- The handshake of internal/protocol/raknet.go: RakNetHandler's replies to pings and connection
-- requests, and the packet classes. GUIDs and timestamps are the bit patterns of their int64, and
-- the clock's UnixMilli is an argument.
pub mod Replies
use mcbeproxy.Base.{
  ℕ, zero, suc, ◌+◌, ◌%◌, ◌^◌, Bool, false, not, ◌&&◌, ◌||◌, List, [], ◌∷◌, ◌++◌, Option, none,
  some, ltb, leb, ◌==◌, if◌then◌else◌, length,
}
use mcbeproxy.Protocol.Wire.{
  Result, ok, err, ◌>>=◌, ◌>>◌, guard, packet_too_short, invalid_packet, invalid_magic, at, slice,
  be_uint, be_bytes, bytes_equal, raknet_magic, id_unconnected_ping, id_unconnected_ping_open_conn,
  id_unconnected_pong, id_open_connection_request1, id_open_connection_reply1,
  id_open_connection_request2, id_open_connection_reply2, id_connection_request,
  id_connection_request_accept, id_new_incoming_connection, id_disconnect_notification,
}

-- The handler's fields that the replies use.
pub record RakNetHandler : Type 0 where
  pub server_guid : ℕ
  pub server_id : List ℕ

unfoldable pub update_server_id : RakNetHandler → List ℕ → RakNetHandler
update_server_id rh id = record rh { server_id = id }

unfoldable pub build_unconnected_pong : RakNetHandler → ℕ → List ℕ
build_unconnected_pong rh send_timestamp =
    id_unconnected_pong
    ∷ (be_bytes 8 send_timestamp
        ++ (be_bytes 8 rh.server_guid
            ++ (raknet_magic ++ (be_bytes 2 (length rh.server_id) ++ rh.server_id))))

unfoldable pub handle_unconnected_ping : RakNetHandler → List ℕ → Result (List ℕ)
handle_unconnected_ping rh d = do
  guard (leb 33 (length d)) packet_too_short
  packet_id ← at d 0
  guard (packet_id == id_unconnected_ping || packet_id == id_unconnected_ping_open_conn)
      invalid_packet
  magic ← slice d 9 25
  guard (bytes_equal magic raknet_magic) invalid_magic
  stamp ← slice d 1 9
  ok (build_unconnected_pong rh (be_uint stamp))

unfoldable pub build_open_connection_reply1 : RakNetHandler → ℕ → List ℕ
build_open_connection_reply1 rh mtu_size =
    id_open_connection_reply1
    ∷ (raknet_magic ++ (be_bytes 8 rh.server_guid ++ (0x00 ∷ be_bytes 2 mtu_size)))

-- `uint16(len(data) + 28)`
unfoldable pub handle_open_connection_request1 : RakNetHandler → List ℕ → Result (List ℕ)
handle_open_connection_request1 rh d = do
  guard (leb 18 (length d)) packet_too_short
  magic ← slice d 1 17
  guard (bytes_equal magic raknet_magic) invalid_magic
  ok (build_open_connection_reply1 rh ((length d + 28) % 2 ^ 16))

-- The placeholder address: family, IP and port.
abbrev placeholder_address : List ℕ
placeholder_address = 0x04 ∷ 0 ∷ 0 ∷ 0 ∷ 0 ∷ 0 ∷ 0 ∷ []

unfoldable pub build_open_connection_reply2 : RakNetHandler → ℕ → List ℕ
build_open_connection_reply2 rh mtu_size =
    id_open_connection_reply2
    ∷ (raknet_magic
        ++ (be_bytes 8 rh.server_guid
            ++ (placeholder_address ++ (be_bytes 2 mtu_size ++ (0x00 ∷ [])))))

unfoldable pub handle_open_connection_request2 : RakNetHandler → List ℕ → Result (List ℕ)
handle_open_connection_request2 rh d = do
  guard (leb 34 (length d)) packet_too_short
  magic ← slice d 1 17
  guard (bytes_equal magic raknet_magic) invalid_magic
  mtu ← slice d 24 26
  guid ← slice d 26 34
  ok (build_open_connection_reply2 rh (be_uint mtu))

-- The internal addresses, one for each round of the loop.
repeat_address : ℕ → List ℕ
repeat_address zero = []
repeat_address (suc n) = placeholder_address ++ repeat_address n

unfoldable pub build_connection_request_accepted : ℕ → ℕ → List ℕ
unfolding repeat_address
build_connection_request_accepted timestamp now =
    id_connection_request_accept
    ∷ (placeholder_address
        ++ (be_bytes 2 0 ++ (repeat_address 10 ++ (be_bytes 8 timestamp ++ be_bytes 8 now))))

unfoldable pub handle_connection_request_packet : RakNetHandler → List ℕ → ℕ → Result (List ℕ)
handle_connection_request_packet rh d now = do
  guard (leb 18 (length d)) packet_too_short
  guid ← slice d 1 9
  stamp ← slice d 9 17
  ok (build_connection_request_accepted (be_uint stamp) now)

-- HandleConnectionRequest; `ok none` is the nil response to any other packet.
unfoldable pub handle_connection_request : RakNetHandler → List ℕ → ℕ → Result (Option (List ℕ))
handle_connection_request rh d now = do
  guard (leb 1 (length d)) packet_too_short
  packet_id ← at d 0
  if packet_id == id_open_connection_request1
      then (do r ← handle_open_connection_request1 rh d; ok (some r))
      else if packet_id == id_open_connection_request2
      then (do r ← handle_open_connection_request2 rh d; ok (some r))
      else if packet_id == id_connection_request
      then (do r ← handle_connection_request_packet rh d now; ok (some r))
      else ok none

unfoldable pub is_unconnected_packet : List ℕ → Bool
is_unconnected_packet [] = false
is_unconnected_packet (packet_id ∷ _) =
    packet_id == id_unconnected_ping
    || packet_id == id_unconnected_ping_open_conn
    || packet_id == id_unconnected_pong
    || packet_id == id_open_connection_request1
    || packet_id == id_open_connection_reply1
    || packet_id == id_open_connection_request2
    || packet_id == id_open_connection_reply2

unfoldable pub is_connection_packet : List ℕ → Bool
is_connection_packet [] = false
is_connection_packet (packet_id ∷ _) =
    packet_id == id_connection_request
    || packet_id == id_connection_request_accept
    || packet_id == id_new_incoming_connection
    || packet_id == id_disconnect_notification
