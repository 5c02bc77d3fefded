-- ===== src/Protocol/Packets/Transfer.antt =====
-- BuildTransferPacket, IsTransferPacket and ParseTransferPacket against one another, and the
-- inputs at which the parser panics.
use mcbeproxy.Base.{
  ℕ, ◌+◌, ◌%◌, ◌^◌, ◌≤◌, ◌<◌, ◌≡◌, refl, List, [], ◌∷◌, ◌++◌, arith, append_assoc, append-nil,
  le→leb, le→ltb, length, length-append,
}
use mcbeproxy.Base.Int.{pos}
use mcbeproxy.Protocol.Wire.{ok, at, slice, le_bytes, id_transfer}
use mcbeproxy.Protocol.Wire.Laws.{slice_middle, length-le_bytes, le_uint-le_bytes}
use mcbeproxy.Protocol.VarInt.{read_var_int}
use mcbeproxy.Protocol.VarInt.Write.{groups, write_var_int-groups}
use mcbeproxy.Protocol.VarInt.Read.{read-write_var_int}
use mcbeproxy.Protocol.Packets.{
  build_transfer_packet, parse_transfer_packet, slice_to, int_add, transfer_head, transfer_fields,
}

-- A wrapped transfer packet with the length `n` before `tail`.
abbrev pub packet : ℕ → List ℕ → List ℕ
packet n tail = 0xfe ∷ id_transfer ∷ (groups 4 n ++ tail)

pub read_packet :
    (n : ℕ) (tail : List ℕ)
    → n < 2 ^ 32
    → read_var_int (packet n tail) 2 ≡ ok (n, length (groups 4 n))
read_packet n tail h =
    rw (write_var_int-groups (0xfe ∷ id_transfer ∷ []) n h) at
      (read-write_var_int (0xfe ∷ id_transfer ∷ []) tail n h)

build-packet :
    (address : List ℕ) (port : ℕ)
    → length address < 2 ^ 32
    → build_transfer_packet address port
      ≡ packet (length address) (address ++ (le_bytes 2 port ++ []))
unfolding build_transfer_packet
build-packet address port h =
    rw (append-nil, mod_small, write_var_int-groups (0xfe ∷ id_transfer ∷ []) (length address) h)
      (append_assoc (0xfe ∷ id_transfer ∷ groups 4 (length address)) address (le_bytes 2 port))
  where
    mod_small : length address % 2 ^ 32 ≡ length address
    mod_small = omega arith

pub transfer_head-packet :
    (n : ℕ) (tail : List ℕ) → transfer_head (packet n tail) ≡ ok (packet n tail, id_transfer, 2)
unfolding transfer_head at
transfer_head-packet n tail = ground arith

pub int_add-pos : (o n : ℕ) → n < 2 ^ 31 → int_add o n ≡ pos (o + n)
unfolding int_add
int_add-pos o n h = ground arith

-- Past a length that is no negative int32 the address is a slice.
transfer_fields-ok :
    (body address : List ℕ) (o n m : ℕ) (port : ℕ)
    → read_var_int body o ≡ ok (n, m)
    → n < 2 ^ 31
    → o + m + n + 2 ≤ length body
    → slice body (o + m) (o + m + n) ≡ ok address
    → slice body (o + m + n) (o + m + n + 2) ≡ ok (le_bytes 2 port)
    → port < 2 ^ 16
    → transfer_fields body o ≡ ok (record { address = address; port = port })
unfolding transfer_fields slice_to
transfer_fields-ok body address o n m port r small room sa sp fits = rw (
  r,
  int_add-pos (o + m) n small,
  le→ltb (length body + 0) (o + m + n + 0) (omega arith),
  sa,
  le→leb (o + m + n + 2) (length body) room,
  sp,
  le_uint-le_bytes 2 port fits,
)

-- The packet that BuildTransferPacket makes parses back to its address and port, for an address
-- below 2^31 bytes and a uint16 port.
pub parse-build_transfer_packet :
    (address : List ℕ) (port : ℕ)
    → length address < 2 ^ 31
    → port < 2 ^ 16
    → parse_transfer_packet (build_transfer_packet address port)
      ≡ ok (record { address = address; port = port })
unfolding parse_transfer_packet
parse-build_transfer_packet address port short fits =
    rw
      (
        build-packet address port (omega arith),
        le→leb 2 (length whole) (omega (arith, sizes)),
        transfer_head-packet (length address) (address ++ (le_bytes 2 port ++ [])),
      )
      (transfer_fields-ok whole address 2 (length address) (length prefix) port
        (read_packet (length address) _ (omega arith)) short (omega (arith, sizes))
        (slice_middle (0xfe ∷ id_transfer ∷ prefix) address (le_bytes 2 port ++ [])
          (2 + length prefix) _ (omega arith) refl)
        port_slice fits)
  where
    prefix : List ℕ
    prefix = groups 4 (length address)

    whole : List ℕ
    whole = packet (length address) (address ++ (le_bytes 2 port ++ []))

    sizes : length whole ≡ 2 + length prefix + length address + 2
    sizes = omega (
      arith,
      length-append prefix (address ++ (le_bytes 2 port ++ [])),
      length-append address (le_bytes 2 port ++ []),
      length-append (le_bytes 2 port) [],
      length-le_bytes 2 port,
    )

    port_slice :
        slice whole (2 + length prefix + length address) (2 + length prefix + length address + 2)
        ≡ ok (le_bytes 2 port)
    port_slice = rw (← append_assoc (0xfe ∷ id_transfer ∷ prefix) address (le_bytes 2 port ++ [])) (
        slice_middle ((0xfe ∷ id_transfer ∷ prefix) ++ address) (le_bytes 2 port) [] _ _
          (omega (arith, length-append prefix address)) (omega (arith, length-le_bytes 2 port)))
