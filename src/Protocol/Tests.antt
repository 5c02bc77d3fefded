-- ===== src/Protocol/Tests.antt =====
-- The theorems of the protocol package on concrete packets.
use mcbeproxy.Base.{
  some, ℕ, ◌^◌, ◌<◌, ◌≡◌, ◌≢◌, refl, sym, ap, ◌∙◌, List, [], ◌∷◌, ◌++◌, arith, length,
}
use mcbeproxy.Base.Map.{lookup, insert, nat_key}
use mcbeproxy.Protocol.Wire.{Result, ok, panic, at, slice, be_uint, be_bytes, le_uint}
use mcbeproxy.Protocol.Wire.Panics.{NoPanic}
use mcbeproxy.Protocol.VarInt.{read_var_int, write_var_int}
use mcbeproxy.Protocol.VarInt.Write.{groups}
use mcbeproxy.Protocol.VarInt.Read.{read-write_var_int}
use mcbeproxy.Protocol.Frame.{
  Fragment, extract_inner_packet, is_framed_packet, payload_offset, has_split_flag, reliability_of,
  skip_headers,
}
use mcbeproxy.Protocol.Frame.Layout.{frame, extract_inner_packet_wraps}
use mcbeproxy.Protocol.Packets.{
  parse_transfer_packet, build_transfer_packet, detect_protocol_version, transfer_head,
}
use mcbeproxy.Protocol.Packets.Transfer.{parse-build_transfer_packet}
use mcbeproxy.Protocol.Packets.Panic.{parse_transfer_packet-NoPanic, parse_transfer_packet_panics}
use mcbeproxy.Protocol.Packets.Version.{
  detect_protocol_version-NoPanic, detect_protocol_version-frame,
}
use mcbeproxy.Protocol.RakNet.{RakNetHandler, handle_connection_request}
use mcbeproxy.Protocol.RakNet.Replies.{handle_connection_request-NoPanic}
use mcbeproxy.Protocol.Fragments.{FragmentAssembler, reassemble_parsed, add_fragment, gather}
use mcbeproxy.Protocol.Fragments.Reassembly.{join_latest, latest, reassemble_parsed-join}
use mcbeproxy.Protocol.Fragments.Delivery.{deliver, Agrees, add_fragment-join}
use mcbeproxy.Base.Map.{IsDistinct}

read-write_var_int_example :
    read_var_int (write_var_int (0xfe ∷ 0x55 ∷ []) 300 ++ (9 ∷ [])) 2
    ≡ ok (300, length (groups 4 300))
read-write_var_int_example = read-write_var_int (0xfe ∷ 0x55 ∷ []) (9 ∷ []) 300 (omega arith)

-- "a.b" and port 19132.
abbrev address : List ℕ
address = 97 ∷ 46 ∷ 98 ∷ []

parse-build_transfer_packet_example :
    parse_transfer_packet (build_transfer_packet address 19132)
    ≡ ok (record { address = address; port = 19132 })
parse-build_transfer_packet_example =
    parse-build_transfer_packet address 19132 (omega arith) (omega arith)

parse_transfer_packet_panics_example :
    parse_transfer_packet (write_var_int (0xfe ∷ 0x55 ∷ []) 4294967295 ++ (1 ∷ [])) ≡ panic
parse_transfer_packet_panics_example =
    parse_transfer_packet_panics 4294967295 (1 ∷ []) (omega arith) (omega arith)

-- A plain transfer packet with an address of one byte.
abbrev plain : List ℕ
plain = 0x55 ∷ 1 ∷ 97 ∷ 0xbc ∷ 0x4a ∷ []

plain_parses : parse_transfer_packet plain ≡ ok (record { address = 97 ∷ []; port = 19132 })
unfolding parse_transfer_packet read_var_int at slice le_uint is_framed_packet
plain_parses = refl

plain_head : transfer_head plain ≡ ok (plain, 0x55, 1)
unfolding transfer_head at is_framed_packet
plain_head = refl

plain_var_int : read_var_int plain 1 ≡ ok (1, 1)
unfolding read_var_int
plain_var_int = refl

abbrev value_of : {A : Type 0} → A → Result A → A
value_of a (ok b) = b
value_of a _ = a

plain_length :
    (body : List ℕ) (id o n m : ℕ)
    → transfer_head plain ≡ ok (body, id, o)
    → read_var_int body o ≡ ok (n, m)
    → n < 2 ^ 31
plain_length body id o n m h r =
    let heads : Path (List ℕ × ℕ × ℕ) (plain, 0x55, 1) (body, id, o) =
      ap (value_of ([], 0, 0)) (sym plain_head ∙ h) in
    let read : read_var_int plain 1 ≡ ok (n, m) =
      rw (ap (λ (t : List ℕ × ℕ × ℕ). t.0) heads, ap (λ (t : List ℕ × ℕ × ℕ). t.2) heads) r in
    let value : Path (ℕ × ℕ) (1, 1) (n, m) = ap (value_of (0, 0)) (sym plain_var_int ∙ read) in
    omega (arith, ap (λ (t : ℕ × ℕ). t.0) value)

parse_transfer_packet-NoPanic_example : parse_transfer_packet plain ≢ panic
parse_transfer_packet-NoPanic_example = parse_transfer_packet-NoPanic plain plain_length

detect_protocol_version-NoPanic_example :
    NoPanic (detect_protocol_version (0x84 ∷ 1 ∷ 0 ∷ 0 ∷ 0x60 ∷ []))
detect_protocol_version-NoPanic_example =
    detect_protocol_version-NoPanic (0x84 ∷ 1 ∷ 0 ∷ 0 ∷ 0x60 ∷ [])

-- A framed login packet of version 686: type, sequence number, flags 0x00, bit length 48.
detect_protocol_version-frame_example :
    detect_protocol_version
      (frame 0x84 0 0 0 0x00 0 48 ([] ++ ((0xfe ∷ 0x01 ∷ (be_bytes 4 686 ++ [])) ++ (7 ∷ []))))
    ≡ ok 686
unfolding is_framed_packet payload_offset has_split_flag skip_headers reliability_of be_uint
detect_protocol_version-frame_example =
    detect_protocol_version-frame 0x84 0 0 0 0x00 0 48 686 [] [] (7 ∷ []) (omega arith) refl refl
      (omega arith) refl

extract_inner_packet_wraps_example :
    extract_inner_packet (frame 0x84 0 0 0 0x00 0xff 0xff ([] ++ (1 ∷ 2 ∷ []))) ≡ ok []
unfolding payload_offset has_split_flag skip_headers reliability_of be_uint
extract_inner_packet_wraps_example =
    extract_inner_packet_wraps 0x84 0 0 0 0x00 0xff 0xff [] (1 ∷ 2 ∷ []) refl (omega arith)
      (omega arith) (omega arith)

abbrev handler : RakNetHandler
handler = record { server_guid = 77; server_id = 77 ∷ 67 ∷ 80 ∷ 69 ∷ [] }

handle_connection_request-NoPanic_example :
    NoPanic (handle_connection_request handler (5 ∷ 0 ∷ []) 1000)
handle_connection_request-NoPanic_example =
    handle_connection_request-NoPanic handler (5 ∷ 0 ∷ []) 1000

-- The pieces of split 5, which has two, and of split 6.
abbrev piece : ℕ → ℕ → List ℕ → Fragment
piece id index content = record {
  split_id = id;
  split_index = index;
  split_count = 2;
  content = content;
  received = 10;
}

reassemble_parsed-join_example :
    reassemble_parsed (piece 5 1 (3 ∷ []) ∷ piece 6 0 (8 ∷ []) ∷ piece 5 0 (1 ∷ 2 ∷ []) ∷ [])
    ≡ ok (1 ∷ 2 ∷ 3 ∷ [])
unfolding join_latest latest
reassemble_parsed-join_example =
    reassemble_parsed-join (piece 5 1 (3 ∷ [])) (piece 6 0 (8 ∷ []) ∷ piece 5 0 (1 ∷ 2 ∷ []) ∷ [])
      (omega arith)

-- Nothing of split 5 yet.
abbrev one_split : FragmentAssembler
one_split = record { fragments = (6, []) ∷ []; timeout = 100 }

one_split-IsDistinct : IsDistinct one_split.fragments
unfolding lookup
one_split-IsDistinct = (refl, tt)

piece-Agrees : (index : ℕ) (content : List ℕ) → index < 2 → Agrees 5 2 (piece 5 index content)
piece-Agrees index content h e = (refl, h)

add_fragment-join_example :
    (add_fragment
      (deliver one_split (piece 5 1 (3 ∷ []) ∷ piece 6 0 (8 ∷ []) ∷ piece 5 1 (3 ∷ []) ∷ []))
      (piece 5 0 (1 ∷ 2 ∷ []))).1
    ≡ ok (some (1 ∷ 2 ∷ 3 ∷ []))
unfolding join_latest latest gather insert lookup
add_fragment-join_example =
    add_fragment-join one_split (piece 5 1 (3 ∷ [])) (piece 6 0 (8 ∷ []) ∷ piece 5 1 (3 ∷ []) ∷ [])
      (piece 5 0 (1 ∷ 2 ∷ [])) one_split-IsDistinct refl
      (
        piece-Agrees 1 (3 ∷ []) (omega arith),
        ((λ e. (refl, omega arith)), (piece-Agrees 1 (3 ∷ []) (omega arith), tt)),
      )
      (piece-Agrees 0 (1 ∷ 2 ∷ []) (omega arith)) refl (omega arith) (omega arith)
