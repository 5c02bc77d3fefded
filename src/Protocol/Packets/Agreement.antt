-- ===== src/Protocol/Packets/Agreement.antt =====
-- What ParseTransferPacket accepts, IsTransferPacket recognises.
use mcbeproxy.Base.{ℕ, ◌≤◌, ◌≡◌, refl, true, List, arith, leb, leb→le, ◌==◌, ==_iff, length}
use mcbeproxy.Protocol.Wire.{
  Result, ok, err, panic, at, id_transfer, packet_too_short, not_transfer_packet,
}
use mcbeproxy.Protocol.Wire.Laws.{at-ok}
use mcbeproxy.Protocol.Wire.Success.{>>=-eq-ok, guard-eq-ok}
use mcbeproxy.Protocol.Frame.{is_framed_packet, extract_inner_packet}
use mcbeproxy.Protocol.Packets.{
  TransferInfo, parse_transfer_packet, is_transfer_packet, inner_head, inner_id, transfer_head,
}

inner_id-head :
    (inner body : List ℕ) (pid id o : ℕ)
    → inner_head inner pid ≡ ok (body, id, o)
    → inner_id inner pid ≡ ok id
unfolding inner_head inner_id
inner_id-head inner body pid id o h = ground (arith, at-ok inner 0, at-ok inner 1)

is_transfer-head :
    (d body : List ℕ) (o first second : ℕ) (r : Result (List ℕ))
    → 2 ≤ length d
    → at d 0 ≡ ok first
    → at d 1 ≡ ok second
    → extract_inner_packet d ≡ r
    → transfer_head d ≡ ok (body, id_transfer, o)
    → is_transfer_packet d ≡ ok true
unfolding transfer_head is_transfer_packet is_framed_packet
is_transfer-head d body o first second (ok inner) two e0 e1 er h =
    ground (arith, inner_id-head inner body first id_transfer o)
is_transfer-head d body o first second (err x) two e0 e1 er h = ground arith
is_transfer-head d body o first second panic two e0 e1 er h = ground arith

-- Every packet that ParseTransferPacket parses is one that IsTransferPacket says yes to.
pub is_transfer_packet-parse :
    (d : List ℕ) (info : TransferInfo)
    → parse_transfer_packet d ≡ ok info
    → is_transfer_packet d ≡ ok true
unfolding parse_transfer_packet
is_transfer_packet-parse d info h =
    let (long, h1) = guard-eq-ok (leb 2 (length d)) packet_too_short _ h in
    let ((body, id, o), eh, h2) = >>=-eq-ok (transfer_head d) _ h1 in
    let (same, h3) = guard-eq-ok (id == id_transfer) not_transfer_packet _ h2 in
    let two : 2 ≤ length d = leb→le 2 (length d) long in
    let (first, e0) = at-ok d 0 (omega arith) in
    let (second, e1) = at-ok d 1 two in
    is_transfer-head d body o first second _ two e0 e1 refl
      (rw (← (==_iff id id_transfer).0 same) eh)
