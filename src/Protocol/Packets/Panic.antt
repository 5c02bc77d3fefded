-- ===== src/Protocol/Packets/Panic.antt =====
-- ParseTransferPacket panics exactly at the address lengths that are negative as an int32.
use mcbeproxy.Base.{
  ℕ, ◌+◌, ◌-◌, ◌^◌, ◌≤◌, ◌<◌, ◌≡◌, ◌≢◌, false, not, ◌&&◌, List, [], ◌∷◌, ◌++◌, arith, tests, ◌==◌,
  ltb, leb, le→leb, length,
}
use mcbeproxy.Base.Int.{pos, ltb_ℤ}
use mcbeproxy.Protocol.Wire.{ok, panic, at, slice, id_transfer}
use mcbeproxy.Protocol.Wire.Laws.{slice-panic}
use mcbeproxy.Protocol.Wire.Panics.{
  NoPanic, >>=-NoPanic, guard-NoPanic, if-NoPanic, at-NoPanic, slice-NoPanic,
}
use mcbeproxy.Protocol.VarInt.{write_var_int, read_var_int}
use mcbeproxy.Protocol.VarInt.Write.{groups, write_var_int-groups}
use mcbeproxy.Protocol.VarInt.Read.{read_var_int_takes, read_var_int-ne-panic}
use mcbeproxy.Protocol.Frame.{is_framed_packet, extract_inner_packet}
use mcbeproxy.Protocol.Frame.Safety.{extract_inner_packet-NoPanic}
use mcbeproxy.Protocol.Packets.{
  parse_transfer_packet, slice_to, int_add, inner_head, transfer_head, transfer_fields,
}
use mcbeproxy.Protocol.Packets.Transfer.{packet, read_packet, transfer_head-packet, int_add-pos}

inner_head-NoPanic : (inner : List ℕ) (id : ℕ) → NoPanic (inner_head inner id)
unfolding inner_head
inner_head-NoPanic inner id =
    if-NoPanic (ltb 0 (length inner)) _ _
      (λ h. >>=-NoPanic (at inner 0) _ (at-NoPanic inner 0 (omega tests)) λ first _.
        if-NoPanic (first == 0xfe && ltb 1 (length inner)) _ _
          (λ k.
            >>=-NoPanic (at inner 1) _ (at-NoPanic inner 1 (ground arith))
              λ b _ (e : ok _ ≡ panic). cc)
          λ _ (e : ok _ ≡ panic). cc)
      λ _ (e : ok _ ≡ panic). cc

transfer_head-NoPanic : (d : List ℕ) → 2 ≤ length d → NoPanic (transfer_head d)
unfolding transfer_head
transfer_head-NoPanic d two = >>=-NoPanic (at d 0) _ (at-NoPanic d 0 (omega arith)) λ id _.
    if-NoPanic (id == 0xfe) _ _
      (λ _.
        guard-NoPanic (ltb 1 (length d)) _ _
          λ _. >>=-NoPanic (at d 1) _ (at-NoPanic d 1 two) λ b _ (e : ok _ ≡ panic). cc)
      λ _.
        if-NoPanic (is_framed_packet id) _ _
          (λ _.
            >>=-NoPanic (extract_inner_packet d) _ (extract_inner_packet-NoPanic d)
              λ inner _. inner_head-NoPanic inner id)
          λ _ (e : ok _ ≡ panic). cc

transfer_fields-NoPanic :
    (body : List ℕ) (o : ℕ)
    → ((n m : ℕ) → read_var_int body o ≡ ok (n, m) → n < 2 ^ 31)
    → NoPanic (transfer_fields body o)
unfolding transfer_fields slice_to
transfer_fields-NoPanic body o small =
    >>=-NoPanic (read_var_int body o) _ (read_var_int-ne-panic body o) λ (n, m) r.
      rw (int_add-pos (o + m) n (small n m r)) (
        guard-NoPanic (not (ltb_ℤ (pos (length body)) (pos (o + m + n)))) _ _ λ h.
          >>=-NoPanic (slice body (o + m) (o + m + n)) _
            (slice-NoPanic body (o + m) (o + m + n) (omega arith) (ground arith))
            λ address _. guard-NoPanic (leb (o + m + n + 2) (length body)) _ _ λ k.
              >>=-NoPanic (slice body (o + m + n) (o + m + n + 2)) _
                (slice-NoPanic body _ _ (omega arith) (omega tests))
                λ port _ (e : ok _ ≡ panic). cc)

-- On every input whose address length, if one is read, is no negative int32, ParseTransferPacket
-- returns a value or an error and does not panic.
pub parse_transfer_packet-NoPanic :
    (d : List ℕ)
    → ((body : List ℕ) (id o n m : ℕ)
        → transfer_head d ≡ ok (body, id, o)
        → read_var_int body o ≡ ok (n, m)
        → n < 2 ^ 31)
    → parse_transfer_packet d ≢ panic
unfolding parse_transfer_packet
parse_transfer_packet-NoPanic d small = guard-NoPanic (leb 2 (length d)) _ _ λ h.
    >>=-NoPanic (transfer_head d) _ (transfer_head-NoPanic d (omega tests)) λ (body, id, o) e.
      guard-NoPanic (id == id_transfer) _ _
        λ _. transfer_fields-NoPanic body o λ n m. small body id o n m e

negative_end :
    (body : List ℕ) (o n : ℕ)
    → 2 ^ 31 ≤ n
    → n < 2 ^ 32
    → o ≤ length body
    → (ltb_ℤ (pos (length body)) (int_add o n) ≡ false) × (slice_to body o (int_add o n) ≡ panic)
unfolding int_add slice_to
negative_end body o n big fits room = ground (arith, slice-panic body o (o + n - 2 ^ 32))

-- A wrapped transfer packet whose address length is 2^31 or more, as an int32 negative, makes
-- ParseTransferPacket panic whatever bytes follow the length.
pub parse_transfer_packet_panics :
    (n : ℕ) (tail : List ℕ)
    → 2 ^ 31 ≤ n
    → n < 2 ^ 32
    → parse_transfer_packet (write_var_int (0xfe ∷ id_transfer ∷ []) n ++ tail) ≡ panic
unfolding parse_transfer_packet transfer_fields
parse_transfer_packet_panics n tail big fits =
    let read = read_packet n tail fits in
    let (before, sliced) =
      negative_end (packet n tail) (2 + length (groups 4 n)) n big fits
        (read_var_int_takes (packet n tail) 2 n (length (groups 4 n)) read).2 in
    rw (
      write_var_int-groups (0xfe ∷ id_transfer ∷ []) n fits,
      le→leb 2 (length (packet n tail)) (omega arith),
      transfer_head-packet n tail,
      read,
      before,
      sliced,
    )
