-- ===== src/Protocol/VarInt.antt =====
-- writeVarInt and readVarInt of internal/protocol/protocol.go. An int32 stands for its uint32
-- bit pattern.
pub mod Write
pub mod Read
use mathlib.Core.Logic.{dite}
use mathlib.Core.WellFounded.{Acc}
use native.Mathlib.Decide.{dec_lt}
use mcbeproxy.Base.{
  ℕ, zero, suc, ◌+◌, ◌*◌, ◌/◌, ◌%◌, ◌^◌, ◌<◌, List, [], ◌∷◌, ◌++◌, arith, leb, ◌==◌, if◌then◌else◌,
  length, drop, bit_and, bit_or,
}
use mcbeproxy.Base.Order.{lt_wf}
use mcbeproxy.Protocol.Wire.{Result, ok, err, packet_too_short, invalid_packet}

pub shift_shrinks : (u : ℕ) → 0 < u / 128 → u / 128 < u
shift_shrinks u h = omega arith

-- One round for each group of seven bits; `uvalue >>= 7` is `u / 128`, and `byte(x)` is `x % 256`.
write_loop : List ℕ → (u : ℕ) → Acc ◌<◌ u → List ℕ
write_loop buf u (Acc.intro _ smaller) =
    let b = bit_and u 0x7f % 256 in
    dite (dec_lt 0 (u / 128))
      (λ more.
        write_loop (buf ++ (bit_or b 0x80 ∷ [])) (u / 128) (smaller _ (shift_shrinks u more)))
      (λ _. buf ++ (b ∷ []))

unfoldable pub write_var_int : List ℕ → ℕ → List ℕ
unfolding write_loop
write_var_int buf value = write_loop buf value (lt_wf.apply value)

-- The list is `data[offset+bytesRead:]`; the index is out of range when it is empty.
read_loop : List ℕ → ℕ → ℕ → ℕ → Result (ℕ × ℕ)
read_loop [] result shift bytes_read = err packet_too_short
read_loop (b ∷ rest) result shift bytes_read =
    let result' = bit_or result (bit_and b 0x7f * 2 ^ shift % 2 ^ 32) in
    let more = read_loop rest result' (shift + 7) (bytes_read + 1) in
    if bit_and b 0x80 == 0
    then ok (result', bytes_read + 1)
    else if leb 35 (shift + 7)
    then err invalid_packet
    else more

-- The value's bit pattern and the number of bytes read.
unfoldable pub read_var_int : List ℕ → ℕ → Result (ℕ × ℕ)
unfolding read_loop
read_var_int data' offset =
    if leb (length data') offset then err packet_too_short else read_loop (drop offset data') 0 0 0
