-- ===== src/Protocol/VarInt/Read.antt =====
-- What readVarInt takes, and that it reads back what writeVarInt wrote.
use native.Mathlib.Numerals.{towards_suc}
use native.Mathlib.Nat.{div-add-mod}
use mcbeproxy.Base.{
  ℕ, zero, suc, ◌+◌, ◌*◌, ◌/◌, ◌%◌, ◌^◌, ◌≤◌, ◌<◌, ◌≡◌, ◌≢◌, refl, ap, ◌∙◌, List, [], ◌∷◌, ◌++◌,
  arith, append_assoc, length, length-append, length-drop, drop, drop-append, bit_and, bit_or,
}
use mcbeproxy.Base.Bits.{and_7f, and_80, bit_or_shifted}
use mcbeproxy.Protocol.Wire.{ok, panic}
use mcbeproxy.Protocol.VarInt.{read_loop, read_var_int, write_var_int}
use mcbeproxy.Protocol.VarInt.Write.{groups, write_var_int-groups, length-groups}

-- The accumulator holds `shift` bits, so the next group lands above it.
join_group :
    (r g shift : ℕ)
    → r < 2 ^ shift
    → g * 2 ^ shift < 2 ^ 32
    → bit_or r (g * 2 ^ shift % 2 ^ 32) ≡ r + g * 2 ^ shift
join_group r g shift hr fits = ap (bit_or r) (omega arith) ∙ bit_or_shifted shift r g hr

-- One round on a byte whose top bit is clear, and on one whose top bit is set.
last_byte :
    (b r shift n : ℕ) (rest : List ℕ)
    → b < 128
    → r < 2 ^ shift
    → b * 2 ^ shift < 2 ^ 32
    → read_loop (b ∷ rest) r shift n ≡ ok (r + b * 2 ^ shift, n + 1)
unfolding read_loop
last_byte b r shift n rest hb hr fits =
    let low : bit_and b 0x7f ≡ b = and_7f b (omega arith) ∙ omega arith in
    rw low (ground (arith, and_80 b, join_group r b shift hr fits))

inner_byte :
    (g r shift n : ℕ) (rest : List ℕ)
    → g < 128
    → r < 2 ^ shift
    → g * 2 ^ shift < 2 ^ 32
    → shift < 28
    → read_loop ((g + 128) ∷ rest) r shift n
      ≡ read_loop rest (r + g * 2 ^ shift) (shift + 7) (n + 1)
unfolding read_loop
inner_byte g r shift n rest hg hr fits hs =
    let low : bit_and (g + 128) 0x7f ≡ g = and_7f (g + 128) (omega arith) ∙ omega arith in
    rw (low, join_group r g shift hr fits) (ground (arith, and_80 (g + 128)))

seven_more : (s : ℕ) → 2 ^ (s + 7) ≡ 128 * 2 ^ s
seven_more s = simp towards_suc (omega arith)

-- The lowest group of `u` and the rest of it, both shifted by `s`.
split_value : (u s : ℕ) → u * 2 ^ s ≡ u % 128 * 2 ^ s + u / 128 * 2 ^ (s + 7)
split_value u s = rw (seven_more s) (omega (arith, ap (λ (t : ℕ). t * 2 ^ s) (div-add-mod u 128)))

group-lt : (r g p : ℕ) → r < p → g < 128 → r + g * p < 128 * p
group-lt r g p h k = grind arith

-- `u` is what is still to be read, from bit `s` on; `k` more rounds may follow.
read_loop-groups :
    (k u r s n : ℕ) (rest : List ℕ)
    → s + 7 * k ≡ 28
    → u < 128 ^ suc k
    → r < 2 ^ s
    → r + u * 2 ^ s < 2 ^ 32
    → read_loop (groups k u ++ rest) r s n ≡ ok (r + u * 2 ^ s, n + length (groups k u))
unfolding groups
read_loop-groups zero u r s n rest hk hu hr fits =
    last_byte u r s n rest (omega arith) hr (omega arith)
read_loop-groups (suc k) u r s n rest hk hu hr fits = ground (
  arith,
  split_value u s,
  seven_more s,
  group-lt r (u % 128) (2 ^ s) hr,
  last_byte u r s n rest,
  inner_byte (u % 128) r s n (groups k (u / 128) ++ rest),
  read_loop-groups k (u / 128) (r + u % 128 * 2 ^ s) (s + 7) (n + 1) rest (omega arith)
      (omega arith),
)

-- An int32 that writeVarInt wrote behind any bytes is read back by readVarInt at their end, with
-- the number of its groups of seven bits as the bytes read, whatever follows it.
pub read-write_var_int :
    (buf rest : List ℕ) (u : ℕ)
    → u < 2 ^ 32
    → read_var_int (write_var_int buf u ++ rest) (length buf) ≡ ok (u, length (groups 4 u))
unfolding read_var_int
read-write_var_int buf rest u h =
    rw
      (
        write_var_int-groups buf u h,
        append_assoc buf (groups 4 u) rest,
        drop-append buf (groups 4 u ++ rest) (length buf) refl,
      )
      (ground (
        arith,
        length-append buf (groups 4 u ++ rest),
        length-append (groups 4 u) rest,
        length-groups 4 u,
        read_loop-groups 4 u 0 0 0 rest,
      ))

-- Every successful read takes one to five bytes, all of them in the data.
read_loop_takes :
    (bs : List ℕ) (r shift n v m : ℕ)
    → shift ≡ 7 * n
    → n < 5
    → read_loop bs r shift n ≡ ok (v, m)
    → (n < m) × (m ≤ 5) × (m ≤ n + length bs)
unfolding read_loop
read_loop_takes [] r shift n v m hs hn e = cc
read_loop_takes (b ∷ bs) r shift n v m hs hn e = ground (
  arith,
  read_loop_takes bs (bit_or r (bit_and b 0x7f * 2 ^ shift % 2 ^ 32)) (shift + 7) (n + 1) v m,
)

pub read_var_int_takes :
    (d : List ℕ) (o v m : ℕ) → read_var_int d o ≡ ok (v, m) → (1 ≤ m) × (m ≤ 5) × (o + m ≤ length d)
unfolding read_var_int
read_var_int_takes d o v m e = ground (arith, read_loop_takes (drop o d) 0 0 0 v m, length-drop o d)

read_loop-ne-panic : (bs : List ℕ) (r shift n : ℕ) → read_loop bs r shift n ≢ panic
unfolding read_loop
read_loop-ne-panic [] r shift n e = cc
read_loop-ne-panic (b ∷ bs) r shift n e = ground (
  arith,
  read_loop-ne-panic bs (bit_or r (bit_and b 0x7f * 2 ^ shift % 2 ^ 32)) (shift + 7) (n + 1),
)

pub read_var_int-ne-panic : (d : List ℕ) (o : ℕ) → read_var_int d o ≢ panic
unfolding read_var_int
read_var_int-ne-panic d o e = ground (arith, read_loop-ne-panic (drop o d) 0 0 0)
