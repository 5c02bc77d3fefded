-- ===== src/Protocol/VarInt/Write.antt =====
-- What writeVarInt writes, in plain arithmetic.
use mathlib.Core.WellFounded.{Acc}
use mcbeproxy.Base.{
  ℕ, zero, suc, ◌+◌, ◌/◌, ◌%◌, ◌^◌, ◌≤◌, ◌<◌, ◌≡◌, List, [], ◌∷◌, ◌++◌, arith, append_assoc, ltb,
  if◌then◌else◌, length, bit_and, bit_or, All,
}
use mcbeproxy.Base.Order.{lt_wf}
use mcbeproxy.Base.Bits.{low_seven, or_80}
use mcbeproxy.Protocol.Wire.{IsByte}
use mcbeproxy.Protocol.VarInt.{write_loop, write_var_int}

-- The groups of seven bits of `u`, lowest first, for `u` below 128 ^ (k + 1).
unfoldable pub groups : ℕ → ℕ → List ℕ
groups zero u = u ∷ []
groups (suc k) u =
    let rest = groups k (u / 128) in if ltb u 128 then u ∷ [] else (u % 128 + 128) ∷ rest

first_group : (u : ℕ) → bit_and u 0x7f % 256 ≡ u % 128
first_group u = rw (low_seven u) (omega arith)

inner_group : (u : ℕ) → bit_or (bit_and u 0x7f % 256) 0x80 ≡ u % 128 + 128
inner_group u = rw (first_group u) (or_80 (u % 128) (omega arith))

write_loop-groups :
    (k : ℕ) (buf : List ℕ) (u : ℕ) (w : Acc ◌<◌ u)
    → u < 128 ^ suc k
    → write_loop buf u w ≡ buf ++ groups k u
unfolding write_loop groups
write_loop-groups zero buf u (Acc.intro _ smaller) h = ground (arith, first_group u)
write_loop-groups (suc k) buf u (Acc.intro _ smaller) h =
    let head : List ℕ = (u % 128 + 128) ∷ [] in
    grind (
      arith,
      first_group u,
      inner_group u,
      λ (w : Acc ◌<◌ (u / 128)). write_loop-groups k (buf ++ head) (u / 128) w (omega arith),
      append_assoc buf head (groups k (u / 128)),
    )

-- On every int32 the buffer is kept, and the groups are appended.
pub write_var_int-groups :
    (buf : List ℕ) (u : ℕ) → u < 2 ^ 32 → write_var_int buf u ≡ buf ++ groups 4 u
unfolding write_var_int
write_var_int-groups buf u h = write_loop-groups 4 buf u (lt_wf.apply u) (omega arith)

pub groups-IsByte : (k u : ℕ) → u < 128 ^ suc k → All IsByte (groups k u)
unfolding groups
groups-IsByte zero u h = omega arith
groups-IsByte (suc k) u h = ground (arith, groups-IsByte k (u / 128) (omega arith))

pub length-groups : (k u : ℕ) → (1 ≤ length (groups k u)) × (length (groups k u) ≤ k + 1)
unfolding groups
length-groups zero u = omega arith
length-groups (suc k) u = ground (arith, length-groups k (u / 128))
