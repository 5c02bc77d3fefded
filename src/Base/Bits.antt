-- ===== src/Base/Bits.antt =====
-- Masks on one byte as arithmetic, and `|` of a number with a shifted field above it.
use Prim.Native.Nat.{
  ℕ, zero, suc, ◌+◌, ◌*◌, ◌/◌, ◌%◌, ◌^◌, ◌≤◌, ◌<◌, min, max, bit_and, bit_or, digits,
  bit_or-bitwise, bit_and-bitwise,
}
use mathlib.Core.Path.{◌≡◌, refl, ap, sym, ◌∙◌}
use mathlib.Core.Bool.{Bool, true, ◌&&◌}
use native.Mathlib.Nat.{
  pow-suc, mul_comm, div-add-mod, mod-lt, mod-eq_of_lt, mul-add-mod_self_right, one-le-pow,
}
use native.Mathlib.Omega.{arith}
use mcbeproxy.Base.Tests.{◌==◌}

-- Both functions have the same value at every number below the bound.
same_below : ℕ → (ℕ → ℕ) → (ℕ → ℕ) → Bool
same_below zero f g = true
same_below (suc n) f g = f n == g n && same_below n f g

same_below→eq : (n : ℕ) (f g : ℕ → ℕ) → same_below n f g ≡ true → (x : ℕ) → x < n → f x ≡ g x
unfolding same_below
same_below→eq zero f g h x lt = absurd (omega arith)
same_below→eq (suc n) f g h x lt =
    let here : f n ≡ g n = ground arith in
    let below : same_below n f g ≡ true = ground arith in
    ground (arith, here, same_below→eq n f g below x)

-- The reliability bits, the split flag, the payload bits and the continuation bit of a byte.
pub and_e0 : (b : ℕ) → b < 256 → bit_and b 0xe0 ≡ b / 32 * 32
unfolding same_below
and_e0 = same_below→eq 256 _ _ refl

pub and_10 : (b : ℕ) → b < 256 → bit_and b 0x10 ≡ b / 16 % 2 * 16
unfolding same_below
and_10 = same_below→eq 256 _ _ refl

pub and_7f : (b : ℕ) → b < 256 → bit_and b 0x7f ≡ b % 128
unfolding same_below
and_7f = same_below→eq 256 _ _ refl

pub and_80 : (b : ℕ) → b < 256 → bit_and b 0x80 ≡ b / 128 * 128
unfolding same_below
and_80 = same_below→eq 256 _ _ refl

pub or_80 : (b : ℕ) → b < 128 → bit_or b 0x80 ≡ b + 128
unfolding same_below
or_80 = same_below→eq 128 _ _ refl

-- A remainder by a product, digit by digit.
digit-lt : (b c m r : ℕ) → b < c → r < m → b * m + r < m * c
digit-lt b c m r p q = grind arith

pub mod_split : (v m c : ℕ) → 0 < m → 0 < c → v / m % c * m + v % m ≡ v % (m * c)
mod_split v m c h k =
    sym (mod-eq_of_lt (digit-lt (v / m % c) c m (v % m) (mod-lt (v / m) k) (mod-lt v h)))
    ∙ sym (mul-add-mod_self_right (v / m / c) (m * c) _)
    ∙ ap (λ (t : ℕ). t % (m * c)) whole
  where
    whole : v / m / c * (m * c) + (v / m % c * m + v % m) ≡ v
    whole = omega (arith, div-add-mod v m, ap (λ (t : ℕ). m * t) (div-add-mod (v / m) c))

-- `&` and `|` are both folds over the binary digits, with a value `base` where the first number
-- is used up. Any fuel from the first number on gives the same value.
module _ (base : ℕ → ℕ) (join : ℕ → ℕ → ℕ) where
  digits-enough : (u m n v : ℕ) → u ≤ m → u ≤ n → digits base join m u v ≡ digits base join n u v
  digits-enough zero (suc m) (suc n) v p q = refl
  digits-enough zero (suc m) zero v p q = refl
  digits-enough zero zero (suc n) v p q = refl
  digits-enough zero zero zero v p q = refl
  digits-enough (suc u) zero n v p q = absurd (omega arith)
  digits-enough (suc u) (suc m) zero v p q = absurd (omega arith)
  digits-enough (suc u) (suc m) (suc n) v p q =
      ap (λ w. w * 2 + join (suc u % 2) (v % 2))
        (digits-enough (suc u / 2) m n (v / 2) (omega arith) (omega arith))

  -- One digit split off, with the fuel that the operations start from.
  digits-halve :
      (u v : ℕ)
      → digits base join (suc u) (suc u) v
        ≡ digits base join (suc u / 2) (suc u / 2) (v / 2) * 2 + join (suc u % 2) (v % 2)
  digits-halve u v =
      ap (λ w. w * 2 + join (suc u % 2) (v % 2))
        (digits-enough (suc u / 2) u (suc u / 2) (v / 2) (omega arith) (omega arith))

zero-bit_and : (v : ℕ) → bit_and 0 v ≡ 0
zero-bit_and = bit_and-bitwise 0

bit_and_halve : (u v : ℕ) → bit_and u v ≡ bit_and (u / 2) (v / 2) * 2 + min (u % 2) (v % 2)
bit_and_halve (suc u) v =
    bit_and-bitwise (suc u) v
    ∙ digits-halve (λ y. 0) min u v
    ∙ ap (λ w. w * 2 + min (suc u % 2) (v % 2)) (sym (bit_and-bitwise (suc u / 2) (v / 2)))
bit_and_halve zero v = omega (arith, zero-bit_and (v / 2), zero-bit_and v)

zero-bit_or : (v : ℕ) → bit_or 0 v ≡ v
zero-bit_or = bit_or-bitwise 0

bit_or_halve : (u v : ℕ) → bit_or u v ≡ bit_or (u / 2) (v / 2) * 2 + max (u % 2) (v % 2)
bit_or_halve (suc u) v =
    bit_or-bitwise (suc u) v
    ∙ digits-halve (λ y. y) max u v
    ∙ ap (λ w. w * 2 + max (suc u % 2) (v % 2)) (sym (bit_or-bitwise (suc u / 2) (v / 2)))
bit_or_halve zero v = omega (arith, zero-bit_or (v / 2), zero-bit_or v)

-- A mask of `k` low bits as a remainder.
abbrev low_mask : ℕ → ℕ
low_mask zero = 0
low_mask (suc k) = 2 * low_mask k + 1

bit_and-none : (n u : ℕ) → u < n → bit_and u 0 ≡ 0
bit_and-none zero u h = absurd (omega arith)
bit_and-none (suc n) zero h = zero-bit_and 0
bit_and-none (suc n) (suc u) h =
    let rest = bit_and-none n (suc u / 2) (omega arith) in
    bit_and_halve (suc u) 0 ∙ omega (arith, rest)

bit_and-low_mask : (k a : ℕ) → bit_and a (low_mask k) ≡ a % 2 ^ k
bit_and-low_mask zero a = omega (arith, bit_and-none (suc a) a (omega arith))
bit_and-low_mask (suc k) a =
    bit_and_halve a (low_mask (suc k))
    ∙ rw (half, bit_and-low_mask k (a / 2))
        (omega (
          arith,
          pow-suc 2 k,
          mod_split a 2 (2 ^ k) (omega arith) (one-le-pow k 2 (omega arith)),
          ap (λ (t : ℕ). a % t) (mul_comm (2 ^ k) 2),
          ap (λ (t : ℕ). a % t) (pow-suc 2 k),
        ))
  where
    half : (2 * low_mask k + 1) / 2 ≡ low_mask k
    half = omega arith

-- `u & 0x7f`
pub low_seven : (u : ℕ) → bit_and u 0x7f ≡ u % 128
low_seven = bit_and-low_mask 7

double_shift : (g k : ℕ) → g * 2 ^ suc k ≡ 2 * (g * 2 ^ k)
double_shift g k = omega (arith, ap (λ (t : ℕ). g * t) (pow-suc 2 k))

-- `low | (g << k)` is a sum when `low` has at most `k` bits.
pub bit_or_shifted : (k low g : ℕ) → low < 2 ^ k → bit_or low (g * 2 ^ k) ≡ low + g * 2 ^ k
bit_or_shifted zero zero g fits = omega (arith, zero-bit_or (g * 2 ^ 0))
bit_or_shifted zero (suc low) g fits = absurd (omega arith)
bit_or_shifted (suc k) low g fits = ground (
  arith,
  bit_or_halve low (g * 2 ^ suc k),
  double_shift g k,
  pow-suc 2 k,
  bit_or_shifted k (low / 2) g (omega (arith, pow-suc 2 k)),
)
