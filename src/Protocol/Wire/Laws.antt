-- ===== src/Protocol/Wire/Laws.antt =====
-- Laws of indexing, slicing and the byte orders.
use native.Mathlib.Nat.{mul-add-div_right, div-eq_of_lt, one-le-pow, pow-suc}
use mcbeproxy.Base.{
  min, ℕ, zero, suc, ◌+◌, ◌-◌, ◌*◌, ◌/◌, ◌%◌, ◌^◌, ◌≤◌, ◌<◌, ◌≡◌, refl, ap, ap₂, ◌∙◌, List, [], ◌∷◌,
  ◌++◌, arith, length, get_elem?-lt, take, drop, take-append, drop-append, All, length-append,
}
use mcbeproxy.Base.Bits.{mod_split}
use mcbeproxy.Protocol.Wire.{ok, panic, at, slice, be_uint, be_bytes, le_uint, le_bytes, IsByte}

pub at-ok : (d : List ℕ) (i : ℕ) → i < length d → (b : ℕ) × (at d i ≡ ok b)
unfolding at
at-ok d i h = let (b, e) = get_elem?-lt d i h in (b, rw (e, at))

pub slice-ok :
    (d : List ℕ) (lo hi : ℕ)
    → lo ≤ hi
    → hi ≤ length d
    → slice d lo hi ≡ ok (take (hi - lo) (drop lo d))
unfolding slice
slice-ok d lo hi p q = ground arith

pub slice-panic : (d : List ℕ) (lo hi : ℕ) → hi < lo → slice d lo hi ≡ panic
unfolding slice
slice-panic d lo hi p = ground arith

-- A slice that starts behind `xs` and is as long as `ys`.
pub slice_middle :
    (xs ys zs : List ℕ) (lo hi : ℕ)
    → lo ≡ length xs
    → hi ≡ lo + length ys
    → slice (xs ++ (ys ++ zs)) lo hi ≡ ok ys
slice_middle xs ys zs lo hi p q =
    slice-ok (xs ++ (ys ++ zs)) lo hi (omega arith)
      (omega (arith, length-append xs (ys ++ zs), length-append ys zs))
    ∙ ap ok (rw (drop-append xs (ys ++ zs) lo p) (take-append ys zs (hi - lo) (omega arith)))

pub at-append :
    (xs : List ℕ) (y : ℕ) (ys : List ℕ) (i : ℕ) → i ≡ length xs → at (xs ++ (y ∷ ys)) i ≡ ok y
unfolding at
at-append [] y ys zero h = refl
at-append [] y ys (suc i) h = absurd (omega arith)
at-append (x ∷ xs) y ys zero h = absurd (omega arith)
at-append (x ∷ xs) y ys (suc i) h = at-append xs y ys i (omega arith)

pub length-be_bytes : (k v : ℕ) → length (be_bytes k v) ≡ k
unfolding be_bytes
length-be_bytes zero v = refl
length-be_bytes (suc k) v = ap suc (length-be_bytes k v)

pub length-le_bytes : (k v : ℕ) → length (le_bytes k v) ≡ k
unfolding le_bytes
length-le_bytes zero v = refl
length-le_bytes (suc k) v = ap suc (length-le_bytes k (v / 256))

mul-lt_256 : (b m r : ℕ) → b < 256 → r < m → b * m + r < m * 256
mul-lt_256 b m r p q = grind arith

-- Reading what was written gives the value back, cut to the width.
pub be_uint-be_bytes : (k v : ℕ) → be_uint (be_bytes k v) ≡ v % 256 ^ k
unfolding be_uint be_bytes
be_uint-be_bytes zero v = omega arith
be_uint-be_bytes (suc k) v =
    rw (length-be_bytes k v, be_uint-be_bytes k v, pow-suc 256 k)
      (mod_split v (256 ^ k) 256 (one-le-pow k 256 (omega arith)) (omega arith))

pub be_uint-lt : (bs : List ℕ) → All IsByte bs → be_uint bs < 256 ^ length bs
unfolding be_uint
be_uint-lt [] h = omega arith
be_uint-lt (b ∷ bs) h = omega (
  arith,
  pow-suc 256 (length bs),
  mul-lt_256 b (256 ^ length bs) (be_uint bs) h.0 (be_uint-lt bs h.1),
)

-- Writing what was read gives the bytes back.
shift_digit : (k v : ℕ) → v * 256 ^ suc k ≡ v * 256 * 256 ^ k
shift_digit k v = omega (arith, ap (λ (t : ℕ). v * t) (pow-suc 256 k))

digit_mod : (w m p v : ℕ) → 0 < p → w ≡ v * 256 → (w * p + m) / p % 256 ≡ m / p % 256
digit_mod w m p v h e = rw (mul-add-div_right h w m) (omega arith)

digit_head : (b p r : ℕ) → b < 256 → r < p → (b * p + r) / p % 256 ≡ b
digit_head b p r hb hr =
    rw (mul-add-div_right {m = p} (omega arith) b r, div-eq_of_lt hr) (omega arith)

be_bytes-mod : (k v m : ℕ) → be_bytes k (v * 256 ^ k + m) ≡ be_bytes k m
unfolding be_bytes
be_bytes-mod zero v m = refl
be_bytes-mod (suc k) v m = rw (shift_digit k v) (
    ap₂ ◌∷◌ (digit_mod (v * 256) m (256 ^ k) v (one-le-pow k 256 (omega arith)) refl)
      (be_bytes-mod k (v * 256) m))

pub be_bytes-be_uint : (bs : List ℕ) → All IsByte bs → be_bytes (length bs) (be_uint bs) ≡ bs
unfolding be_uint be_bytes
be_bytes-be_uint [] h = refl
be_bytes-be_uint (b ∷ bs) h =
    ap₂ ◌∷◌ (digit_head b (256 ^ length bs) (be_uint bs) h.0 (be_uint-lt bs h.1))
      (be_bytes-mod (length bs) b (be_uint bs) ∙ be_bytes-be_uint bs h.1)

pub le_uint-le_bytes : (k v : ℕ) → v < 256 ^ k → le_uint (le_bytes k v) ≡ v
unfolding le_uint le_bytes
le_uint-le_bytes zero v h = omega arith
le_uint-le_bytes (suc k) v h =
    omega (arith, pow-suc 256 k, le_uint-le_bytes k (v / 256) (omega (arith, pow-suc 256 k)))

take-min : {A : Type 0} (n m : ℕ) (xs : List A) → m ≡ min n (length xs) → take m xs ≡ take n xs
take-min zero zero xs h = refl
take-min zero (suc m) xs h = absurd (omega arith)
take-min (suc n) zero [] h = refl
take-min (suc n) zero (x ∷ xs) h = absurd (omega arith)
take-min (suc n) (suc m) [] h = refl
take-min (suc n) (suc m) (x ∷ xs) h = ap (◌∷◌ x) (take-min n m xs (omega arith))

-- A slice of at most `n` bytes from behind `front`.
pub slice_from :
    (front body : List ℕ) (o n : ℕ)
    → o ≡ length front
    → slice (front ++ body) o (min (o + n) (length (front ++ body))) ≡ ok (take n body)
slice_from front body o n h =
    slice-ok (front ++ body) o (min (o + n) (length (front ++ body)))
      (omega (arith, length-append front body)) (omega arith)
    ∙ ap ok (
        rw (drop-append front body o h)
          (take-min n _ body (omega (arith, length-append front body))))
