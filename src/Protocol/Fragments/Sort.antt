-- ===== src/Protocol/Fragments/Sort.antt =====
-- Sorting distinct indices below a bound: if there are as many as the bound, it is the range.
use mcbeproxy.Base.{
  ℕ, zero, suc, ◌+◌, ◌≤◌, ◌<◌, ◌≡◌, ◌≢◌, refl, ap, ap₂, ◌∙◌, true, false, List, [], ◌∷◌, arith, leb,
  if◌then◌else◌, length, All,
}
use native.Mathlib.Decide.{dec_lt}
use mcbeproxy.Protocol.Fragments.{insert_index, sort_indices}

-- The numbers from `i` on, `n` of them.
abbrev pub range_from : ℕ → ℕ → List ℕ
range_from i zero = []
range_from i (suc n) = i ∷ range_from (i + 1) n

-- Every element is at least `i`, and each is below the next.
abbrev pub Ascends : ℕ → List ℕ → Type 0
Ascends i [] = Unit
Ascends i (j ∷ js) = (i ≤ j) × Ascends (j + 1) js

Ascends-weaken : (i k : ℕ) (js : List ℕ) → k ≤ i → Ascends i js → Ascends k js
Ascends-weaken i k [] h a = tt
Ascends-weaken i k (j ∷ js) h a = (omega arith, a.1)

abbrev pub Lacks : ℕ → List ℕ → Type 0
Lacks i = All (λ j. i ≢ j)

insert_index-Ascends :
    (lo i : ℕ) (js : List ℕ) → lo ≤ i → Lacks i js → Ascends lo js → Ascends lo (insert_index i js)
unfolding insert_index
insert_index-Ascends lo i [] h l a = (h, tt)
insert_index-Ascends lo i (j ∷ js) h l a =
    ground (arith, insert_index-Ascends (j + 1) i js, Ascends-weaken j (i + 1) (j ∷ js))

insert_index-Lacks : (k i : ℕ) (js : List ℕ) → k ≢ i → Lacks k js → Lacks k (insert_index i js)
unfolding insert_index
insert_index-Lacks k i [] h l = (h, tt)
insert_index-Lacks k i (j ∷ js) h l = ground (arith, insert_index-Lacks k i js h)

sort_indices-Lacks : (k : ℕ) (js : List ℕ) → Lacks k js → Lacks k (sort_indices js)
unfolding sort_indices
sort_indices-Lacks k [] l = tt
sort_indices-Lacks k (j ∷ js) l =
    insert_index-Lacks k j (sort_indices js) l.0 (sort_indices-Lacks k js l.1)

insert_index-Lacks_back : (k i : ℕ) (js : List ℕ) → Lacks k (insert_index i js) → Lacks k (i ∷ js)
unfolding insert_index
insert_index-Lacks_back k i [] l = l
insert_index-Lacks_back k i (j ∷ js) l = ground (arith, insert_index-Lacks_back k i js)

pub sort_indices-Lacks_back : (k : ℕ) (js : List ℕ) → Lacks k (sort_indices js) → Lacks k js
unfolding sort_indices
sort_indices-Lacks_back k [] l = tt
sort_indices-Lacks_back k (j ∷ js) l =
    let both = insert_index-Lacks_back k j (sort_indices js) l in
    (both.0, sort_indices-Lacks_back k js both.1)

-- No index twice.
abbrev pub Differ : List ℕ → Type 0
Differ [] = Unit
Differ (j ∷ js) = Lacks j js × Differ js

pub sort_indices-Ascends : (js : List ℕ) → Differ js → Ascends 0 (sort_indices js)
unfolding sort_indices
sort_indices-Ascends [] d = tt
sort_indices-Ascends (j ∷ js) d =
    insert_index-Ascends 0 j (sort_indices js) (omega arith) (sort_indices-Lacks j js d.0)
      (sort_indices-Ascends js d.1)

insert_index-All :
    (P : ℕ → Type 0) (i : ℕ) (js : List ℕ) → P i → All P js → All P (insert_index i js)
unfolding insert_index
insert_index-All P i [] p h = (p, tt)
insert_index-All P i (j ∷ js) p h =
    elim (leb i j) as (λ b. All P (if b then i ∷ j ∷ js else j ∷ insert_index i js)) [
      | true ↦ (p, h)
      | false ↦ (h.0, insert_index-All P i js p h.1)
    ]

pub sort_indices-All : (P : ℕ → Type 0) (js : List ℕ) → All P js → All P (sort_indices js)
unfolding sort_indices
sort_indices-All P [] h = tt
sort_indices-All P (j ∷ js) h =
    insert_index-All P j (sort_indices js) h.0 (sort_indices-All P js h.1)

length-insert_index : (i : ℕ) (js : List ℕ) → length (insert_index i js) ≡ length js + 1
unfolding insert_index
length-insert_index i [] = omega arith
length-insert_index i (j ∷ js) = ground (arith, length-insert_index i js)

pub length-sort_indices : (js : List ℕ) → length (sort_indices js) ≡ length js
unfolding sort_indices
length-sort_indices [] = refl
length-sort_indices (j ∷ js) =
    omega (arith, length-insert_index j (sort_indices js), length-sort_indices js)

-- The pigeonhole: below `n` there is room for `n - lo` indices from `lo` on.
pub Ascends-le :
    (lo n : ℕ) (js : List ℕ) → lo ≤ n → Ascends lo js → All (λ j. j < n) js → lo + length js ≤ n
Ascends-le lo n [] h a b = omega arith
Ascends-le lo n (j ∷ js) h a b = omega (arith, Ascends-le (j + 1) n js (omega arith) a.1 b.1)

pub Ascends-range :
    (lo n : ℕ) (js : List ℕ)
    → Ascends lo js
    → All (λ j. j < n) js
    → lo + length js ≡ n
    → js ≡ range_from lo (length js)
Ascends-range lo n [] a b e = refl
Ascends-range lo n (j ∷ js) a b e = ap₂ ◌∷◌ first (
    Ascends-range (j + 1) n js a.1 b.1 (omega (arith, first))
    ∙ ap (λ k. range_from (k + 1) (length js)) first)
  where
    first : j ≡ lo
    first = omega (arith, Ascends-le (j + 1) n js (omega arith) a.1 b.1)

Ascends-Lacks : (lo i : ℕ) (js : List ℕ) → i < lo → Ascends lo js → Lacks i js
Ascends-Lacks lo i [] h a = tt
Ascends-Lacks lo i (j ∷ js) h a = (omega arith, Ascends-Lacks (j + 1) i js (omega arith) a.1)

-- And where no index from `lo` up to `n` is lacking, there are that many.
pub Ascends-covers :
    (lo n : ℕ) (js : List ℕ)
    → Ascends lo js
    → ((i : ℕ) → lo ≤ i → i < n → ¬ Lacks i js)
    → n ≤ lo + length js
Ascends-covers lo n [] a c = elim (dec_lt lo n) [
  | yes h ↦ absurd (c lo (omega arith) h tt)
  | no h ↦ omega arith
]
Ascends-covers lo n (j ∷ js) a c = elim (dec_lt lo n) [
  | yes h ↦
      (let first : j ≡ lo = elim (dec_lt lo j) [
        | yes later ↦
            absurd
              (c lo (omega arith) h (omega arith, Ascends-Lacks (j + 1) lo js (omega arith) a.1))
        | no here ↦ omega arith
      ] in
        omega (
          arith,
          Ascends-covers (j + 1) n js a.1 (λ i p q l. c i (omega arith) q (omega arith, l)),
        ))
  | no h ↦ omega arith
]
