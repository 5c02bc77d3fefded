-- ===== src/Protocol/Fragments/Reassembly.antt =====
-- ReassembleFragments against its specification: the contents of the fragments of the first
-- one's split, in the order of their indices, a later fragment replacing an earlier one.
use mcbeproxy.Base.{
  ℕ, zero, suc, ◌+◌, ◌%◌, ◌^◌, ◌≤◌, ◌<◌, ◌≡◌, ◌≢◌, refl, sym, ap, subst, ◌∙◌, true, false, not,
  ◌&&◌, ◌||◌, List, [], ◌∷◌, ◌++◌, Option, none, some, arith, leb, ◌==◌, if◌then◌else◌, length, All,
  All-map, Bool-cases, Option-cases, inl, inr,
}
use native.Mathlib.Decide.{dec_lt, ℕ_discrete}
use mcbeproxy.Base.Map.{lookup, insert, keys, nat_key, IsDistinct, lookup-insert, insert-IsDistinct}
use mcbeproxy.Protocol.Wire.{ok, err, fragment_missing}
use mcbeproxy.Protocol.Frame.{Fragment}
use mcbeproxy.Protocol.Fragments.{sort_indices, join_contents, gather, reassemble_parsed}
use mcbeproxy.Protocol.Fragments.Sort.{
  range_from, Lacks, Differ, Ascends, sort_indices-Ascends, sort_indices-All,
  sort_indices-Lacks_back, length-sort_indices, Ascends-le, Ascends-range, Ascends-covers,
}

-- The last fragment with this split id and index.
unfoldable pub latest : ℕ → ℕ → List Fragment → Option Fragment
latest id i [] = none
latest id i (f ∷ fs) = elim (latest id i fs) [
  | some g ↦ some g
  | none ↦ if f.split_id == id && f.split_index == i then some f else none
]

-- The contents at the indices from `i` on, `n` of them; `none` if one is missing.
unfoldable pub join_latest : ℕ → List Fragment → ℕ → ℕ → Option (List ℕ)
join_latest id fs i zero = some []
join_latest id fs i (suc n) =
    let rest = join_latest id fs (i + 1) n in
    elim (latest id i fs) [
      | none ↦ none
      | some f ↦ elim rest [ none ↦ none | some r ↦ some (f.content ++ r) ]
    ]

abbrev or_else : Option Fragment → Option Fragment → Option Fragment
or_else (some f) o = some f
or_else none o = o

lookup-gather :
    (id count i : ℕ) (fs : List Fragment) (m : List (ℕ × Fragment))
    → i < count
    → lookup i (gather id count fs m) ≡ or_else (latest id i fs) (lookup i m)
unfolding gather latest
lookup-gather id count i [] m h = refl
lookup-gather id count i (f ∷ fs) m h =
    elim (Bool-cases (not (f.split_id == id) || leb count f.split_index)) [
      | inl skipped ↦ rw (skipped, lookup-gather id count i fs m h) (ground arith)
      | inr kept ↦
          rw
            (
              kept,
              lookup-gather id count i fs (insert f.split_index f m) h,
              lookup-insert f.split_index i f m,
            )
            (ground arith)
    ]

gather-IsDistinct :
    (id count : ℕ) (fs : List Fragment) (m : List (ℕ × Fragment))
    → IsDistinct m
    → IsDistinct (gather id count fs m)
unfolding gather
gather-IsDistinct id count [] m d = d
gather-IsDistinct id count (f ∷ fs) m d =
    elim (Bool-cases (not (f.split_id == id) || leb count f.split_index)) [
      | inl skipped ↦ rw skipped (gather-IsDistinct id count fs m d)
      | inr kept ↦ rw kept (gather-IsDistinct id count fs _ (insert-IsDistinct f.split_index f m d))
    ]

insert-below :
    (n i : ℕ) (f : Fragment) (m : List (ℕ × Fragment))
    → i < n
    → All (λ j. j < n) (keys m)
    → All (λ j. j < n) (keys (insert i f m))
unfolding insert
insert-below n i f [] h a = (h, tt)
insert-below n i f ((j, g) ∷ m) h a = ground (arith, insert-below n i f m h)

gather-below :
    (id count : ℕ) (fs : List Fragment) (m : List (ℕ × Fragment))
    → All (λ j. j < count) (keys m)
    → All (λ j. j < count) (keys (gather id count fs m))
unfolding gather
gather-below id count [] m a = a
gather-below id count (f ∷ fs) m a =
    elim (Bool-cases (not (f.split_id == id) || leb count f.split_index)) [
      | inl skipped ↦ rw skipped (gather-below id count fs m a)
      | inr kept ↦
          rw kept
            (gather-below id count fs _ (insert-below count f.split_index f m (ground arith) a))
    ]

-- The keys of a map, as a list of indices.
Lacks-keys : (i : ℕ) (m : List (ℕ × Fragment)) → lookup i m ≡ none → Lacks i (keys m)
unfolding lookup
Lacks-keys i [] h = tt
Lacks-keys i ((j, f) ∷ m) h = ((λ e. ground arith), Lacks-keys i m (ground arith))

lookup-Lacks : (i : ℕ) (m : List (ℕ × Fragment)) → Lacks i (keys m) → lookup i m ≡ none
unfolding lookup
lookup-Lacks i [] l = refl
lookup-Lacks i ((j, f) ∷ m) l = ground (arith, lookup-Lacks i m l.1)

Differ-keys : (m : List (ℕ × Fragment)) → IsDistinct m → Differ (keys m)
Differ-keys [] d = tt
Differ-keys ((j, f) ∷ m) d = (Lacks-keys j m d.0, Differ-keys m d.1)

length-keys : (m : List (ℕ × Fragment)) → length (keys m) ≡ length m
length-keys [] = refl
length-keys ((j, f) ∷ m) = ap suc (length-keys m)

-- Where every index is there, both ways of joining give the same bytes.
join_contents-latest :
    (id : ℕ) (fs : List Fragment) (m : List (ℕ × Fragment)) (i n count : ℕ)
    → ((j : ℕ) → j < count → lookup j m ≡ latest id j fs)
    → i + n ≤ count
    → All (λ j. lookup j m ≢ none) (range_from i n)
    → (r : List ℕ) × (join_contents m (range_from i n) ≡ ok r) × (join_latest id fs i n ≡ some r)
unfolding join_contents join_latest
join_contents-latest id fs m i zero count same h a = ([], refl, refl)
join_contents-latest id fs m i (suc n) count same h a =
    let (r, ec, el) = join_contents-latest id fs m (i + 1) n count same (omega arith) a.1 in
    elim (Option-cases (lookup i m)) [
      | inl missing ↦ absurd (a.0 missing)
      | inr (f, there) ↦ (
        f.content ++ r,
        rw (there, join_contents, ec),
        rw (sym (same i (omega arith)) ∙ there, join_latest, el),
      )
    ]

join_latest-some :
    (id : ℕ) (fs : List Fragment) (i n j : ℕ) (r : List ℕ)
    → join_latest id fs i n ≡ some r
    → i ≤ j
    → j < i + n
    → latest id j fs ≢ none
unfolding join_latest
join_latest-some id fs i zero j r e h k = absurd (omega arith)
join_latest-some id fs i (suc n) j r e h k = elim (Option-cases (latest id i fs)) [
  | inl missing ↦ absurd (ground arith)
  | inr (f, there) ↦ elim (Option-cases (join_latest id fs (i + 1) n)) [
    | inl short ↦ absurd (ground arith)
    | inr (r', e') ↦ elim (dec_lt i j) [
      | yes later ↦ join_latest-some id fs (i + 1) n j r' e' (omega arith) (omega arith)
      | no here ↦ (let first : j ≡ i = omega arith in rw first (λ missing. cc))
    ]
  ]
]

Lacks-self : (js : List ℕ) → All (λ j. ¬ Lacks j js) js
Lacks-self [] = tt
Lacks-self (j ∷ js) = (
  (λ l. l.0 refl),
  All-map (λ i. ¬ Lacks i js) (λ i. ¬ Lacks i (j ∷ js)) js (λ i n l. n l.1) (Lacks-self js),
)

present : (m : List (ℕ × Fragment)) → All (λ j. lookup j m ≢ none) (keys m)
present m =
    All-map (λ j. ¬ Lacks j (keys m)) (λ j. lookup j m ≢ none) (keys m)
      (λ j n e. n (Lacks-keys j m e)) (Lacks-self (keys m))

-- The gathered map, its sorted indices, and what is known of both.
module _ (f : Fragment) (fs : List Fragment) where
  gathered : List (ℕ × Fragment)
  gathered = gather f.split_id f.split_count (f ∷ fs) []

  sorted : List ℕ
  sorted = sort_indices (keys gathered)

  abbrev spec : Option (List ℕ)
  spec = join_latest f.split_id (f ∷ fs) 0 f.split_count

  length-sorted : length sorted ≡ length gathered
  unfolding sorted
  length-sorted = length-sort_indices (keys gathered) ∙ length-keys gathered

  sorted-Ascends : Ascends 0 sorted
  unfolding sorted gathered
  sorted-Ascends =
      sort_indices-Ascends (keys gathered)
        (Differ-keys gathered (gather-IsDistinct f.split_id f.split_count (f ∷ fs) [] tt))

  sorted-below : All (λ j. j < f.split_count) sorted
  unfolding sorted gathered
  sorted-below =
      sort_indices-All (λ j. j < f.split_count) (keys gathered)
        (gather-below f.split_id f.split_count (f ∷ fs) [] tt)

  length-gathered-le : length gathered ≤ f.split_count
  length-gathered-le = omega (
    arith,
    length-sorted,
    Ascends-le 0 f.split_count sorted (omega arith) sorted-Ascends sorted-below,
  )

  gathered-latest : (j : ℕ) → j < f.split_count → lookup j gathered ≡ latest f.split_id j (f ∷ fs)
  unfolding gathered lookup
  gathered-latest j h = rw (lookup-gather f.split_id f.split_count j (f ∷ fs) [] h) (ground arith)

  sorted-present : All (λ j. lookup j gathered ≢ none) sorted
  unfolding sorted
  sorted-present =
      sort_indices-All (λ j. lookup j gathered ≢ none) (keys gathered) (present gathered)

  full-range : length gathered ≡ f.split_count → sorted ≡ range_from 0 f.split_count
  full-range full =
      let count : length sorted ≡ f.split_count = length-sorted ∙ full in
      Ascends-range 0 f.split_count sorted sorted-Ascends sorted-below (omega (arith, count))
      ∙ ap (range_from 0) count

  full-joins :
      length gathered ≡ f.split_count
      → (r : List ℕ) × (join_contents gathered sorted ≡ ok r) × (spec ≡ some r)
  full-joins full =
      let range = full-range full in
      let present' = subst (All (λ j. lookup j gathered ≢ none)) range sorted-present in
      let (r, joins, meets) =
        join_contents-latest f.split_id (f ∷ fs) gathered 0 f.split_count f.split_count
          gathered-latest (omega arith) present' in
      (r, ap (join_contents gathered) range ∙ joins, meets)

  full_of_spec : (r : List ℕ) → spec ≡ some r → length gathered ≡ f.split_count
  unfolding sorted
  full_of_spec r e = omega (arith, covers, length-sorted, length-gathered-le)
    where
      covers : f.split_count ≤ 0 + length sorted
      covers = Ascends-covers 0 f.split_count sorted sorted-Ascends (λ i p h lacks.
          join_latest-some f.split_id (f ∷ fs) 0 f.split_count i r e p (omega (arith, h)) (
            sym (gathered-latest i h)
            ∙ lookup-Lacks i gathered (sort_indices-Lacks_back i (keys gathered) lacks)))

-- For a split of fewer than 2^32 fragments, reassembly gives exactly the contents in the order of
-- their indices, the last fragment of an index counting, if no index below the count is missing,
-- and an error if one is.
pub reassemble_parsed-join :
    (f : Fragment) (fs : List Fragment)
    → f.split_count < 2 ^ 32
    → reassemble_parsed (f ∷ fs) ≡ elim (join_latest f.split_id (f ∷ fs) 0 f.split_count) [
      | some r ↦ ok r
      | none ↦ err fragment_missing
    ]
unfolding reassemble_parsed gathered sorted
reassemble_parsed-join f fs fits = elim (ℕ_discrete (length (gathered f fs)) f.split_count) [
  | yes full ↦
      (let (r, joins, meets) = full-joins f fs full in
        let test : (length (gathered f fs) % 2 ^ 32 == f.split_count) ≡ true = ground arith in
        rw (test, joins, meets))
  | no short ↦
      (let test : (length (gathered f fs) % 2 ^ 32 == f.split_count) ≡ false =
          ground (arith, length-gathered-le f fs) in
        elim (Option-cases (join_latest f.split_id (f ∷ fs) 0 f.split_count)) [
          | inl missing ↦ rw (test, missing)
          | inr (r, e) ↦ absurd (short (full_of_spec f fs r e))
        ])
]
