-- ===== src/Protocol/Fragments/Delivery.antt =====
-- The FragmentAssembler over the fragments of a connection, those of several splits in between.
use mcbeproxy.Base.{
  ℕ, ◌%◌, ◌^◌, ◌<◌, ◌≤◌, ◌≡◌, refl, sym, ap, subst, ◌∙◌, Bool, true, false, not, ◌||◌, List, [],
  ◌∷◌, ◌++◌, Option, none, some, arith, leb, ◌==◌, ==_iff, if◌then◌else◌, length, All, Bool-cases,
  Option-cases, inl, inr,
}
use mcbeproxy.Base.Map.{lookup, insert, nat_key, IsDistinct}
use mcbeproxy.Protocol.Wire.{Result, ok, err, panic, ◌>>=◌, fragment_missing}
use mcbeproxy.Protocol.Frame.{Fragment}
use mcbeproxy.Protocol.Fragments.{
  FragmentAssembler, pieces_of, add_fragment, gather, join_contents, reassemble_parsed,
  sort_indices,
}
use mcbeproxy.Base.Map.{keys}
use mcbeproxy.Protocol.Fragments.Reassembly.{join_latest, reassemble_parsed-join}
use mcbeproxy.Protocol.Fragments.Assembler.{
  add_fragment-own, add_fragment-others, assembler-IsDistinct,
}

-- AddFragment for each fragment in turn.
pub deliver : FragmentAssembler → List Fragment → FragmentAssembler
deliver fa [] = fa
deliver fa (f ∷ fs) = deliver (add_fragment fa f).0 fs

-- The fragment names this count and an index below it, if it is one of the split.
abbrev pub Agrees : ℕ → ℕ → Fragment → Type 0
Agrees id count f = f.split_id ≡ id → (f.split_count ≡ count) × (f.split_index < count)

length-insert-le :
    (i : ℕ) (f : Fragment) (m : List (ℕ × Fragment)) → length m ≤ length (insert i f m)
unfolding insert
length-insert-le i f [] = omega arith
length-insert-le i f ((j, g) ∷ m) = ground (arith, length-insert-le i f m)

length-gather-le :
    (id count : ℕ) (fs : List Fragment) (m : List (ℕ × Fragment))
    → length m ≤ length (gather id count fs m)
unfolding gather
length-gather-le id count [] m = omega arith
length-gather-le id count (f ∷ fs) m = ground (
  arith,
  length-gather-le id count fs m,
  length-gather-le id count fs (insert f.split_index f m),
  length-insert-le f.split_index f m,
)

gather-append :
    (id count : ℕ) (fs : List Fragment) (f : Fragment) (m : List (ℕ × Fragment))
    → (f.split_id == id) ≡ true
    → leb count f.split_index ≡ false
    → gather id count (fs ++ (f ∷ [])) m ≡ insert f.split_index f (gather id count fs m)
unfolding gather
gather-append id count [] f m mine below = rw (mine, below) refl
gather-append id count (g ∷ fs) f m mine below = gather-append id count fs f _ mine below

pieces_of-lookup :
    (fa fa' : FragmentAssembler) (id : ℕ)
    → lookup id fa.fragments ≡ lookup id fa'.fragments
    → pieces_of fa id ≡ pieces_of fa' id
unfolding pieces_of
pieces_of-lookup fa fa' id e = rw (pieces_of, e) refl

pieces_of-some :
    (fa : FragmentAssembler) (id : ℕ) (m : List (ℕ × Fragment))
    → lookup id fa.fragments ≡ some m
    → pieces_of fa id ≡ m
unfolding pieces_of
pieces_of-some fa id m e = rw (pieces_of, e) refl

-- One fragment more, as the loop of ReassembleFragments takes it.
abbrev taken : ℕ → ℕ → Fragment → List (ℕ × Fragment) → List (ℕ × Fragment)
taken id count f m =
    if not (f.split_id == id) || leb count f.split_index then m else insert f.split_index f m

pieces_of-add_fragment :
    (id count : ℕ) (fa : FragmentAssembler) (f : Fragment)
    → IsDistinct fa.fragments
    → Agrees id count f
    → length (taken id count f (pieces_of fa id)) < count
    → count < 2 ^ 32
    → pieces_of (add_fragment fa f).0 id ≡ taken id count f (pieces_of fa id)
pieces_of-add_fragment id count fa f d a short fits = elim (Bool-cases (f.split_id == id)) [
  | inr other ↦ rw other (
      pieces_of-lookup (add_fragment fa f).0 fa id
        (add_fragment-others fa f id d (λ e. ground (arith, e))))
  | inl mine ↦
      (let same : f.split_id ≡ id = (==_iff f.split_id id).0 mine in
        let (counted, inside) = a same in
        let below : leb count f.split_index ≡ false = ground (arith, inside) in
        let grown = insert f.split_index f (pieces_of fa id) in
        let few : length grown < count = ground (arith, mine, below, short) in
        let own : lookup id (add_fragment fa f).0.fragments
            ≡ (if length grown % 2 ^ 32 == f.split_count then none else some grown) =
          subst
            (λ (k : ℕ). lookup k (add_fragment fa f).0.fragments ≡ (
              if length (insert f.split_index f (pieces_of fa k)) % 2 ^ 32 == f.split_count
              then none
              else some (insert f.split_index f (pieces_of fa k))))
            same (add_fragment-own fa f d) in
        let test : (length grown % 2 ^ 32 == f.split_count) ≡ false =
          ground (arith, few, fits, counted) in
        rw (mine, below) (pieces_of-some (add_fragment fa f).0 id grown (own ∙ rw test refl)))
]

-- While a split lacks pieces, the assembler holds for it what is gathered from its fragments.
pieces_of-deliver :
    (id count : ℕ) (fa : FragmentAssembler) (fs : List Fragment)
    → IsDistinct fa.fragments
    → All (Agrees id count) fs
    → length (gather id count fs (pieces_of fa id)) < count
    → count < 2 ^ 32
    → pieces_of (deliver fa fs) id ≡ gather id count fs (pieces_of fa id)
unfolding deliver gather
pieces_of-deliver id count fa [] d a short fits = refl
pieces_of-deliver id count fa (f ∷ fs) d a short fits =
    let few : length (taken id count f (pieces_of fa id)) < count =
      omega (arith, short, length-gather-le id count fs (taken id count f (pieces_of fa id))) in
    let one = pieces_of-add_fragment id count fa f d a.0 few fits in
    pieces_of-deliver id count (add_fragment fa f).0 fs (assembler-IsDistinct fa f 0 d).0 a.1
      (subst (λ (m : List (ℕ × Fragment)). length (gather id count fs m) < count) (sym one) short)
      fits
    ∙ ap (gather id count fs) one

-- Joining never fails with an error.
abbrev is_err : Result (List ℕ) → Bool
is_err (err e) = true
is_err (ok r) = false
is_err panic = false

is_err-bind :
    (c : List ℕ) (r : Result (List ℕ))
    → is_err r ≡ false
    → is_err (r >>= (λ rest. ok (c ++ rest))) ≡ false
is_err-bind c (ok r) h = refl
is_err-bind c (err e) h = h
is_err-bind c panic h = refl

is_err-join_contents : (m : List (ℕ × Fragment)) (is : List ℕ) → is_err (join_contents m is) ≡ false
unfolding join_contents
is_err-join_contents m [] = refl
is_err-join_contents m (i ∷ is) = elim (Option-cases (lookup i m)) [
  | inl e ↦ rw (join_contents, e) refl
  | inr (f, e) ↦
      rw (join_contents, e) (is_err-bind f.content (join_contents m is) (is_err-join_contents m is))
]

-- (nil, false) while `wanted` is not there, and the joined contents once it is.
abbrev pub outcome : Option (List ℕ) → Result (Option (List ℕ))
outcome none = ok none
outcome (some r) = ok (some r)

-- What the assembler returns for the last fragment, from what ReassembleFragments gives for all.
outcome-reassembled :
    (m : List (ℕ × Fragment)) (complete : Bool) (wanted : Option (List ℕ))
    → (if complete then join_contents m (sort_indices (keys m)) else err fragment_missing)
      ≡ elim wanted [ some r ↦ ok r | none ↦ err fragment_missing ]
    → (if complete
        then (do result ← join_contents m (sort_indices (keys m)); ok (some result))
        else ok none)
      ≡ outcome wanted
outcome-reassembled m true none e =
    absurd (ground (arith, is_err-join_contents m (sort_indices (keys m)), ap is_err e))
outcome-reassembled m true (some r) e = rw e refl
outcome-reassembled m false none e = refl
outcome-reassembled m false (some r) e = absurd (ground (arith, ap is_err e))

-- What AddFragment returns where it has `m` for the split.
abbrev returned : List (ℕ × Fragment) → ℕ → Result (Option (List ℕ))
returned m count =
    if length m % 2 ^ 32 == count
    then (do result ← join_contents m (sort_indices (keys m)); ok (some result))
    else ok none

returned-add_fragment :
    (fa : FragmentAssembler) (f : Fragment)
    → (add_fragment fa f).1
      ≡ returned (insert f.split_index f (pieces_of fa f.split_id)) f.split_count
unfolding add_fragment
returned-add_fragment fa f =
    elim (Bool-cases
      (length (insert f.split_index f (pieces_of fa f.split_id)) % 2 ^ 32 == f.split_count)) [
        | inl e ↦ rw e refl
        | inr e ↦ rw e refl
      ]

-- Where an assembler holds nothing of a split of fewer than 2^32 fragments, and is given fragments
-- one by one, the first of them of the split, others and repeated ones in between, but not yet as
-- many different ones of the split as its count: the next fragment of the split makes AddFragment
-- return exactly the contents in the order of their indices, if none below the count is missing
-- any longer, and (nil, false) if one still is. Each fragment of the split names the same count
-- and an index below it.
pub add_fragment-join :
    (fa : FragmentAssembler) (first : Fragment) (fs : List Fragment) (last : Fragment)
    → IsDistinct fa.fragments
    → lookup first.split_id fa.fragments ≡ none
    → All (Agrees first.split_id first.split_count) (first ∷ fs)
    → Agrees first.split_id first.split_count last
    → last.split_id ≡ first.split_id
    → length (gather first.split_id first.split_count (first ∷ fs) []) < first.split_count
    → first.split_count < 2 ^ 32
    → (add_fragment (deliver fa (first ∷ fs)) last).1
      ≡ outcome (join_latest first.split_id (first ∷ fs ++ (last ∷ [])) 0 first.split_count)
unfolding reassemble_parsed pieces_of
add_fragment-join fa first fs last d fresh a b same short fits =
    let id = first.split_id in
    let count = first.split_count in
    let before = gather id count (first ∷ fs) [] in
    let m = insert last.split_index last before in
    let (counted, inside) = b same in
    let start : pieces_of fa id ≡ [] = rw (pieces_of, fresh) refl in
    let held : pieces_of (deliver fa (first ∷ fs)) id ≡ before =
      pieces_of-deliver id count fa (first ∷ fs) d a
        (subst (λ (p : List (ℕ × Fragment)). length (gather id count (first ∷ fs) p) < count)
          (sym start) short)
        fits
      ∙ ap (gather id count (first ∷ fs)) start in
    let whole : gather id count (first ∷ (fs ++ (last ∷ []))) [] ≡ m =
      gather-append id count (first ∷ fs) last [] ((==_iff last.split_id id).1 same)
        (ground (arith, inside)) in
    let spec =
      subst
        (λ (p : List (ℕ × Fragment)).
          (if length p % 2 ^ 32 == count
            then join_contents p (sort_indices (keys p))
            else err fragment_missing)
          ≡ elim (join_latest id (first ∷ (fs ++ (last ∷ []))) 0 count) [
            | some r ↦ ok r
            | none ↦ err fragment_missing
          ])
        whole (reassemble_parsed-join first (fs ++ (last ∷ [])) fits) in
    returned-add_fragment (deliver fa (first ∷ fs)) last
    ∙ ap
        (λ (k : ℕ).
          returned (insert last.split_index last (pieces_of (deliver fa (first ∷ fs)) k))
            last.split_count)
        same
    ∙ ap (λ (p : List (ℕ × Fragment)). returned (insert last.split_index last p) last.split_count)
        held
    ∙ ap (returned m) counted
    ∙ outcome-reassembled m (length m % 2 ^ 32 == count) _ spec
