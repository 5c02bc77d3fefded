-- ===== src/Protocol/Fragments.antt =====
-- Fragment reassembly of internal/protocol/raknet.go: ReassembleFragments and the
-- FragmentAssembler. A Go map is an association list; `sort.Slice` is an insertion sort.
pub mod Sort
pub mod Reassembly
pub mod Assembler
pub mod Delivery
use mcbeproxy.Base.{
  ℕ, ◌+◌, ◌%◌, ◌^◌, Bool, true, false, not, ◌||◌, List, [], ◌∷◌, ◌++◌, Option, none, some, ltb, leb,
  ◌==◌, if◌then◌else◌, length,
}
use mcbeproxy.Base.Map.{lookup, insert, erase, keys, nat_key}
use mcbeproxy.Protocol.Wire.{Result, ok, err, panic, ◌>>=◌, fragment_missing, invalid_fragment}
use mcbeproxy.Protocol.Frame.{Fragment, parse_fragment}

-- sort.Slice on the indices.
insert_index : ℕ → List ℕ → List ℕ
insert_index i [] = i ∷ []
insert_index i (j ∷ js) = if leb i j then i ∷ j ∷ js else j ∷ insert_index i js

unfoldable pub sort_indices : List ℕ → List ℕ
unfolding insert_index
sort_indices [] = []
sort_indices (i ∷ is) = insert_index i (sort_indices is)

-- `result.Write(m[idx].Data)` for each index; a missing entry is a nil dereference.
unfoldable pub join_contents : List (ℕ × Fragment) → List ℕ → Result (List ℕ)
join_contents m [] = ok []
join_contents m (i ∷ is) = elim (lookup i m) [
  | none ↦ panic
  | some f ↦ (do rest ← join_contents m is; ok (f.content ++ rest))
]

-- The fragments that parse; the others are skipped.
unfoldable pub parse_fragments : List (List ℕ) → ℕ → Result (List Fragment)
parse_fragments [] now = ok []
parse_fragments (d ∷ ds) now =
    let rest = parse_fragments ds now in
    elim (parse_fragment d now) [
      | ok f ↦ (do fs ← rest; ok (f ∷ fs))
      | err e ↦ rest
      | panic ↦ panic
    ]

-- The loop that fills `fragmentMap`.
unfoldable pub gather : ℕ → ℕ → List Fragment → List (ℕ × Fragment) → List (ℕ × Fragment)
gather id count [] m = m
gather id count (f ∷ fs) m =
    gather id count fs
      (if not (f.split_id == id) || leb count f.split_index then m else insert f.split_index f m)

-- `uint32(len(fragmentMap)) != splitCount`
unfoldable pub reassemble_parsed : List Fragment → Result (List ℕ)
reassemble_parsed [] = err invalid_fragment
reassemble_parsed (f ∷ fs) =
    let m = gather f.split_id f.split_count (f ∷ fs) [] in
    if length m % 2 ^ 32 == f.split_count
    then join_contents m (sort_indices (keys m))
    else err fragment_missing

-- ReassembleFragments.
unfoldable pub reassemble_fragments : List (List ℕ) → ℕ → Result (List ℕ)
reassemble_fragments [] now = err fragment_missing
reassemble_fragments (d ∷ ds) now = do fs ← parse_fragments (d ∷ ds) now; reassemble_parsed fs

-- The FragmentAssembler, with its timeout as a number of nanoseconds.
pub record FragmentAssembler : Type 0 where
  pub fragments : List (ℕ × List (ℕ × Fragment))
  pub timeout : ℕ

-- The map of a split id; a nil map is as an empty one.
pub pieces_of : FragmentAssembler → ℕ → List (ℕ × Fragment)
pieces_of fa id = elim (lookup id fa.fragments) [ none ↦ [] | some m ↦ m ]

-- AddFragment: `none` stands for (nil, false).
unfoldable pub add_fragment :
    FragmentAssembler → Fragment → FragmentAssembler × Result (Option (List ℕ))
unfolding pieces_of
add_fragment fa frag =
    let m = insert frag.split_index frag (pieces_of fa frag.split_id) in
    let fragments' = insert frag.split_id m fa.fragments in
    if length m % 2 ^ 32 == frag.split_count
    then (
      record fa { fragments = erase frag.split_id fragments' },
      (do result ← join_contents m (sort_indices (keys m)); ok (some result)),
    )
    else (record fa { fragments = fragments' }, ok none)

-- `now.Sub(frag.Received) > fa.timeout` for some fragment.
unfoldable pub any_stale : ℕ → ℕ → List (ℕ × Fragment) → Bool
any_stale now timeout [] = false
any_stale now timeout ((i, f) ∷ m) = ltb (f.received + timeout) now || any_stale now timeout m

drop_stale : ℕ → ℕ → List (ℕ × List (ℕ × Fragment)) → List (ℕ × List (ℕ × Fragment))
drop_stale now timeout [] = []
drop_stale now timeout ((id, m) ∷ ms) =
    let rest = drop_stale now timeout ms in if any_stale now timeout m then rest else (id, m) ∷ rest

-- Cleanup.
unfoldable pub cleanup : FragmentAssembler → ℕ → FragmentAssembler
unfolding drop_stale
cleanup fa now = record fa { fragments = drop_stale now fa.timeout fa.fragments }
