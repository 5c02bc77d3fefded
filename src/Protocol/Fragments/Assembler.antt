-- ===== src/Protocol/Fragments/Assembler.antt =====
-- The FragmentAssembler of internal/protocol/raknet.go, one operation at a time.
use mcbeproxy.Base.{
  ℕ, ◌%◌, ◌^◌, ◌≡◌, ◌≢◌, refl, sym, ap, subst, ◌∙◌, Bool, true, List, [], ◌∷◌, none, some, arith,
  ◌==◌, ==_iff, if◌then◌else◌, length, Bool-cases, inl, inr,
}
use mcbeproxy.Base.Map.{
  lookup, insert, erase, nat_key, IsDistinct, lookup-insert, lookup-erase, insert-IsDistinct,
  erase-IsDistinct,
}
use mcbeproxy.Protocol.Frame.{Fragment}
use mcbeproxy.Protocol.Fragments.{
  FragmentAssembler, pieces_of, add_fragment, any_stale, drop_stale, cleanup,
}

-- Some piece of the split waited longer than the timeout.
abbrev pub IsStale : ℕ → ℕ → List (ℕ × Fragment) → Type 0
IsStale now timeout m = any_stale now timeout m ≡ true

-- The pieces of the fragment's split once it is in, and the map of splits with them.
abbrev grown : FragmentAssembler → Fragment → List (ℕ × Fragment)
grown fa frag = insert frag.split_index frag (pieces_of fa frag.split_id)

abbrev stored : FragmentAssembler → Fragment → List (ℕ × List (ℕ × Fragment))
stored fa frag = insert frag.split_id (grown fa frag) fa.fragments

abbrev is_complete : FragmentAssembler → Fragment → Bool
is_complete fa frag = length (grown fa frag) % 2 ^ 32 == frag.split_count

fragments-add_fragment :
    (fa : FragmentAssembler) (frag : Fragment)
    → (add_fragment fa frag).0.fragments
      ≡ (if is_complete fa frag then erase frag.split_id (stored fa frag) else stored fa frag)
unfolding add_fragment
fragments-add_fragment fa frag = elim (Bool-cases (is_complete fa frag)) [
  | inl e ↦ rw e refl
  | inr e ↦ rw e refl
]

-- Adding a fragment leaves the pieces of every other split alone, whether it completes its own or
-- not; the map of splits must have no key twice.
pub add_fragment-others :
    (fa : FragmentAssembler) (frag : Fragment) (id : ℕ)
    → IsDistinct fa.fragments
    → id ≢ frag.split_id
    → lookup id (add_fragment fa frag).0.fragments ≡ lookup id fa.fragments
add_fragment-others fa frag id d other =
    ap (lookup id) (fragments-add_fragment fa frag) ∙ elim (Bool-cases (is_complete fa frag)) [
      | inl e ↦
          (rw
            (
              e,
              lookup-erase frag.split_id id (stored fa frag)
                  (insert-IsDistinct frag.split_id (grown fa frag) fa.fragments d),
              lookup-insert frag.split_id id (grown fa frag) fa.fragments,
            )
            (ground arith))
      | inr e ↦ rw (e, lookup-insert frag.split_id id (grown fa frag) fa.fragments) (ground arith)
    ]

-- A fragment that makes the pieces as many as its count takes the split out of the assembler, any
-- other leaves the split there with the fragment in its place; the map of splits must have no key twice.
pub add_fragment-own :
    (fa : FragmentAssembler) (frag : Fragment)
    → IsDistinct fa.fragments
    → lookup frag.split_id (add_fragment fa frag).0.fragments ≡ (
        if length (insert frag.split_index frag (pieces_of fa frag.split_id)) % 2 ^ 32
          == frag.split_count
        then none
        else some (insert frag.split_index frag (pieces_of fa frag.split_id)))
add_fragment-own fa frag d =
    ap (lookup frag.split_id) (fragments-add_fragment fa frag)
    ∙ elim (Bool-cases (is_complete fa frag)) [
      | inl e ↦
          (rw
            (
              e,
              lookup-erase frag.split_id frag.split_id (stored fa frag)
                  (insert-IsDistinct frag.split_id (grown fa frag) fa.fragments d),
            )
            (ground arith))
      | inr e ↦
          rw (e, lookup-insert frag.split_id frag.split_id (grown fa frag) fa.fragments)
            (ground arith)
    ]

lookup-drop_stale-none :
    (now timeout id : ℕ) (ms : List (ℕ × List (ℕ × Fragment)))
    → lookup id ms ≡ none
    → lookup id (drop_stale now timeout ms) ≡ none
unfolding drop_stale lookup
lookup-drop_stale-none now timeout id [] h = refl
lookup-drop_stale-none now timeout id ((j, m) ∷ ms) h =
    ground (arith, lookup-drop_stale-none now timeout id ms)

lookup-drop_stale :
    (now timeout id : ℕ) (ms : List (ℕ × List (ℕ × Fragment)))
    → IsDistinct ms
    → lookup id (drop_stale now timeout ms) ≡ elim (lookup id ms) [
      | none ↦ none
      | some m ↦ if any_stale now timeout m then none else some m
    ]
unfolding drop_stale lookup
lookup-drop_stale now timeout id [] d = refl
lookup-drop_stale now timeout id ((j, m) ∷ ms) d = ground (
  arith,
  lookup-drop_stale now timeout id ms,
  lookup-drop_stale-none now timeout id ms,
  ==_iff j id,
)

-- Cleanup drops exactly the splits that have a piece older than the timeout, and keeps every
-- other one with all its pieces; the map of splits must have no key twice.
pub cleanup-lookup :
    (fa : FragmentAssembler) (now id : ℕ)
    → IsDistinct fa.fragments
    → lookup id (cleanup fa now).fragments ≡ elim (lookup id fa.fragments) [
      | none ↦ none
      | some m ↦ if any_stale now fa.timeout m then none else some m
    ]
unfolding cleanup
cleanup-lookup fa now id d = lookup-drop_stale now fa.timeout id fa.fragments d

drop_stale-IsDistinct :
    (now timeout : ℕ) (ms : List (ℕ × List (ℕ × Fragment)))
    → IsDistinct ms
    → IsDistinct (drop_stale now timeout ms)
unfolding drop_stale
drop_stale-IsDistinct now timeout [] d = tt
drop_stale-IsDistinct now timeout ((j, m) ∷ ms) d =
    ground (arith, drop_stale-IsDistinct now timeout ms, lookup-drop_stale-none now timeout j ms)

-- AddFragment and Cleanup keep the map of splits free of a key that stands twice.
pub assembler-IsDistinct :
    (fa : FragmentAssembler) (frag : Fragment) (now : ℕ)
    → IsDistinct fa.fragments
    → IsDistinct (add_fragment fa frag).0.fragments × IsDistinct (cleanup fa now).fragments
unfolding cleanup
assembler-IsDistinct fa frag now d = (
  subst IsDistinct (sym (fragments-add_fragment fa frag)) after,
  drop_stale-IsDistinct now fa.timeout fa.fragments d,
)
  where
    inserted : IsDistinct (stored fa frag)
    inserted = insert-IsDistinct frag.split_id (grown fa frag) fa.fragments d

    after :
        IsDistinct
          (if is_complete fa frag then erase frag.split_id (stored fa frag) else stored fa frag)
    after = elim (Bool-cases (is_complete fa frag)) [
      | inl e ↦ rw e (erase-IsDistinct frag.split_id (stored fa frag) inserted)
      | inr e ↦ rw e inserted
    ]
