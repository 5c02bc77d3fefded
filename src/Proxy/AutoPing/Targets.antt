-- ===== src/Proxy/AutoPing/Targets.antt =====
-- The rotation of nextAutoPingBootstrapTargets reaches every node.
use mcbeproxy.Base.{
  ℕ, zero, suc, ◌+◌, ◌-◌, ◌*◌, ◌/◌, ◌%◌, ◌<◌, ◌≡◌, sym, ◌∙◌, ap, true, false, String, eq_iff, List,
  [], ◌∷◌, ◌++◌, some, arith, leb, length, get_elem?, Option-cases, inl, inr,
}
use native.Mathlib.Nat.{mod-lt, mod-eq_of_lt, mod-add-mod, add-mod-mod, add-mod_right, div-add-mod}
use mcbeproxy.Base.Map.{lookup, string_key, lookup-insert}
use mcbeproxy.Base.Library.{Library}
use mcbeproxy.Proxy.OutboundManager.Select.{is_excluded}
use mcbeproxy.Proxy.AutoPing.{
  dedupe_node_names, at_least_one, take_around, or_none, start_of, next_bootstrap_targets,
}

-- The step from the place `start` to the place `j` around a circle of `n`.
around : (n start j : ℕ) → start < n → j < n → (start + (j + n - start) % n) % n ≡ j
around n start j s h =
    add-mod-mod start (j + n - start) n
    ∙ ap (λ i. i % n) (omega (arith, s))
    ∙ add-mod_right j n
    ∙ mod-eq_of_lt h

module _ (go : Library) where
  is_excluded-append :
      (xs ys : List String) (x : String) → is_excluded ys x ≡ true → is_excluded (xs ++ ys) x ≡ true
  is_excluded-append [] ys x h = h
  is_excluded-append (a ∷ xs) ys x h = ground (arith, is_excluded-append xs ys x h)

  is_excluded-take_around :
      (names : List String) (start count i : ℕ) (x : String)
      → i < count
      → get_elem? names ((start + i) % length names) ≡ some x
      → is_excluded (take_around go names start count) x ≡ true
  unfolding take_around
  is_excluded-take_around names start zero i x l h = absurd (omega arith)
  is_excluded-take_around names start (suc count) zero x l h =
      let first : get_elem? names (start % length names) ≡ some x =
        ap (λ k. get_elem? names (k % length names)) (omega arith) ∙ h in
      rw (take_around, first) (ground (arith, eq_iff x x))
  is_excluded-take_around names start (suc count) (suc i) x l h =
      is_excluded-append (or_none go (get_elem? names (start % length names)))
        (take_around go names (start + 1) count) x
        (is_excluded-take_around names (start + 1) count i x (omega arith)
          (ap (λ k. get_elem? names (k % length names)) (omega arith) ∙ h))

  module _ (selector_id : String) (top : ℕ) (raw : List String)
      (fewer : leb (length (dedupe_node_names go raw)) (at_least_one go top) ≡ false) where
    -- The positions after some rounds on the same names.
    abbrev pub after_rounds : List (String × ℕ) → ℕ → List (String × ℕ)
    after_rounds positions zero = positions
    after_rounds positions (suc r) =
        (next_bootstrap_targets go (after_rounds positions r) selector_id top raw).0

    abbrev size : ℕ
    size = length (dedupe_node_names go raw)

    abbrev batch : ℕ
    batch = at_least_one go top

    abbrev place : List (String × ℕ) → ℕ
    place positions = start_of go (lookup selector_id positions) size

    size-positive : 0 < size
    size-positive = ground arith

    place-lt : (positions : List (String × ℕ)) → place positions < size
    place-lt positions = elim (Option-cases (lookup selector_id positions)) [
      | inl e ↦ rw e size-positive
      | inr (i, e) ↦ rw e (ground (arith, size-positive))
    ]

    place-next_bootstrap_targets :
        (positions : List (String × ℕ))
        → place (next_bootstrap_targets go positions selector_id top raw).0
          ≡ (place positions + batch) % size
    unfolding next_bootstrap_targets
    place-next_bootstrap_targets positions =
        let next = (place positions + batch) % size in
        let below : next < size = mod-lt (place positions + batch) size-positive in
        rw (next_bootstrap_targets, fewer, lookup-insert selector_id selector_id next positions)
          (ground (arith, eq_iff selector_id selector_id, below))

    place-after_rounds :
        (positions : List (String × ℕ)) (r : ℕ)
        → place (after_rounds positions r) ≡ (place positions + r * batch) % size
    place-after_rounds positions zero =
        sym (mod-eq_of_lt (place-lt positions)) ∙ ap (λ i. i % size) (grind arith)
    place-after_rounds positions (suc r) =
        place-next_bootstrap_targets (after_rounds positions r)
        ∙ ap (λ i. (i + batch) % size) (place-after_rounds positions r)
        ∙ mod-add-mod (place positions + r * batch) size batch
        ∙ ap (λ i. i % size) (grind arith)

    -- Where there are more nodes than are pinged at a time, the pings of nodes without a latency
    -- go around: from whatever position, any given node is in some round, and the rounds before it
    -- have fewer places than there are nodes.
    pub next_bootstrap_targets-reach :
        (positions : List (String × ℕ)) (j : ℕ) (x : String)
        → get_elem? (dedupe_node_names go raw) j ≡ some x
        → j < size
        → (r : ℕ) × (r * batch < size)
          × (is_excluded
                (next_bootstrap_targets go (after_rounds positions r) selector_id top raw).1
                x
              ≡ true)
    unfolding next_bootstrap_targets
    next_bootstrap_targets-reach positions j x h l =
        let names = dedupe_node_names go raw in
        let start = place positions in
        let d = (j + size - start) % size in
        let below : d < size = mod-lt (j + size - start) size-positive in
        let r = d / batch in
        let i = d % batch in
        let i_lt : i < batch = mod-lt d (ground arith) in
        let split : batch * r + i ≡ d = div-add-mod d batch in
        let here : (place (after_rounds positions r) + i) % size ≡ j =
          ap (λ p. (p + i) % size) (place-after_rounds positions r)
          ∙ mod-add-mod (start + r * batch) size i
          ∙ ap (λ p. p % size) (grind (arith, split))
          ∙ around size start j (place-lt positions) l in
        (
          r,
          grind (arith, split, below),
          rw (next_bootstrap_targets, fewer)
              (is_excluded-take_around names (place (after_rounds positions r)) batch i x i_lt
                (ap (get_elem? names) here ∙ h)),
        )
