-- ===== src/Proxy/LoadBalancer/RoundRobin.antt =====
-- The round-robin strategy of internal/proxy/load_balancer.go over several calls, and Select.
use mcbeproxy.Base.{
  ℕ, zero, suc, ◌+◌, ◌%◌, ◌<◌, ◌≡◌, ◌≢◌, refl, sym, ap, ◌∙◌, String, str_eq, List, [], ◌∷◌, some,
  arith, leb, if◌then◌else◌, length, get_elem?, get_elem?-lt, Bool-cases, inl, inr,
}
use native.Mathlib.Nat.{mod-lt, mod-eq_of_lt, mod-add-mod}
use mcbeproxy.Base.Map.{string_key, lookup-insert}
use mcbeproxy.Proxy.LoadBalancer.{
  ProxyOutbound, LoadBalancer, or_zero, get_round_robin_index, select_round_robin, select,
  select_least_latency, select_random, select_least_connections,
}
use mcbeproxy.Proxy.LoadBalancer.Choice.{
  IsIn, IsCount, select_least_latency-choice, select_least_connections-choice,
}
use mcbeproxy.Base.{All}

-- The index that the next call reads for a list of `n` nodes.
abbrev pub next_index : LoadBalancer → String → ℕ → ℕ
next_index lb group n =
    if leb n (get_round_robin_index lb group) then 0 else get_round_robin_index lb group

next_index-lt : (lb : LoadBalancer) (group : String) (n : ℕ) → 0 < n → next_index lb group n < n
next_index-lt lb group n h = ground arith

index-select_round_robin :
    (lb : LoadBalancer) (node : ProxyOutbound) (nodes : List ProxyOutbound) (group : String)
    → get_round_robin_index (select_round_robin lb (node ∷ nodes) group).0 group
      ≡ (next_index lb group (length (node ∷ nodes)) + 1) % length (node ∷ nodes)
unfolding get_round_robin_index select_round_robin
index-select_round_robin lb node nodes group =
    ap or_zero (lookup-insert group group _ lb.round_robin_index)
    ∙ ground (arith, string_key.beq_iff group group)

-- The balancer after `k` calls on the same nodes.
abbrev pub after_calls : LoadBalancer → List ProxyOutbound → String → ℕ → LoadBalancer
after_calls lb nodes group zero = lb
after_calls lb nodes group (suc k) =
    (select_round_robin (after_calls lb nodes group k) nodes group).0

-- An index below the length is the one that is read.
stays :
    (lb : LoadBalancer) (group : String) (n i : ℕ)
    → get_round_robin_index lb group ≡ i
    → i < n
    → next_index lb group n ≡ i
stays lb group n i e h = ground arith

next_index-after :
    (lb : LoadBalancer) (node : ProxyOutbound) (nodes : List ProxyOutbound) (group : String) (k : ℕ)
    → next_index (after_calls lb (node ∷ nodes) group k) group (length (node ∷ nodes))
      ≡ (next_index lb group (length (node ∷ nodes)) + k) % length (node ∷ nodes)
next_index-after lb node nodes group zero =
    sym (mod-eq_of_lt (omega (arith, next_index-lt lb group (length (node ∷ nodes)) (omega arith))))
    ∙ ap (λ i. i % length (node ∷ nodes)) (omega arith)
next_index-after lb node nodes group (suc k) =
    let n = length (node ∷ nodes) in
    let before = after_calls lb (node ∷ nodes) group k in
    stays _ _ _ _ (index-select_round_robin before node nodes group) (mod-lt _ (omega arith))
    ∙ ap (λ i. (i + 1) % n) (next_index-after lb node nodes group k)
    ∙ mod-add-mod (next_index lb group n + k) n 1
    ∙ ap (λ i. i % n) (omega arith)

-- The call after `k` others on the same nodes selects the node `k` places after the first choice,
-- counted around the list; so the choices run through all nodes in order.
pub select_round_robin-cycles :
    (lb : LoadBalancer) (node : ProxyOutbound) (nodes : List ProxyOutbound) (group : String) (k : ℕ)
    → (select_round_robin (after_calls lb (node ∷ nodes) group k) (node ∷ nodes) group).1
      ≡ get_elem?
          (node ∷ nodes)
          ((next_index lb group (length (node ∷ nodes)) + k) % length (node ∷ nodes))
unfolding select_round_robin
select_round_robin-cycles lb node nodes group k =
    ap (get_elem? (node ∷ nodes)) (next_index-after lb node nodes group k)

-- A call for one group leaves the index of every other group alone.
pub select_round_robin-others :
    (lb : LoadBalancer) (nodes : List ProxyOutbound) (group other : String)
    → group ≢ other
    → get_round_robin_index (select_round_robin lb nodes group).0 other
      ≡ get_round_robin_index lb other
unfolding get_round_robin_index select_round_robin
select_round_robin-others lb [] group other h = refl
select_round_robin-others lb (node ∷ nodes) group other h =
    ap or_zero (lookup-insert group other _ lb.round_robin_index)
    ∙ ground (arith, string_key.beq_iff group other)

select_round_robin-IsIn :
    (lb : LoadBalancer) (node : ProxyOutbound) (nodes : List ProxyOutbound) (group : String)
    → (t : ProxyOutbound) × ((select_round_robin lb (node ∷ nodes) group).1 ≡ some t)
      × IsIn t (node ∷ nodes)
unfolding select_round_robin
select_round_robin-IsIn lb node nodes group =
    let i = next_index lb group (length (node ∷ nodes)) in
    let (t, e) = get_elem?-lt (node ∷ nodes) i (next_index-lt lb group _ (omega arith)) in
    (t, e, (i, e))

select_random-IsIn :
    (intn : ℕ → ℕ) (node : ProxyOutbound) (nodes : List ProxyOutbound)
    → ((n : ℕ) → 0 < n → intn n < n)
    → (t : ProxyOutbound) × (select_random intn (node ∷ nodes) ≡ some t) × IsIn t (node ∷ nodes)
unfolding select_random
select_random-IsIn intn node nodes r =
    let n = length (node ∷ nodes) in
    let (t, h) = get_elem?-lt (node ∷ nodes) (intn n) (r n (omega arith)) in (t, h, (intn n, h))

-- Whatever the strategy, Select on a list that is not empty gives a node of the list, provided
-- that rand.Intn keeps below its argument and no count of connections is negative.
pub select-IsIn :
    (intn : ℕ → ℕ) (lb : LoadBalancer) (node : ProxyOutbound) (nodes : List ProxyOutbound)
    (strategy sort_by group : String)
    → ((n : ℕ) → 0 < n → intn n < n)
    → All IsCount (node ∷ nodes)
    → (t : ProxyOutbound) × ((select intn lb (node ∷ nodes) strategy sort_by group).1 ≡ some t)
      × IsIn t (node ∷ nodes)
unfolding select
select-IsIn intn lb node [] strategy sort_by group r c = (node, refl, (0, refl))
select-IsIn intn lb node (node' ∷ nodes) strategy sort_by group r c =
    elim (Bool-cases (str_eq strategy "least-latency")) [
      | inl e ↦ rw e fastest
      | inr e ↦ elim (Bool-cases (str_eq strategy "round-robin")) [
        | inl e2 ↦ rw (e, e2) (select_round_robin-IsIn lb node (node' ∷ nodes) group)
        | inr e2 ↦ elim (Bool-cases (str_eq strategy "random")) [
          | inl e3 ↦ rw (e, e2, e3) (select_random-IsIn intn node (node' ∷ nodes) r)
          | inr e3 ↦ elim (Bool-cases (str_eq strategy "least-connections")) [
            | inl e4 ↦ rw (e, e2, e3, e4) idlest
            | inr e4 ↦ rw (e, e2, e3, e4) fastest
          ]
        ]
      ]
    ]
  where
    fastest :
        (t : ProxyOutbound) × (select_least_latency (node ∷ node' ∷ nodes) sort_by ≡ some t)
        × IsIn t (node ∷ node' ∷ nodes)
    fastest = elim (select_least_latency-choice node (node' ∷ nodes) sort_by) [
      | inl (h, _) ↦ (node, h, (0, refl))
      | inr (t, h, i, _) ↦ (t, h, i)
    ]

    idlest :
        (t : ProxyOutbound) × (select_least_connections (node ∷ node' ∷ nodes) ≡ some t)
        × IsIn t (node ∷ node' ∷ nodes)
    idlest = let (t, h, i, _) = select_least_connections-choice node (node' ∷ nodes) c in (t, h, i)
