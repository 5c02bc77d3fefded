-- ===== src/Proxy/OutboundManager/Candidates.antt =====
-- The nodes among which internal/proxy/outbound_manager.go chooses, and what the strategies keep
-- of them: a property of every candidate is one of the choice.
use mcbeproxy.Base.{
  ℕ, zero, suc, subst, Bool, true, false, ◌||◌, String, str_eq, List, [], ◌∷◌, Option, none, some,
  All, get_elem?, Bool-cases, Option-cases, inl, inr,
}
use mcbeproxy.Base.Int.{ℤ, pos, negsuc, ltb_ℤ, leb_ℤ}
use mcbeproxy.Base.Map.{string_key}
use mcbeproxy.Proxy.LoadBalancer.{
  ProxyOutbound, LoadBalancer, latency_by, scan_latency, select_least_latency, select_round_robin,
  select_random, scan_connections, select_least_connections, select,
}
use mcbeproxy.Proxy.OutboundManager.{Runtime}
use mcbeproxy.Proxy.OutboundManager.Select.{Selection, chosen, refused, selection_of}
use mcbeproxy.Proxy.OutboundManager.BestNode.{
  scan_cached, first_node, select_least_latency_for_server,
}

-- A property of a result, where there is one.
abbrev pub OnSome {ℓ κ} : {A : Type ℓ} → (A → Type κ) → Option A → Type κ
OnSome P none = Unit
OnSome P (some a) = P a

abbrev pub OnChosen : (ProxyOutbound → Type 0) → Selection → Type 0
OnChosen P (chosen o) = P o
OnChosen P (refused e) = Unit

module _ (P : ProxyOutbound → Type 0) where
  get_elem?-OnSome :
      (nodes : List ProxyOutbound) (i : ℕ) → All P nodes → OnSome P (get_elem? nodes i)
  get_elem?-OnSome [] i h = tt
  get_elem?-OnSome (n ∷ nodes) zero h = h.0
  get_elem?-OnSome (n ∷ nodes) (suc i) h = get_elem?-OnSome nodes i h.1

  scan_latency-OnSome :
      (s : String) (nodes : List ProxyOutbound) (selected : Option ProxyOutbound) (least : ℤ)
      → OnSome P selected
      → All P nodes
      → OnSome P (scan_latency s nodes selected least)
  unfolding scan_latency
  scan_latency-OnSome s [] selected least p h = p
  scan_latency-OnSome s (n ∷ nodes) selected least p h =
      let skipped = scan_latency-OnSome s nodes selected least p h.1 in
      let taken = scan_latency-OnSome s nodes (some n) (latency_by s n) h.0 h.1 in
      elim (Bool-cases (leb_ℤ (latency_by s n) (pos 0))) [
        | inl e ↦ rw e skipped
        | inr e ↦ elim (Bool-cases (ltb_ℤ least (pos 0) || ltb_ℤ (latency_by s n) least)) [
          | inl t ↦ rw (e, t) taken
          | inr t ↦ rw (e, t) skipped
        ]
      ]

  select_least_latency-OnSome :
      (nodes : List ProxyOutbound) (s : String)
      → All P nodes
      → OnSome P (select_least_latency nodes s)
  unfolding select_least_latency
  select_least_latency-OnSome [] s h = tt
  select_least_latency-OnSome (n ∷ nodes) s h =
      let scanned = scan_latency-OnSome s (n ∷ nodes) none (negsuc 0) tt h in
      elim (Option-cases (scan_latency s (n ∷ nodes) none (negsuc 0))) [
        | inl e ↦ rw (select_least_latency, e) h.0
        | inr (t, e) ↦ rw (select_least_latency, e) (subst (OnSome P) e scanned)
      ]

  scan_connections-OnSome :
      (nodes : List ProxyOutbound) (selected : Option ProxyOutbound) (least : ℤ)
      → OnSome P selected
      → All P nodes
      → OnSome P (scan_connections nodes selected least)
  unfolding scan_connections
  scan_connections-OnSome [] selected least p h = p
  scan_connections-OnSome (n ∷ nodes) selected least p h =
      elim (Bool-cases (ltb_ℤ least (pos 0) || ltb_ℤ n.conn_count least)) [
        | inl t ↦ rw t (scan_connections-OnSome nodes (some n) n.conn_count h.0 h.1)
        | inr t ↦ rw t (scan_connections-OnSome nodes selected least p h.1)
      ]

  select_round_robin-OnSome :
      (lb : LoadBalancer) (nodes : List ProxyOutbound) (group : String)
      → All P nodes
      → OnSome P (select_round_robin lb nodes group).1
  unfolding select_round_robin
  select_round_robin-OnSome lb [] group h = tt
  select_round_robin-OnSome lb (n ∷ nodes) group h = get_elem?-OnSome (n ∷ nodes) _ h

  select_random-OnSome :
      (intn : ℕ → ℕ) (nodes : List ProxyOutbound)
      → All P nodes
      → OnSome P (select_random intn nodes)
  unfolding select_random
  select_random-OnSome intn [] h = tt
  select_random-OnSome intn (n ∷ nodes) h = get_elem?-OnSome (n ∷ nodes) _ h

  pub select-OnSome :
      (intn : ℕ → ℕ) (lb : LoadBalancer) (nodes : List ProxyOutbound)
      (strategy sort_by group : String)
      → All P nodes
      → OnSome P (select intn lb nodes strategy sort_by group).1
  unfolding select select_least_connections
  select-OnSome intn lb [] strategy sort_by group h = tt
  select-OnSome intn lb (n ∷ []) strategy sort_by group h = h.0
  select-OnSome intn lb (n ∷ n' ∷ nodes) strategy sort_by group h =
      let all = n ∷ n' ∷ nodes in
      let fastest = select_least_latency-OnSome all sort_by h in
      elim (Bool-cases (str_eq strategy "least-latency")) [
        | inl e ↦ rw e fastest
        | inr e ↦ elim (Bool-cases (str_eq strategy "round-robin")) [
          | inl e2 ↦ rw (e, e2) (select_round_robin-OnSome lb all group h)
          | inr e2 ↦ elim (Bool-cases (str_eq strategy "random")) [
            | inl e3 ↦ rw (e, e2, e3) (select_random-OnSome intn all h)
            | inr e3 ↦ elim (Bool-cases (str_eq strategy "least-connections")) [
              | inl e4 ↦ rw (e, e2, e3, e4) (scan_connections-OnSome all none (negsuc 0) tt h)
              | inr e4 ↦ rw (e, e2, e3, e4) fastest
            ]
          ]
        ]
      ]

  module _ (latency : String → Option ℤ) where
    scan_cached-OnSome :
        (nodes : List ProxyOutbound) (selected : Option ProxyOutbound) (least : ℤ) (cached : Bool)
        → OnSome P selected
        → All P nodes
        → OnSome P (scan_cached latency nodes selected least cached).0
    unfolding scan_cached
    scan_cached-OnSome [] selected least cached p h = p
    scan_cached-OnSome (n ∷ nodes) selected least cached p h =
        elim (Option-cases (latency n.name)) [
          | inl e ↦
              rw (OnSome, scan_cached, e) (scan_cached-OnSome nodes selected least cached p h.1)
          | inr (l, e) ↦ elim (Bool-cases (leb_ℤ l (pos 0))) [
            | inl z ↦
                rw (OnSome, scan_cached, e, z)
                  (scan_cached-OnSome nodes selected least cached p h.1)
            | inr z ↦ elim (Bool-cases (ltb_ℤ least (pos 0) || ltb_ℤ l least)) [
              | inl t ↦
                  rw (OnSome, scan_cached, e, z, t)
                    (scan_cached-OnSome nodes (some n) l true h.0 h.1)
              | inr t ↦
                  rw (OnSome, scan_cached, e, z, t)
                    (scan_cached-OnSome nodes selected least true p h.1)
            ]
          ]
        ]

    pub select_least_latency_for_server-OnSome :
        (run : Runtime) (lb : LoadBalancer) (nodes : List ProxyOutbound) (sort_by : String)
        → All P nodes
        → OnSome P (select_least_latency_for_server latency run lb nodes sort_by).1
    unfolding select_least_latency_for_server
    select_least_latency_for_server-OnSome run lb nodes sort_by h =
        let scanned = scan_cached latency nodes none (negsuc 0) false in
        let kept : OnSome P scanned.0 = scan_cached-OnSome nodes none (negsuc 0) false tt h in
        elim (Bool-cases scanned.1) [
          | inr e ↦
              rw (OnSome, select_least_latency_for_server, e)
                (select-OnSome run.rand_intn lb nodes "least-latency" sort_by "" h)
          | inl e ↦ elim (Option-cases scanned.0) [
            | inr (o, f) ↦
                rw (OnSome, select_least_latency_for_server, e, f) (subst (OnSome P) f kept)
            | inl f ↦ rw (OnSome, select_least_latency_for_server, e, f) (first nodes h)
          ]
        ]
      where
        first : (nodes : List ProxyOutbound) → All P nodes → OnSome P (first_node nodes)
        first [] h = tt
        first (n ∷ nodes) h = h.0

  pub selection_of-OnChosen :
      (r : LoadBalancer × Option ProxyOutbound) → OnSome P r.1 → OnChosen P (selection_of r).1
  selection_of-OnChosen (lb, none) h = tt
  selection_of-OnChosen (lb, some o) h = h
