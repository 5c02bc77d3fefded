-- ===== src/Proxy/LoadBalancer/Choice.antt =====
-- What the strategies of internal/proxy/load_balancer.go choose.
use mcbeproxy.Base.{
  ℕ, suc, ◌≡◌, ◌⊎◌, refl, sym, ap, String, List, [], ◌∷◌, none, some, arith, get_elem?, All,
  Bool-cases, inl, inr,
}
use mcbeproxy.Base.Int.{pos, negsuc, ltb_ℤ, leb_ℤ, ◌≤ℤ◌, ◌<ℤ◌}
use mcbeproxy.Proxy.LoadBalancer.{
  ProxyOutbound, latency_by, scan_latency, select_least_latency, scan_connections,
  select_least_connections,
}

-- The node stands in the list.
abbrev pub IsIn : ProxyOutbound → List ProxyOutbound → Type 0
IsIn node nodes = (i : ℕ) × (get_elem? nodes i ≡ some node)

abbrev pub IsMeasured : String → ProxyOutbound → Type 0
IsMeasured sort_by node = pos 0 <ℤ latency_by sort_by node

-- `t` is measured, and no measured node of the list has a lower latency.
abbrev pub IsFastest : String → ProxyOutbound → List ProxyOutbound → Type 0
IsFastest sort_by t nodes =
    IsMeasured sort_by t
    × All (λ n. IsMeasured sort_by n → latency_by sort_by t ≤ℤ latency_by sort_by n) nodes

-- One step further from the head of the list.
there :
    (t : ProxyOutbound) (n : ProxyOutbound) (nodes : List ProxyOutbound)
    → IsIn t nodes
    → IsIn t (n ∷ nodes)
there t n nodes (i, e) = (suc i, e)

scan_latency-some :
    (sort_by : String) (nodes : List ProxyOutbound) (s : ProxyOutbound)
    → IsMeasured sort_by s
    → (t : ProxyOutbound) × (scan_latency sort_by nodes (some s) (latency_by sort_by s) ≡ some t)
      × ((t ≡ s) ⊎ IsIn t nodes)
      × (latency_by sort_by t ≤ℤ latency_by sort_by s)
      × IsFastest sort_by t nodes
unfolding scan_latency
scan_latency-some sort_by [] s m = (s, refl, inl refl, omega arith, (m, tt))
scan_latency-some sort_by (n ∷ nodes) s m =
    elim (Bool-cases (leb_ℤ (latency_by sort_by n) (pos 0))) [
      | inl unmeasured ↦
          (let (t, e, w, b, f) = scan_latency-some sort_by nodes s m in
            (
              t,
              rw unmeasured e,
              elim w [ inl same ↦ inl same | inr i ↦ inr (there t n nodes i) ],
              b,
              (f.0, ((λ h. absurd (ground arith)), f.1)),
            ))
      | inr measured ↦ elim (Bool-cases (ltb_ℤ (latency_by sort_by n) (latency_by sort_by s))) [
        | inl faster ↦
            (let positive : IsMeasured sort_by n = ground arith in
              let (t, e, w, b, f) = scan_latency-some sort_by nodes n positive in
              (
                t,
                rw (measured, faster) (ground arith),
                elim w [ inl same ↦ inr (0, ap some (sym same)) | inr i ↦ inr (there t n nodes i) ],
                ground arith,
                (f.0, ((λ h. b), f.1)),
              ))
        | inr slower ↦
            (let (t, e, w, b, f) = scan_latency-some sort_by nodes s m in
              (
                t,
                rw (measured, slower) (ground arith),
                elim w [ inl same ↦ inl same | inr i ↦ inr (there t n nodes i) ],
                b,
                (f.0, ((λ h. ground arith), f.1)),
              ))
      ]
    ]

scan_latency-none :
    (sort_by : String) (nodes : List ProxyOutbound)
    → ((scan_latency sort_by nodes none (negsuc 0) ≡ none)
        × All (λ n. ¬ IsMeasured sort_by n) nodes)
      ⊎ ((t : ProxyOutbound) × (scan_latency sort_by nodes none (negsuc 0) ≡ some t)
          × IsIn t nodes
          × IsFastest sort_by t nodes)
unfolding scan_latency
scan_latency-none sort_by [] = inl (refl, tt)
scan_latency-none sort_by (n ∷ nodes) = elim (Bool-cases (leb_ℤ (latency_by sort_by n) (pos 0))) [
  | inl unmeasured ↦ elim (scan_latency-none sort_by nodes) [
    | inl (e, a) ↦ inl (rw unmeasured e, ((λ h. ground arith), a))
    | inr (t, e, i, f) ↦
        inr (t, rw unmeasured e, there t n nodes i, (f.0, ((λ h. absurd (ground arith)), f.1)))
  ]
  | inr measured ↦
      (let positive : IsMeasured sort_by n = ground arith in
        let (t, e, w, b, f) = scan_latency-some sort_by nodes n positive in
        inr (
          t,
          rw measured e,
          elim w [ inl same ↦ (0, ap some (sym same)) | inr i ↦ there t n nodes i ],
          (f.0, ((λ h. b), f.1)),
        ))
]

-- On a list that is not empty the least-latency choice is a node of the list: the first one if no
-- node has a latency above 0 for the sort key, and else one that has, with none lower.
pub select_least_latency-choice :
    (node : ProxyOutbound) (nodes : List ProxyOutbound) (sort_by : String)
    → ((select_least_latency (node ∷ nodes) sort_by ≡ some node)
        × All (λ n. ¬ IsMeasured sort_by n) (node ∷ nodes))
      ⊎ ((t : ProxyOutbound) × (select_least_latency (node ∷ nodes) sort_by ≡ some t)
          × IsIn t (node ∷ nodes)
          × IsFastest sort_by t (node ∷ nodes))
unfolding select_least_latency
select_least_latency-choice node nodes sort_by = elim (scan_latency-none sort_by (node ∷ nodes)) [
  | inl (e, a) ↦ inl (rw (select_least_latency, e), a)
  | inr (t, e, i, f) ↦ inr (t, rw (select_least_latency, e), i, f)
]

abbrev pub IsCount : ProxyOutbound → Type 0
IsCount n = pos 0 ≤ℤ n.conn_count

scan_connections-some :
    (nodes : List ProxyOutbound) (s : ProxyOutbound)
    → IsCount s
    → All IsCount nodes
    → (t : ProxyOutbound) × (scan_connections nodes (some s) s.conn_count ≡ some t)
      × ((t ≡ s) ⊎ IsIn t nodes)
      × (t.conn_count ≤ℤ s.conn_count)
      × All (λ n. t.conn_count ≤ℤ n.conn_count) nodes
unfolding scan_connections
scan_connections-some [] s c a = (s, refl, inl refl, omega arith, tt)
scan_connections-some (n ∷ nodes) s c a = elim (Bool-cases (ltb_ℤ n.conn_count s.conn_count)) [
  | inl fewer ↦
      (let (t, e, w, b, f) = scan_connections-some nodes n a.0 a.1 in
        (
          t,
          rw fewer (ground arith),
          elim w [ inl same ↦ inr (0, ap some (sym same)) | inr i ↦ inr (there t n nodes i) ],
          ground arith,
          (b, f),
        ))
  | inr more ↦
      (let (t, e, w, b, f) = scan_connections-some nodes s c a.1 in
        (
          t,
          rw more (ground arith),
          elim w [ inl same ↦ inl same | inr i ↦ inr (there t n nodes i) ],
          b,
          (ground arith, f),
        ))
]

-- On a list that is not empty, where no count of connections is negative, the least-connections
-- choice is a node of the list and no node has fewer connections.
pub select_least_connections-choice :
    (node : ProxyOutbound) (nodes : List ProxyOutbound)
    → All IsCount (node ∷ nodes)
    → (t : ProxyOutbound) × (select_least_connections (node ∷ nodes) ≡ some t)
      × IsIn t (node ∷ nodes)
      × All (λ n. t.conn_count ≤ℤ n.conn_count) (node ∷ nodes)
unfolding select_least_connections scan_connections
select_least_connections-choice node nodes a =
    let (t, e, w, b, f) = scan_connections-some nodes node a.0 a.1 in
    (t, e, elim w [ inl same ↦ (0, ap some (sym same)) | inr i ↦ there t node nodes i ], (b, f))
