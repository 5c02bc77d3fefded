-- ===== src/Proxy/OutboundManager/Best.antt =====
-- The least-latency choice by the latencies measured for one server.
use mcbeproxy.Base.{
  suc, ◌≡◌, ◌⊎◌, refl, sym, ap, true, false, String, List, [], ◌∷◌, Option, none, some, arith, All,
  Bool-cases, Option-cases, inl, inr,
}
use mcbeproxy.Base.Int.{ℤ, pos, negsuc, ltb_ℤ, leb_ℤ, ◌≤ℤ◌, ◌<ℤ◌}
use mcbeproxy.Proxy.LoadBalancer.{ProxyOutbound, LoadBalancer, select}
use mcbeproxy.Proxy.LoadBalancer.Choice.{IsIn}
use mcbeproxy.Proxy.OutboundManager.{Runtime}
use mcbeproxy.Proxy.OutboundManager.BestNode.{scan_cached, select_least_latency_for_server}

module _ (latency : String → Option ℤ) where
  -- The node has this latency, which is above 0.
  abbrev pub IsCached : ProxyOutbound → ℤ → Type 0
  IsCached n l = (latency n.name ≡ some l) × (pos 0 <ℤ l)

  abbrev pub IsUncached : ProxyOutbound → Type 0
  IsUncached n = (l : ℤ) → ¬ IsCached n l

  -- No node of the list has a lower latency.
  abbrev pub IsLeast : ℤ → List ProxyOutbound → Type 0
  IsLeast least nodes = All (λ (n : ProxyOutbound). (l : ℤ) → IsCached n l → least ≤ℤ l) nodes

  there : (t n : ProxyOutbound) (nodes : List ProxyOutbound) → IsIn t nodes → IsIn t (n ∷ nodes)
  there t n nodes (i, e) = (suc i, e)

  scan_cached-some :
      (nodes : List ProxyOutbound) (s : ProxyOutbound) (l : ℤ)
      → IsCached s l
      → (t : ProxyOutbound) × (lt : ℤ) × (scan_cached latency nodes (some s) l true
          ≡ (some t, true))
        × IsCached t lt
        × (lt ≤ℤ l)
        × ((t ≡ s) ⊎ IsIn t nodes)
        × IsLeast lt nodes
  unfolding scan_cached
  scan_cached-some [] s l c = (s, l, refl, c, omega arith, inl refl, tt)
  scan_cached-some (n ∷ nodes) s l c = elim (Option-cases (latency n.name)) [
    | inl e ↦
        (let (t, lt, r, d, b, w, f) = scan_cached-some nodes s l c in
          (
            t,
            lt,
            rw (scan_cached, e) r,
            d,
            b,
            elim w [ inl same ↦ inl same | inr i ↦ inr (there t n nodes i) ],
            ((λ k h. absurd (ground (arith, h.0))), f),
          ))
    | inr (ln, e) ↦ elim (Bool-cases (leb_ℤ ln (pos 0))) [
      | inl z ↦
          (let (t, lt, r, d, b, w, f) = scan_cached-some nodes s l c in
            (
              t,
              lt,
              rw (scan_cached, e, z) r,
              d,
              b,
              elim w [ inl same ↦ inl same | inr i ↦ inr (there t n nodes i) ],
              ((λ k h. absurd (ground (arith, h.0, h.1))), f),
            ))
      | inr z ↦ elim (Bool-cases (ltb_ℤ ln l)) [
        | inl q ↦
            (let (t, lt, r, d, b, w, f) = scan_cached-some nodes n ln (e, ground arith) in
              (
                t,
                lt,
                rw (scan_cached, e, z) (ground (arith, q, c.1, r)),
                d,
                ground arith,
                elim w [ inl same ↦ inr (0, ap some (sym same)) | inr i ↦ inr (there t n nodes i) ],
                ((λ k h. ground (arith, h.0, b)), f),
              ))
        | inr q ↦
            (let (t, lt, r, d, b, w, f) = scan_cached-some nodes s l c in
              (
                t,
                lt,
                rw (scan_cached, e, z) (ground (arith, q, c.1, r)),
                d,
                b,
                elim w [ inl same ↦ inl same | inr i ↦ inr (there t n nodes i) ],
                ((λ k h. ground (arith, h.0, b)), f),
              ))
      ]
    ]
  ]

  scan_cached-none :
      (nodes : List ProxyOutbound)
      → ((scan_cached latency nodes none (negsuc 0) false ≡ (none, false)) × All IsUncached nodes)
        ⊎ ((t : ProxyOutbound) × (lt : ℤ) × (scan_cached latency nodes none (negsuc 0) false
              ≡ (some t, true))
            × IsCached t lt
            × IsIn t nodes
            × IsLeast lt nodes)
  unfolding scan_cached
  scan_cached-none [] = inl (refl, tt)
  scan_cached-none (n ∷ nodes) = elim (Option-cases (latency n.name)) [
    | inl e ↦ elim (scan_cached-none nodes) [
      | inl (r, a) ↦ inl (rw (scan_cached, e) r, ((λ l h. ground (arith, h.0)), a))
      | inr (t, lt, r, d, w, f) ↦ inr (
        t,
        lt,
        rw (scan_cached, e) r,
        d,
        there t n nodes w,
        ((λ k h. absurd (ground (arith, h.0))), f),
      )
    ]
    | inr (ln, e) ↦ elim (Bool-cases (leb_ℤ ln (pos 0))) [
      | inl z ↦ elim (scan_cached-none nodes) [
        | inl (r, a) ↦ inl (rw (scan_cached, e, z) r, ((λ l h. ground (arith, h.0, h.1)), a))
        | inr (t, lt, r, d, w, f) ↦ inr (
          t,
          lt,
          rw (scan_cached, e, z) r,
          d,
          there t n nodes w,
          ((λ k h. absurd (ground (arith, h.0, h.1))), f),
        )
      ]
      | inr z ↦
          (let (t, lt, r, d, b, w, f) = scan_cached-some nodes n ln (e, ground arith) in
            inr (
              t,
              lt,
              rw (scan_cached, e, z) r,
              d,
              elim w [ inl same ↦ (0, ap some (sym same)) | inr i ↦ there t n nodes i ],
              ((λ k h. ground (arith, h.0, b)), f),
            ))
    ]
  ]

  -- For a server, least-latency gives a node of the list with a latency measured for this server
  -- and none lower, where the list has one with such a latency; else it is the choice that Select
  -- makes by the latencies of the nodes themselves.
  pub select_least_latency_for_server-choice :
      (run : Runtime) (lb : LoadBalancer) (nodes : List ProxyOutbound) (sort_by : String)
      → ((select_least_latency_for_server latency run lb nodes sort_by
            ≡ select run.rand_intn lb nodes "least-latency" sort_by "")
          × All IsUncached nodes)
        ⊎ ((t : ProxyOutbound) × (lt : ℤ) × (select_least_latency_for_server latency run lb nodes
                sort_by
              ≡ (lb, some t))
            × IsCached t lt
            × IsIn t nodes
            × IsLeast lt nodes)
  unfolding select_least_latency_for_server
  select_least_latency_for_server-choice run lb nodes sort_by = elim (scan_cached-none nodes) [
    | inl (r, a) ↦ inl (rw (select_least_latency_for_server, r) refl, a)
    | inr (t, lt, r, d, w, f) ↦ inr (t, lt, rw (select_least_latency_for_server, r) refl, d, w, f)
  ]
