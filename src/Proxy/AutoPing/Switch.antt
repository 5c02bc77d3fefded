-- ===== src/Proxy/AutoPing/Switch.antt =====
-- When maybeAutoSwitchServerNode and maybeAutoSwitchProxyPortNode move to another node.
use mcbeproxy.Base.{
  ℕ, ◌≡◌, ◌≢◌, refl, ◌∙◌, true, not, ◌||◌, String, str_eq, eq_iff, List, Option, some, arith, leb,
  Bool-cases, inl, inr, ◌⊎◌,
}
use mcbeproxy.Base.Int.{ℤ, pos, leb_ℤ, ◌<ℤ◌}
use mcbeproxy.Base.Map.{lookup, string_key, lookup-insert}
use mcbeproxy.Base.Library.{Library}
use mcbeproxy.Proxy.OutboundManager.{
  Runtime, ServerConfig, get_server_node_latency, get_server_selected_node,
  set_server_selected_node,
}
use mcbeproxy.Proxy.OutboundManager.BestNode.{get_best_node_for_server}
use mcbeproxy.Proxy.AutoPing.{AutoSwitch, or_empty, should_auto_switch, observe, maybe_auto_switch}

observe-manager :
    (st : AutoSwitch) (key current : String) (now : ℕ)
    → (observe st key current now).manager ≡ st.manager
observe-manager st key current now = ground arith

should_auto_switch-positive :
    (run : Runtime) (current : String) (latency : Option ℤ) (best : ℤ) (switched : Option ℕ)
    → should_auto_switch run current latency best switched ≡ true
    → pos 0 <ℤ best
unfolding should_auto_switch
should_auto_switch-positive run current latency best switched h =
    elim (Bool-cases (leb_ℤ best (pos 0))) [
      | inl e ↦ absurd (ground (arith, e))
      | inr e ↦ ground (arith, e)
    ]

module _ (go : Library) (run : Runtime) (servers : List (String × ServerConfig)) where
  -- Switching is for least-latency only, never while a session is active, and only to a best node
  -- that has a latency and is not the current one. Either the outbound manager stays as it was,
  -- or that node is selected automatically and the time of the switch is noted.
  pub maybe_auto_switch-cases :
      (st : AutoSwitch) (key selector_id strategy outbound sort_by : String) (active : ℕ)
      → ((maybe_auto_switch go run servers st key selector_id strategy outbound sort_by
            active).manager
          ≡ st.manager)
        ⊎ ((strategy ≡ "least-latency")
            × (active ≡ 0)
            × ((get_best_node_for_server go run st.manager servers selector_id
                  (go.trim_space outbound)
                  sort_by).0
                ≢ or_empty (get_server_selected_node go st.manager selector_id))
            × (pos 0
                <ℤ (get_best_node_for_server go run st.manager servers selector_id
                    (go.trim_space outbound)
                    sort_by).1)
            × ((maybe_auto_switch go run servers st key selector_id strategy outbound sort_by
                  active).manager
                ≡ set_server_selected_node go st.manager selector_id
                    (get_best_node_for_server go run st.manager servers selector_id
                      (go.trim_space outbound)
                      sort_by).0)
            × (lookup key
                  (maybe_auto_switch go run servers st key selector_id strategy outbound sort_by
                    active).last_switch
                ≡ some run.now))
  unfolding maybe_auto_switch should_auto_switch
  maybe_auto_switch-cases st key selector_id strategy outbound sort_by active =
      let best =
        get_best_node_for_server go run st.manager servers selector_id (go.trim_space outbound)
          sort_by in
      let current = or_empty (get_server_selected_node go st.manager selector_id) in
      let seen = observe st key current run.now in
      let latency = get_server_node_latency go run.now st.manager selector_id current sort_by in
      let same = observe-manager st key current run.now in
      let should = should_auto_switch run current latency best.1 (lookup key seen.last_switch) in
      elim (Bool-cases (not (str_eq strategy "least-latency") || str_eq best.0 "")) [
        | inl a ↦ inl (rw (maybe_auto_switch, a) refl)
        | inr a ↦ elim (Bool-cases (str_eq current best.0)) [
          | inl b ↦ inl (rw (maybe_auto_switch, a, b) same)
          | inr b ↦ elim (Bool-cases (leb active 0)) [
            | inr c ↦ inl (rw (maybe_auto_switch, a, b, c) same)
            | inl c ↦ elim (Bool-cases should) [
              | inr d ↦ inl (rw (maybe_auto_switch, a, b, c, d) same)
              | inl d ↦
                  (let least : strategy ≡ "least-latency" =
                      (eq_iff strategy "least-latency").0 (ground (arith, a)) in
                    let faster =
                      should_auto_switch-positive run current latency best.1
                        (lookup key seen.last_switch) d in
                    let differs : best.0 ≢ current =
                      (λ e. ground (arith, b, eq_iff current best.0, e)) in
                    inr (
                      rw (maybe_auto_switch, a, b, c, d)
                        (
                          least,
                          ground (arith, c),
                          differs,
                          faster,
                          refl,
                          lookup-insert key key run.now seen.last_switch
                              ∙ ground (arith, eq_iff key key),
                        )))
            ]
          ]
        ]
      ]
