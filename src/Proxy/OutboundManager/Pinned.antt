-- ===== src/Proxy/OutboundManager/Pinned.antt =====
-- The pinned node of a server: setting and clearing it, and when it decides the selection.
use mcbeproxy.Base.{
  ◌≡◌, refl, true, false, not, String, str_eq, eq_iff, List, none, some, arith, if◌then◌else◌,
  Bool-cases, inl, inr, ◌⊎◌,
}
use mcbeproxy.Base.Int.{ℤ, pos, leb_ℤ, ◌<ℤ◌, ◌≤ℤ◌}
use mcbeproxy.Base.Map.{lookup, string_key, IsDistinct, lookup-insert, lookup-erase}
use mcbeproxy.Base.Library.{Library}
use mcbeproxy.Proxy.LoadBalancer.{ProxyOutbound, LoadBalancer}
use mcbeproxy.Proxy.OutboundManager.{
  Runtime, OutboundManager, ServerConfig, normalize_sort_by, get_server_selected_node,
  is_server_node_manual, set_server_selected_node, set_server_selected_node_manual,
}
use mcbeproxy.Proxy.OutboundManager.Select.{
  chosen, supports_sort, is_excluded, is_auto_select_blocked, has_failed_recently,
}
use mcbeproxy.Proxy.OutboundManager.BestNode.{is_blocked_for, selector_includes, should_prefer_best}
use mcbeproxy.Proxy.OutboundManager.ForServer.{select_pinned, select_with_failover_for_server}

-- If the best node is preferred to the pinned one, then the pinned one is never preferred to the
-- best one: two nodes cannot take each other's place in turn while their latencies stay. What is
-- preferred has a latency, and it is lower wherever the pinned node has one.
pub should_prefer_best-asymmetric :
    (run : Runtime) (pinned best : ℤ)
    → should_prefer_best run pinned best ≡ true
    → (should_prefer_best run best pinned ≡ false)
      × (pos 0 <ℤ best)
      × ((pinned ≤ℤ pos 0) ⊎ (best <ℤ pinned))
unfolding should_prefer_best
should_prefer_best-asymmetric run pinned best h = (
  ground arith,
  ground arith,
  elim (Bool-cases (leb_ℤ pinned (pos 0))) [
    | inl e ↦ inl (ground arith)
    | inr e ↦ inr (ground arith)
  ],
)

module _ (go : Library) where
  -- After a manual pin of a node with a name, that node is the server's and the pin is manual;
  -- after an automatic selection of it, the node is the server's and the pin is not manual;
  -- after an empty name, automatic or manual, the server has no node and the pin is not manual.
  pub get-set_server_selected_node :
      (m : OutboundManager) (server node : String)
      → IsDistinct m.server_selected_node
      → IsDistinct m.server_manual_node
      → str_eq (go.trim_space server) "" ≡ false
      → (get_server_selected_node go (set_server_selected_node_manual go m server node) server
          ≡ (if str_eq node "" then none else some node))
        × (is_server_node_manual go (set_server_selected_node_manual go m server node) server
            ≡ not (str_eq node ""))
        × (get_server_selected_node go (set_server_selected_node go m server node) server
            ≡ (if str_eq node "" then none else some node))
        × (is_server_node_manual go (set_server_selected_node go m server node) server ≡ false)
  unfolding get_server_selected_node is_server_node_manual set_server_selected_node
      set_server_selected_node_manual
  get-set_server_selected_node m raw_server node d b given =
      let server = go.trim_space raw_server in
      let self = eq_iff server server in
      let put = lookup-insert server server node m.server_selected_node in
      let dropped = lookup-erase server server m.server_selected_node d in
      let flag = lookup-insert server server true m.server_manual_node in
      let unflag = lookup-erase server server m.server_manual_node b in
      elim (Bool-cases (str_eq node "")) [
        | inl e ↦
            rw (e, given)
              (
                ground (arith, given, self, dropped),
                ground (arith, given, self, unflag),
                ground (arith, given, self, dropped),
                ground (arith, given, self, unflag),
              )
        | inr e ↦
            rw (e, given)
              (
                ground (arith, given, e, self, put),
                ground (arith, given, e, self, flag),
                ground (arith, given, e, self, put),
                ground (arith, given, e, self, unflag),
              )
      ]

  -- What the code asks of a pinned node, apart from its latency.
  pub record IsUsable (run : Runtime) (servers : List (String × ServerConfig))
      (server selector sort_by : String) (tried : List String) (o : ProxyOutbound) : Type 0 where
    pub real : str_eq o.name "direct" ≡ false
    pub fresh : is_excluded tried o.name ≡ false
    pub allowed : is_blocked_for go run servers server o.name ≡ false
    pub on : o.enabled ≡ true
    pub unblocked : is_auto_select_blocked run.now o ≡ false
    pub supported : supports_sort go run o sort_by ≡ true
    pub included : selector_includes go run selector o.name o.group ≡ true
    pub well : has_failed_recently run.now o ≡ false

  select_pinned-manual :
      (run : Runtime) (m : OutboundManager) (servers : List (String × ServerConfig))
      (server selector strategy sort_by : String) (tried : List String) (o : ProxyOutbound)
      → is_server_node_manual go m server ≡ true
      → lookup o.name m.outbounds ≡ some o
      → IsUsable run servers server selector sort_by tried o
      → select_pinned go run m servers server selector strategy sort_by tried o.name ≡ some o
  unfolding select_pinned
  select_pinned-manual run m servers server selector strategy sort_by tried o manual found u =
      rw (select_pinned, manual, u.real, u.fresh, u.allowed, found)
        (ground (arith, u.on, u.unblocked, u.supported, u.included, u.well))

  -- A node that an operator has pinned is the one that is given, whatever the strategy and
  -- however fast other nodes are, as long as it is enabled, not excluded, not banned, fit for the
  -- sort key, part of the selector and did not fail in the last 30 seconds.
  pub select_for_server-manual :
      (run : Runtime) (m : OutboundManager) (lb : LoadBalancer)
      (servers : List (String × ServerConfig)) (raw_server selector strategy sort_by : String)
      (tried : List String) (o : ProxyOutbound)
      → str_eq (go.trim_space raw_server) "" ≡ false
      → get_server_selected_node go m (go.trim_space raw_server) ≡ some o.name
      → is_server_node_manual go m (go.trim_space raw_server) ≡ true
      → lookup o.name m.outbounds ≡ some o
      → IsUsable run servers
          (go.trim_space raw_server)
          selector
          (normalize_sort_by go sort_by)
          tried
          o
      → select_with_failover_for_server go run m lb servers raw_server selector strategy sort_by
          tried
        ≡ (lb, chosen o)
  unfolding select_with_failover_for_server
  select_for_server-manual run m lb servers raw_server selector strategy sort_by tried o given pin
        manual found u =
      rw
        (
          select_with_failover_for_server,
          given,
          pin,
          select_pinned-manual run m servers (go.trim_space raw_server) selector
              (go.trim_space strategy) (normalize_sort_by go sort_by) tried o manual found u,
        )
        refl
