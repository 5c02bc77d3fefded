-- ===== src/Proxy/OutboundManager/ForServer.antt =====
-- internal/proxy/outbound_manager.go: SelectOutboundWithFailoverForServer, the choice of a node
-- for one server, with the server's bans, its pinned node and the latencies measured for it.
use mcbeproxy.Base.{
  Bool, true, false, not, ◌&&◌, ◌||◌, String, str_eq, List, Option, none, some, if◌then◌else◌,
}
use Prim.Native.String.{◌++◌ as str_append}
use mcbeproxy.Base.Int.{ℤ, pos}
use mcbeproxy.Base.Map.{lookup, string_key}
use mcbeproxy.Base.Library.{Library}
use mcbeproxy.Proxy.LoadBalancer.{ProxyOutbound, LoadBalancer, select}
use mcbeproxy.Proxy.OutboundManager.{
  Runtime, OutboundManager, ServerConfig, normalize_sort_by, get_server_node_latency,
  get_server_selected_node, is_server_node_manual,
}
use mcbeproxy.Proxy.OutboundManager.Select.{
  no_healthy_nodes, not_found, group_not_found, Selection, chosen, refused, direct_node,
  is_auto_select_blocked, has_failed_recently, is_excluded, is_nil, none_left, selection_of,
  supports_sort, is_selectable, list_candidates, group_candidates, select_single_node,
  select_with_failover,
}
use mcbeproxy.Proxy.OutboundManager.BestNode.{
  should_prefer_best, select_least_latency_for_server, is_blocked_for, selector_includes,
  get_best_node_for_server,
}

module _ (go : Library) (run : Runtime) where
  -- Should the pinned node give way to the best one?
  abbrev pub gives_way : Bool → String → String × ℤ → String → Option ℤ → Bool
  gives_way manual strategy best pinned latency =
      if not manual
        && str_eq strategy "least-latency"
        && not (str_eq best.0 "")
        && not (str_eq best.0 pinned)
      then (elim latency [ none ↦ true | some l ↦ should_prefer_best run l best.1 ])
      else false

  -- The part of SelectOutboundWithFailoverForServer for a pinned node; `server`, `strategy` and
  -- `sort_by` are trimmed and normalized.
  unfoldable pub select_pinned :
      OutboundManager
      → List (String × ServerConfig)
      → String
      → String
      → String
      → String
      → List String
      → String
      → Option ProxyOutbound
  select_pinned m servers server selector strategy sort_by exclude pinned =
      let manual = is_server_node_manual go m server in
      let least = str_eq strategy "least-latency" in
      let best =
        if least
        then get_best_node_for_server go run m servers server selector sort_by
        else ("", pos 0) in
      let latency = get_server_node_latency go run.now m server pinned sort_by in
      let keeps = not (gives_way manual strategy best pinned latency) in
      if not (manual || least)
        || is_blocked_for go run servers server pinned
        || is_excluded exclude pinned
      then none
      else (if str_eq pinned "direct" && selector_includes go run selector "direct" "" && keeps
          then some direct_node
          else elim (lookup pinned m.outbounds) [
            | none ↦ none
            | some o ↦
                if o.enabled
                  && not (is_auto_select_blocked run.now o)
                  && supports_sort go run o sort_by
                  && selector_includes go run selector o.name o.group
                  && not (has_failed_recently run.now o)
                  && keeps
                then some o
                else none
          ])

  -- The strategy of the two selections for a server.
  abbrev pub select_strategy :
      OutboundManager
      → LoadBalancer
      → String
      → List ProxyOutbound
      → String
      → String
      → String
      → LoadBalancer × Selection
  select_strategy m lb server nodes strategy sort_by group =
      let latency = λ (name : String). get_server_node_latency go run.now m server name sort_by in
      if str_eq strategy "least-latency"
      then selection_of (select_least_latency_for_server latency run lb nodes sort_by)
      else selection_of (select run.rand_intn lb nodes strategy sort_by group)

  -- `excludeSet`: the names to exclude and the server's bans.
  abbrev pub is_kept_out : List (String × ServerConfig) → String → List String → String → Bool
  is_kept_out servers server exclude name =
      is_excluded exclude name || is_blocked_for go run servers server name

  unfoldable pub select_from_node_list_for_server :
      OutboundManager
      → LoadBalancer
      → List (String × ServerConfig)
      → String
      → String
      → String
      → String
      → List String
      → LoadBalancer × Selection
  select_from_node_list_for_server m lb servers server list strategy sort_by exclude =
      let test = λ (o : ProxyOutbound). supports_sort go run o sort_by && is_selectable go run o in
      let found =
        list_candidates go run m.outbounds (is_kept_out servers server exclude) test
          (go.split list ",") in
      if is_nil found.0
      then (lb, refused (if is_nil found.1 then none_left exclude else not_found))
      else select_strategy m lb server found.0 strategy sort_by (str_append "nodelist:" list)

  unfoldable pub select_from_group_for_server :
      OutboundManager
      → LoadBalancer
      → List (String × ServerConfig)
      → String
      → String
      → String
      → String
      → List String
      → LoadBalancer × Selection
  select_from_group_for_server m lb servers server group strategy sort_by exclude =
      let found =
        group_candidates go run (is_kept_out servers server exclude) group sort_by m.outbounds in
      if not found.1
      then (lb, refused group_not_found)
      else (if is_nil found.0
          then (lb, refused (none_left exclude))
          else select_strategy m lb server (run.sort_by_name found.0) strategy sort_by group)

  -- The selection after the pinned node.
  unfoldable pub select_unpinned :
      OutboundManager
      → LoadBalancer
      → List (String × ServerConfig)
      → String
      → String
      → String
      → String
      → List String
      → LoadBalancer × Selection
  select_unpinned m lb servers server selector strategy sort_by exclude =
      if go.has_prefix selector "@"
      then select_from_group_for_server m lb servers server (go.trim_prefix selector "@") strategy
          sort_by exclude
      else (if go.contains selector ","
          then select_from_node_list_for_server m lb servers server selector strategy sort_by
              exclude
          else (if is_blocked_for go run servers server selector
              then (lb, refused no_healthy_nodes)
              else (lb, select_single_node go run m.outbounds selector exclude)))

  unfoldable pub select_with_failover_for_server :
      OutboundManager
      → LoadBalancer
      → List (String × ServerConfig)
      → String
      → String
      → String
      → String
      → List String
      → LoadBalancer × Selection
  select_with_failover_for_server m lb servers raw_server selector raw_strategy raw_sort exclude =
      let server = go.trim_space raw_server in
      let strategy = go.trim_space raw_strategy in
      let sort_by = normalize_sort_by go raw_sort in
      let rest = select_unpinned m lb servers server selector strategy sort_by exclude in
      if str_eq server ""
      then select_with_failover go run lb m.outbounds selector strategy sort_by exclude
      else elim (get_server_selected_node go m server) [
        | none ↦ rest
        | some pinned ↦
            elim (select_pinned m servers server selector strategy sort_by exclude pinned) [
              | none ↦ rest
              | some o ↦ (lb, chosen o)
            ]
      ]
