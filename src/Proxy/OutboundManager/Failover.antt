-- ===== src/Proxy/OutboundManager/Failover.antt =====
-- The lemmas on what SelectOutboundWithFailover gives: from a group, from a list, for one name.
use mcbeproxy.Base.{refl, not, String, List, All}
use mcbeproxy.Base.Map.{string_key}
use mcbeproxy.Base.Library.{Library}
use mcbeproxy.Proxy.LoadBalancer.{ProxyOutbound, LoadBalancer}
use mcbeproxy.Proxy.OutboundManager.{Runtime, OutboundManager}
use mcbeproxy.Proxy.OutboundManager.Nodes.{IsKeyed}
use mcbeproxy.Proxy.OutboundManager.Select.{
  is_selectable, is_excluded, is_nil, list_candidates, group_candidates, select_from_group,
  select_from_node_list, select_with_failover,
}
use mcbeproxy.Proxy.OutboundManager.Candidates.{OnChosen, select-OnSome, selection_of-OnChosen}
use mcbeproxy.Proxy.OutboundManager.Fits.{
  Fits, all_found, selectable-enabled, list_candidates-Fits, group_candidates-Fits,
  select_single_node-Fits, test-OnResult,
}

-- What is used of sort.Slice: a property of all the nodes is one of all the sorted nodes.
abbrev pub KeepsNodes : Runtime → Type 1
KeepsNodes run =
    (P : ProxyOutbound → Type 0) (nodes : List ProxyOutbound)
    → All P nodes
    → All P (run.sort_by_name nodes)

module _ (go : Library) (run : Runtime) (m : OutboundManager) (k : IsKeyed m.outbounds)
    (sorts : KeepsNodes run) where
  select_from_group-Fits :
      (lb : LoadBalancer) (group strategy sort_by : String) (tried : List String)
      → OnChosen
          (Fits (is_excluded tried) m.outbounds)
          (select_from_group go run lb m.outbounds group strategy sort_by tried).1
  unfolding select_from_group
  select_from_group-Fits lb group strategy sort_by tried =
      let P = Fits (is_excluded tried) m.outbounds in
      let found = (group_candidates go run (is_excluded tried) group sort_by m.outbounds) in
      let fits = sorts P found.0 (
        group_candidates-Fits go run (is_excluded tried) m.outbounds k group sort_by m.outbounds
          (all_found m.outbounds k.0) k.1) in
      test-OnResult P (not found.1) _ _ tt (λ there.
        test-OnResult P (is_nil found.0) _ _ tt (λ left. selection_of-OnChosen P _ (
          select-OnSome P run.rand_intn lb (run.sort_by_name found.0) strategy sort_by group fits)))

  select_from_node_list-Fits :
      (lb : LoadBalancer) (list strategy sort_by : String) (tried : List String)
      → OnChosen
          (Fits (is_excluded tried) m.outbounds)
          (select_from_node_list go run lb m.outbounds list strategy sort_by tried).1
  unfolding select_from_node_list
  select_from_node_list-Fits lb list strategy sort_by tried =
      let P = Fits (is_excluded tried) m.outbounds in
      let found =
        list_candidates go run m.outbounds (is_excluded tried) (is_selectable go run)
          (go.split list ",") in
      let fits =
        list_candidates-Fits go run (is_excluded tried) m.outbounds k (is_selectable go run)
          (go.split list ",") (selectable-enabled go run) in
      test-OnResult P (is_nil found.0) _ _ tt (λ left.
        selection_of-OnChosen P _
          (select-OnSome P run.rand_intn lb found.0 strategy sort_by _ fits))

  pub select_with_failover-Fits :
      (lb : LoadBalancer) (selector strategy sort_by : String) (tried : List String)
      → OnChosen
          (Fits (is_excluded tried) m.outbounds)
          (select_with_failover go run lb m.outbounds selector strategy sort_by tried).1
  unfolding select_with_failover
  select_with_failover-Fits lb selector strategy sort_by tried =
      let P = Fits (is_excluded tried) m.outbounds in
      test-OnResult P (go.has_prefix selector "@") _ _
        (select_from_group-Fits lb _ strategy sort_by tried)
        (λ g.
          test-OnResult P (go.contains selector ",") _ _
            (select_from_node_list-Fits lb selector strategy sort_by tried)
            (λ l.
              select_single_node-Fits go run (is_excluded tried) m.outbounds k selector tried refl))
