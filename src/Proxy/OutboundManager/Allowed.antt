-- ===== src/Proxy/OutboundManager/Allowed.antt =====
-- The node that SelectOutboundWithFailoverForServer gives is one that may be given.
use mcbeproxy.Base.{
  ◌≡◌, refl, sym, ◌∙◌, ap, subst, false, not, ◌&&◌, ◌||◌, String, str_eq, eq_iff, List, arith,
  if◌then◌else◌, All, Bool-cases, Option-cases, inl, inr,
}
use mcbeproxy.Base.Map.{lookup, string_key, All-lookup}
use mcbeproxy.Base.Library.{Library}
use mcbeproxy.Proxy.LoadBalancer.{ProxyOutbound, LoadBalancer}
use mcbeproxy.Base.Int.{pos}
use mcbeproxy.Proxy.OutboundManager.{
  Runtime, is_server_node_manual, OutboundManager, ServerConfig, normalize_sort_by,
  get_server_selected_node, get_server_node_latency,
}
use mcbeproxy.Proxy.OutboundManager.Nodes.{IsNamed, IsKeyed}
use mcbeproxy.Proxy.OutboundManager.Select.{
  Selection, is_auto_select_blocked, has_failed_recently, chosen, supports_sort, is_selectable,
  is_excluded, is_nil, list_candidates, group_candidates, select_with_failover,
}
use mcbeproxy.Proxy.OutboundManager.BestNode.{
  is_blocked_for, get_best_node_for_server, selector_includes,
}
use mcbeproxy.Proxy.OutboundManager.ForServer.{
  is_kept_out, gives_way, select_pinned, select_strategy, select_from_node_list_for_server,
  select_from_group_for_server, select_unpinned, select_with_failover_for_server,
}
use mcbeproxy.Proxy.OutboundManager.Candidates.{
  OnSome, OnChosen, select-OnSome, select_least_latency_for_server-OnSome, selection_of-OnChosen,
}
use mcbeproxy.Proxy.OutboundManager.Failover.{KeepsNodes, select_with_failover-Fits}
use mcbeproxy.Proxy.OutboundManager.Fits.{
  IsKnown, Fits, all_found, selectable-enabled, list_candidates-Fits, group_candidates-Fits,
  select_single_node-Fits, test-OnResult, test-OnSome, found-OnSome,
}

module _ (go : Library) (run : Runtime) (m : OutboundManager) (k : IsKeyed m.outbounds)
    (sorts : KeepsNodes run) where
  select_strategy-OnChosen :
      (P : ProxyOutbound → Type 0) (lb : LoadBalancer) (server : String)
      (nodes : List ProxyOutbound) (strategy sort_by group : String)
      → All P nodes
      → OnChosen P (select_strategy go run m lb server nodes strategy sort_by group).1
  select_strategy-OnChosen P lb server nodes strategy sort_by group h =
      elim (Bool-cases (str_eq strategy "least-latency")) [
        | inl e ↦ rw e (
            selection_of-OnChosen P _
              (select_least_latency_for_server-OnSome P _ run lb nodes sort_by h))
        | inr e ↦ rw e (
            selection_of-OnChosen P _
              (select-OnSome P run.rand_intn lb nodes strategy sort_by group h))
      ]

  -- From here on the set of excluded names holds the server's bans too.
  module _ (servers : List (String × ServerConfig)) (server : String) (lb : LoadBalancer)
      (tried : List String) where
    abbrev Good : ProxyOutbound → Type 0
    Good = Fits (is_kept_out go run servers server tried) m.outbounds

    select_from_node_list_for_server-Fits :
        (list strategy sort_by : String)
        → OnChosen Good
            (select_from_node_list_for_server go run m lb servers server list strategy sort_by
              tried).1
    unfolding select_from_node_list_for_server
    select_from_node_list_for_server-Fits list strategy sort_by =
        let test =
          λ (o : ProxyOutbound). supports_sort go run o sort_by && is_selectable go run o in
        let out = is_kept_out go run servers server tried in
        let found = list_candidates go run m.outbounds out test (go.split list ",") in
        let fits =
          list_candidates-Fits go run out m.outbounds k test (go.split list ",")
            (λ o h. selectable-enabled go run o (ground arith)) in
        test-OnResult Good (is_nil found.0) _ _ tt
          (λ left. select_strategy-OnChosen Good lb server found.0 strategy sort_by _ fits)

    select_from_group_for_server-Fits :
        (group strategy sort_by : String)
        → OnChosen Good
            (select_from_group_for_server go run m lb servers server group strategy sort_by tried).1
    unfolding select_from_group_for_server
    select_from_group_for_server-Fits group strategy sort_by =
        let out = is_kept_out go run servers server tried in
        let found = group_candidates go run out group sort_by m.outbounds in
        let fits = sorts Good found.0 (
          group_candidates-Fits go run out m.outbounds k group sort_by m.outbounds
            (all_found m.outbounds k.0) k.1) in
        test-OnResult Good (not found.1) _ _ tt (λ there.
          test-OnResult Good (is_nil found.0) _ _ tt (λ left.
            select_strategy-OnChosen Good lb server (run.sort_by_name found.0) strategy sort_by
              group fits))

    select_unpinned-Fits :
        (selector strategy sort_by : String)
        → OnChosen Good
            (select_unpinned go run m lb servers server selector strategy sort_by tried).1
    unfolding select_unpinned
    select_unpinned-Fits selector strategy sort_by =
        test-OnResult Good (go.has_prefix selector "@") _ _
          (select_from_group_for_server-Fits _ strategy sort_by)
          (λ g.
            test-OnResult Good (go.contains selector ",") _ _
              (select_from_node_list_for_server-Fits selector strategy sort_by)
              (λ l.
                test-OnResult Good (is_blocked_for go run servers server selector) _ _ tt (λ free.
                  select_single_node-Fits go run (is_kept_out go run servers server tried)
                    m.outbounds k selector tried (ground (arith, free)))))

    select_pinned-Fits :
        (selector strategy sort_by pinned : String)
        → OnSome Good (select_pinned go run m servers server selector strategy sort_by tried pinned)
    unfolding select_pinned
    select_pinned-Fits selector strategy sort_by pinned =
        let kept_out = is_kept_out go run servers server tried in
        let manual = is_server_node_manual go m server in
        let least = str_eq strategy "least-latency" in
        let best =
          if least
          then get_best_node_for_server go run m servers server selector sort_by
          else ("", pos 0) in
        let latency = get_server_node_latency go run.now m server pinned sort_by in
        let keeps = not (gives_way go run manual strategy best pinned latency) in
        let stop =
          not (manual || least)
          || is_blocked_for go run servers server pinned
          || is_excluded tried pinned in
        let direct =
          str_eq pinned "direct" && selector_includes go run selector "direct" "" && keeps in
        let usable = λ (o : ProxyOutbound).
          o.enabled
          && not (is_auto_select_blocked run.now o)
          && supports_sort go run o sort_by
          && selector_includes go run selector o.name o.group
          && not (has_failed_recently run.now o)
          && keeps in
        test-OnSome Good stop _ _ (λ out. tt)
          (λ open'.
            test-OnSome Good direct _ _
              (λ d. (
                (subst (λ (s : String). kept_out s ≡ false)
                    ((eq_iff pinned "direct").0 (ground arith)) (ground arith)),
                inl refl,
              ))
              (λ other. found-OnSome Good (lookup pinned m.outbounds) usable (λ o found good.
                (let named : o.name ≡ pinned = All-lookup IsNamed pinned o m.outbounds k.1 found in
                  (
                    (subst (λ (s : String). kept_out s ≡ false) (sym named) (ground arith)),
                    inr (ap (λ (s : String). lookup s m.outbounds) named ∙ found, ground arith),
                  )))))

  chosen-OnChosen :
      (P : ProxyOutbound → Type 0) (s : Selection) (o : ProxyOutbound)
      → s ≡ chosen o
      → OnChosen P s
      → P o
  chosen-OnChosen P s o e h = subst (OnChosen P) e h

  select_for_server-OnChosen :
      (servers : List (String × ServerConfig)) (lb : LoadBalancer) (tried : List String)
      (raw_server selector raw_strategy raw_sort : String)
      → str_eq (go.trim_space raw_server) "" ≡ false
      → OnChosen
          (Fits (is_kept_out go run servers (go.trim_space raw_server) tried) m.outbounds)
          (select_with_failover_for_server go run m lb servers raw_server selector raw_strategy
            raw_sort tried).1
  unfolding select_with_failover_for_server
  select_for_server-OnChosen servers lb tried raw_server selector raw_strategy raw_sort given =
      let server = go.trim_space raw_server in
      let strategy = go.trim_space raw_strategy in
      let sort_by = normalize_sort_by go raw_sort in
      let P = Fits (is_kept_out go run servers server tried) m.outbounds in
      let rest = select_unpinned-Fits servers server lb tried selector strategy sort_by in
      elim (Option-cases (get_server_selected_node go m server)) [
        | inl unpinned ↦ rw (OnChosen, select_with_failover_for_server, given, unpinned) rest
        | inr (pinned, e) ↦
            (let fits =
                select_pinned-Fits servers server lb tried selector strategy sort_by pinned in
              elim (Option-cases
                (select_pinned go run m servers server selector strategy sort_by tried pinned)) [
                  | inl no_pin ↦
                      rw (OnChosen, select_with_failover_for_server, given, e, no_pin) rest
                  | inr (o, f) ↦
                      rw (OnChosen, select_with_failover_for_server, given, e, f)
                        (subst (OnSome P) f fits)
                ])
      ]

  -- Where nodes are under their own names and sorting keeps the nodes, the node that is given for
  -- a server whose id is not blank is none of the excluded names and has no ban of this server
  -- that is still active; it is the direct connection or a node of the manager that is enabled.
  -- This holds for a pinned node, for a group, for a list and for a single name.
  pub select_with_failover_for_server-allowed :
      (servers : List (String × ServerConfig)) (lb : LoadBalancer) (tried : List String)
      (raw_server selector raw_strategy raw_sort : String) (o : ProxyOutbound)
      → str_eq (go.trim_space raw_server) "" ≡ false
      → (select_with_failover_for_server go run m lb servers raw_server selector raw_strategy
          raw_sort tried).1
        ≡ chosen o
      → (is_excluded tried o.name ≡ false)
        × (is_blocked_for go run servers (go.trim_space raw_server) o.name ≡ false)
        × IsKnown m.outbounds o
  select_with_failover_for_server-allowed servers lb tried raw_server selector strategy sort_by o
        given e =
      let out = is_kept_out go run servers (go.trim_space raw_server) tried in
      let fits =
        chosen-OnChosen (Fits out m.outbounds) _ o e (
          select_for_server-OnChosen servers lb tried raw_server selector strategy sort_by given) in
      (ground (arith, fits.0), ground (arith, fits.0), fits.1)

  -- The same without a server: an excluded name is never given again, so each failover goes to
  -- another node; what is given is the direct connection or a node that is enabled.
  pub select_with_failover-allowed :
      (lb : LoadBalancer) (selector strategy sort_by : String) (tried : List String)
      (o : ProxyOutbound)
      → (select_with_failover go run lb m.outbounds selector strategy sort_by tried).1 ≡ chosen o
      → (is_excluded tried o.name ≡ false) × IsKnown m.outbounds o
  select_with_failover-allowed lb selector strategy sort_by tried o e =
      chosen-OnChosen (Fits (is_excluded tried) m.outbounds) _ o e
        (select_with_failover-Fits go run m k sorts lb selector strategy sort_by tried)
