-- ===== src/Proxy/OutboundManager/Tests.antt =====
-- The theorems on the outbound manager at two nodes; texts are compared as they are, and a text
-- with a comma or an "@" is recognized by name.
use mcbeproxy.Base.{
  ◌≡◌, ◌≢◌, ◌⊎◌, refl, ◌-◌, true, false, String, str_eq, List, [], ◌∷◌, Option, none, some, All,
  if◌then◌else◌,
}
use mcbeproxy.Base.Int.{ℤ, pos, ◌<ℤ◌, ◌≤ℤ◌}
use mcbeproxy.Base.Map.{lookup, string_key, IsDistinct}
use mcbeproxy.Base.Library.{Library}
use mcbeproxy.Proxy.LoadBalancer.{ProxyOutbound, new_load_balancer, select}
use mcbeproxy.Proxy.LoadBalancer.Choice.{IsIn}
use mcbeproxy.Proxy.OutboundManager.{
  Runtime, OutboundManager, ServerConfig, update_outbound, get_server_selected_node,
  is_server_node_manual, get_server_node_latency, latency_key,
}
use mcbeproxy.Proxy.OutboundManager.Nodes.{IsKeyed, update_outbound-exact}
use mcbeproxy.Proxy.OutboundManager.Select.{
  chosen, is_excluded, select_with_failover, list_candidates, select_from_node_list,
}
use mcbeproxy.Proxy.OutboundManager.BestNode.{
  is_blocked_for, should_prefer_best, selector_includes, scan_cached,
  select_least_latency_for_server, has_entry,
}
use mcbeproxy.Proxy.OutboundManager.ForServer.{
  select_with_failover_for_server, select_unpinned, select_from_node_list_for_server,
}
use mcbeproxy.Proxy.OutboundManager.Fits.{IsKnown}
use mcbeproxy.Proxy.OutboundManager.Failover.{KeepsNodes}
use mcbeproxy.Proxy.OutboundManager.Allowed.{
  select_with_failover-allowed, select_with_failover_for_server-allowed,
}
use mcbeproxy.Proxy.OutboundManager.Pinned.{
  should_prefer_best-asymmetric, IsUsable, select_for_server-manual,
}
use mcbeproxy.Proxy.OutboundManager.Best.{
  IsCached, IsUncached, IsLeast, select_least_latency_for_server-choice,
}

abbrev pub go : Library
go = record {
  trim_space = λ s. s;
  to_lower = λ s. s;
  contains = λ s t. str_eq s "hk,jp";
  has_prefix = λ s t. false;
  trim_prefix = λ s t. s;
  split = λ s t. if str_eq s "hk,jp" then "hk" ∷ "jp" ∷ [] else s ∷ [];
  join = λ l t. "hk,jp";
  split_host_port = λ s. none;
  lookup_port = λ s. none;
  parse_cidr = λ s. false;
  parse_ip = λ s. false;
  parse_clock = λ s. false;
}

abbrev pub run : Runtime
run = record {
  rand_intn = λ n. n - 1;
  sort_by_name = λ nodes. nodes;
  is_metadata_like = λ name. false;
  is_relative_gain = λ gain pinned. false;
  now = 100;
}

abbrev node : String → ProxyOutbound
node name = record {
  name = name;
  tcp_latency_ms = pos 0;
  http_latency_ms = pos 0;
  udp_latency_ms = pos 20;
  conn_count = pos 0;
  outbound_type = "socks5";
  group = "asia";
  enabled = true;
  healthy = true;
  last_error = "";
  last_check = none;
  auto_select_blocked = false;
  auto_select_block_expires_at = none;
}

-- Two nodes; "jp" is pinned by hand for the server "srv", and "hk" is faster there.
abbrev pub manager : OutboundManager
manager = record {
  outbounds = ("hk", node "hk") ∷ ("jp", node "jp") ∷ [];
  singbox_outbounds = ("hk", 7) ∷ [];
  closed = [];
  server_node_latency =
      (
        record { server_id = "srv"; node_name = "hk"; sort_by = "udp" },
        record { latency_ms = pos 5; updated_at = 90 },
      )
      ∷ [];
  server_selected_node = ("srv", "jp") ∷ [];
  server_manual_node = ("srv", true) ∷ [];
}

-- The server "lan" bans "hk".
abbrev pub servers : List (String × ServerConfig)
servers =
    ("lan", record { proxy_outbound = "hk,jp"; auto_select_blocked_nodes = ("hk", none) ∷ [] }) ∷ []

manager-IsKeyed : IsKeyed manager.outbounds
unfolding lookup
manager-IsKeyed = ((refl, (refl, tt)), (refl, (refl, tt)))

run-KeepsNodes : KeepsNodes run
run-KeepsNodes P nodes h = h

select_with_failover_for_server-allowed_example :
    (is_excluded [] "jp" ≡ false)
    × (is_blocked_for go run servers "lan" "jp" ≡ false)
    × IsKnown manager.outbounds (node "jp")
unfolding select_with_failover_for_server get_server_selected_node select_unpinned
    select_from_node_list_for_server list_candidates is_blocked_for select_least_latency_for_server
    scan_cached get_server_node_latency select lookup
select_with_failover_for_server-allowed_example =
    select_with_failover_for_server-allowed go run manager manager-IsKeyed run-KeepsNodes servers
      new_load_balancer [] "lan" "hk,jp" "least-latency" "udp" (node "jp") refl refl

select_with_failover-allowed_example :
    (is_excluded ("hk" ∷ []) "jp" ≡ false) × IsKnown manager.outbounds (node "jp")
unfolding select_with_failover select_from_node_list list_candidates select lookup
select_with_failover-allowed_example =
    select_with_failover-allowed go run manager manager-IsKeyed run-KeepsNodes new_load_balancer
      "hk,jp" "round-robin" "udp" ("hk" ∷ []) (node "jp") refl

should_prefer_best-asymmetric_example :
    (should_prefer_best run (pos 10) (pos 30) ≡ false)
    × (pos 0 <ℤ pos 10)
    × ((pos 30 ≤ℤ pos 0) ⊎ (pos 10 <ℤ pos 30))
unfolding should_prefer_best
should_prefer_best-asymmetric_example = should_prefer_best-asymmetric run (pos 30) (pos 10) refl

jp-IsUsable : IsUsable go run servers "srv" "hk,jp" "udp" ("hk" ∷ []) (node "jp")
unfolding is_blocked_for selector_includes has_entry lookup
jp-IsUsable = record {
  real = refl;
  fresh = refl;
  allowed = refl;
  on = refl;
  unblocked = refl;
  supported = refl;
  included = refl;
  well = refl;
}

select_for_server-manual_example :
    select_with_failover_for_server go run manager new_load_balancer servers "srv" "hk,jp" "random"
      "udp"
      ("hk" ∷ [])
    ≡ (new_load_balancer, chosen (node "jp"))
unfolding get_server_selected_node is_server_node_manual lookup
select_for_server-manual_example =
    select_for_server-manual go run manager new_load_balancer servers "srv" "hk,jp" "random" "udp"
      ("hk" ∷ []) (node "jp") refl refl refl refl jp-IsUsable

one_singbox : IsDistinct manager.singbox_outbounds
unfolding lookup
one_singbox = (refl, tt)

update_outbound-exact_example :
    (((update_outbound (λ o. true) manager "hk" (some (node "sg"))).0 ≡ manager)
      × ((update_outbound (λ o. true) manager "hk" (some (node "sg"))).1 ≢ none))
    ⊎ (((update_outbound (λ o. true) manager "hk" (some (node "sg"))).1 ≡ none)
        × (lookup "sg" (update_outbound (λ o. true) manager "hk" (some (node "sg"))).0.outbounds
            ≡ some (node "sg"))
        × (((node "sg").name ≡ "hk") ⊎ (lookup "sg" manager.outbounds ≡ none))
        × (lookup "hk"
              (update_outbound (λ o. true) manager "hk" (some (node "sg"))).0.singbox_outbounds
            ≡ none))
update_outbound-exact_example =
    update_outbound-exact (λ o. true) manager "hk" "sg" (node "sg") manager-IsKeyed.0 one_singbox

abbrev latency : String → Option ℤ
latency name = if str_eq name "jp" then some (pos 9) else none

select_least_latency_for_server-choice_example :
    ((select_least_latency_for_server latency run new_load_balancer
          (node "hk" ∷ node "jp" ∷ [])
          "udp"
        ≡ select run.rand_intn new_load_balancer
            (node "hk" ∷ node "jp" ∷ [])
            "least-latency"
            "udp"
            "")
      × All (IsUncached latency) (node "hk" ∷ node "jp" ∷ []))
    ⊎ ((t : ProxyOutbound) × (lt : ℤ) × (select_least_latency_for_server latency run
            new_load_balancer
            (node "hk" ∷ node "jp" ∷ [])
            "udp"
          ≡ (new_load_balancer, some t))
        × IsCached latency t lt
        × IsIn t (node "hk" ∷ node "jp" ∷ [])
        × IsLeast latency lt (node "hk" ∷ node "jp" ∷ []))
select_least_latency_for_server-choice_example =
    select_least_latency_for_server-choice latency run new_load_balancer
      (node "hk" ∷ node "jp" ∷ []) "udp"
