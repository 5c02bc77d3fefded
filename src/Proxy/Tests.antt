-- ===== src/Proxy/Tests.antt =====
-- The theorems on the load balancer at three nodes, and on short latency histories.
use mcbeproxy.Base.{ℕ, ◌≡◌, ◌⊎◌, String, List, [], ◌∷◌, none, some, arith, eq_iff, true, false, All}
use mcbeproxy.Base.Int.{pos}
use mcbeproxy.Base.Map.{lookup, string_key}
use mcbeproxy.Proxy.LoadBalancer.{
  ProxyOutbound, new_load_balancer, select_least_latency, select_round_robin, get_round_robin_index,
}
use mcbeproxy.Proxy.LoadBalancer.Choice.{IsIn, IsMeasured, IsFastest, select_least_latency-choice}
use mcbeproxy.Proxy.LoadBalancer.RoundRobin.{after_calls, select_round_robin-cycles}
use mcbeproxy.Proxy.LatencyHistory.{OutboundLatencySample}
use mcbeproxy.Proxy.LatencyHistory.Collapse.{append_all, append_all-collapses}

abbrev node : String → ℕ → ℕ → ProxyOutbound
node name udp conns = record {
  name = name;
  tcp_latency_ms = pos 0;
  http_latency_ms = pos 0;
  udp_latency_ms = pos udp;
  conn_count = pos conns;
  outbound_type = "socks5";
  group = "asia";
  enabled = true;
  healthy = true;
  last_error = "";
  last_check = none;
  auto_select_blocked = false;
  auto_select_block_expires_at = none;
}

abbrev hk : ProxyOutbound
hk = node "hk" 0 4

abbrev jp : ProxyOutbound
jp = node "jp" 35 2

abbrev sg : ProxyOutbound
sg = node "sg" 20 3

abbrev nodes : List ProxyOutbound
nodes = jp ∷ sg ∷ []

select_least_latency-choice_example :
    ((select_least_latency (hk ∷ nodes) "udp" ≡ some hk)
      × All (λ n. ¬ IsMeasured "udp" n) (hk ∷ nodes))
    ⊎ ((t : ProxyOutbound) × (select_least_latency (hk ∷ nodes) "udp" ≡ some t)
        × IsIn t (hk ∷ nodes)
        × IsFastest "udp" t (hk ∷ nodes))
select_least_latency-choice_example = select_least_latency-choice hk nodes "udp"

select_round_robin-cycles_example :
    (select_round_robin (after_calls new_load_balancer (hk ∷ nodes) "g" 4) (hk ∷ nodes) "g").1
    ≡ some jp
unfolding get_round_robin_index lookup
select_round_robin-cycles_example = select_round_robin-cycles new_load_balancer hk nodes "g" 4

g_ne_h : Path String "g" "h" → ⊥
g_ne_h e = let apart : false ≡ true = (eq_iff "g" "h").1 e in ground arith

abbrev sample : ℕ → ℕ → OutboundLatencySample
sample ts ms = record { timestamp = ts; latency_ms = ms; is_ok = true }

-- One measurement in five minutes, with a least interval of ten.
append_all-collapses_example :
    append_all 86400000000000 600000 10
      (sample 0 20 ∷ [])
      (sample 300000 30 ∷ sample 600000 25 ∷ [])
    ≡ sample 600000 25 ∷ []
append_all-collapses_example =
    append_all-collapses 86400000000000 600000 10 (sample 0 20)
      (sample 300000 30 ∷ sample 600000 25 ∷ []) (omega arith) (omega arith)
