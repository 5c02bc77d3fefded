-- ===== src/Proxy/AutoPing/Tests.antt =====
-- The theorems on automatic pings and switches at two nodes.
use mcbeproxy.Base.{
  ℕ, ◌*◌, ◌<◌, ◌≡◌, ◌≢◌, ◌⊎◌, refl, true, false, String, List, [], ◌∷◌, some, arith, leb, length,
}
use mcbeproxy.Base.Int.{pos, ◌<ℤ◌}
use mcbeproxy.Base.Map.{lookup, string_key}
use mcbeproxy.Proxy.OutboundManager.{get_server_selected_node, set_server_selected_node}
use mcbeproxy.Proxy.OutboundManager.Select.{is_excluded}
use mcbeproxy.Proxy.OutboundManager.BestNode.{get_best_node_for_server}
use mcbeproxy.Proxy.OutboundManager.Tests.{go, run, manager, servers}
use mcbeproxy.Proxy.AutoPing.{
  AutoSwitch, or_empty, maybe_auto_switch, next_bootstrap_targets, dedupe_node_names, at_least_one,
  dedupe_loop,
}
use mcbeproxy.Proxy.AutoPing.Switch.{maybe_auto_switch-cases}
use mcbeproxy.Proxy.AutoPing.Targets.{after_rounds, next_bootstrap_targets-reach}

-- "hk" with 5 ms is the server's node since the time 95.
abbrev state : AutoSwitch
state = record {
  manager = record manager { server_selected_node = ("srv", "hk") ∷ [] };
  last_switch = ("srv", 95) ∷ [];
  observed = ("srv", "hk") ∷ [];
}

abbrev idle : ℕ
idle = 0

abbrev least : String
least = "least-latency"

maybe_auto_switch-cases_example :
    ((maybe_auto_switch go run servers state "srv" "srv" "least-latency" "hk,jp" "udp" 0).manager
      ≡ state.manager)
    ⊎ ((least ≡ "least-latency")
        × (idle ≡ 0)
        × ((get_best_node_for_server go run state.manager servers "srv" "hk,jp" "udp").0
            ≢ or_empty (get_server_selected_node go state.manager "srv"))
        × (pos 0 <ℤ (get_best_node_for_server go run state.manager servers "srv" "hk,jp" "udp").1)
        × ((maybe_auto_switch go run servers state "srv" "srv" "least-latency" "hk,jp" "udp"
              0).manager
            ≡ set_server_selected_node go state.manager "srv"
                (get_best_node_for_server go run state.manager servers "srv" "hk,jp" "udp").0)
        × (lookup "srv"
              (maybe_auto_switch go run servers state "srv" "srv" "least-latency" "hk,jp" "udp"
                0).last_switch
            ≡ some 100))
maybe_auto_switch-cases_example =
    maybe_auto_switch-cases go run servers state "srv" "srv" "least-latency" "hk,jp" "udp" 0

abbrev three : List String
three = "a" ∷ "b" ∷ "c" ∷ []

three_left : leb (length (dedupe_node_names go three)) (at_least_one go 2) ≡ false
unfolding dedupe_loop
three_left = refl

next_bootstrap_targets-reach_example :
    (r : ℕ) × (r * 2 < 3)
    × (is_excluded
          (next_bootstrap_targets go
            (after_rounds go "srv" 2 three three_left [] r)
            "srv"
            2
            three).1
          "c"
        ≡ true)
unfolding dedupe_loop
next_bootstrap_targets-reach_example =
    next_bootstrap_targets-reach go "srv" 2 three three_left [] 2 "c" refl (omega arith)
