-- ===== src/Proxy/LoadBalancer.antt =====
-- internal/proxy/load_balancer.go: the choice of an outbound node. A node is any type with its
-- latencies and its count of connections; `rand.Intn` is a function of the length.
pub mod Choice
pub mod RoundRobin
use mcbeproxy.Base.{
  ℕ, ◌+◌, ◌%◌, ◌<◌, Bool, true, false, not, ◌||◌, String, str_eq, List, [], ◌∷◌, Option, none, some,
  ltb, leb, if◌then◌else◌, length, get_elem?,
}
use mcbeproxy.Base.Int.{ℤ, pos, negsuc, ltb_ℤ, leb_ℤ}
use mcbeproxy.Base.Map.{lookup, insert, erase, string_key}

-- The fields of config.ProxyOutbound that the choice of a node reads, with its runtime state;
-- a time is in nanoseconds, and the zero time is `none`.
pub record ProxyOutbound : Type 0 where
  pub name : String
  pub tcp_latency_ms : ℤ
  pub http_latency_ms : ℤ
  pub udp_latency_ms : ℤ
  pub conn_count : ℤ
  pub outbound_type : String
  pub group : String
  pub enabled : Bool
  pub healthy : Bool
  pub last_error : String
  pub last_check : Option ℕ
  pub auto_select_blocked : Bool
  pub auto_select_block_expires_at : Option ℕ

pub record LoadBalancer : Type 0 where
  pub round_robin_index : List (String × ℕ)

abbrev pub new_load_balancer : LoadBalancer
new_load_balancer = record { round_robin_index = [] }

-- The inner switch: an unknown sort key reads the UDP latency.
abbrev pub latency_by : String → ProxyOutbound → ℤ
latency_by sort_by node =
    if str_eq sort_by "tcp"
    then node.tcp_latency_ms
    else (if str_eq sort_by "http" then node.http_latency_ms else node.udp_latency_ms)

-- The loop of selectLeastLatency from `selected` and `minLatency` on.
unfoldable pub scan_latency :
    String → List ProxyOutbound → Option ProxyOutbound → ℤ → Option ProxyOutbound
scan_latency sort_by [] selected least = selected
scan_latency sort_by (node ∷ nodes) selected least =
    let l = latency_by sort_by node in
    let skipped = scan_latency sort_by nodes selected least in
    let taken = scan_latency sort_by nodes (some node) l in
    if leb_ℤ l (pos 0)
    then skipped
    else (if ltb_ℤ least (pos 0) || ltb_ℤ l least then taken else skipped)

unfoldable pub select_least_latency : List ProxyOutbound → String → Option ProxyOutbound
select_least_latency [] sort_by = none
select_least_latency (node ∷ nodes) sort_by =
    elim (scan_latency sort_by (node ∷ nodes) none (negsuc 0)) [
      | none ↦ some node
      | some selected ↦ some selected
    ]

abbrev pub or_zero : Option ℕ → ℕ
or_zero none = 0
or_zero (some i) = i

-- The index of a group, 0 where the map has none.
unfoldable pub get_round_robin_index : LoadBalancer → String → ℕ
get_round_robin_index lb group = or_zero (lookup group lb.round_robin_index)

unfoldable pub select_round_robin :
    LoadBalancer → List ProxyOutbound → String → LoadBalancer × Option ProxyOutbound
select_round_robin lb [] group = (lb, none)
select_round_robin lb (node ∷ nodes) group =
    let n = length (node ∷ nodes) in
    let stored = get_round_robin_index lb group in
    let index = if leb n stored then 0 else stored in
    (
      record lb { round_robin_index = insert group ((index + 1) % n) lb.round_robin_index },
      get_elem? (node ∷ nodes) index,
    )

-- `intn` stands for rand.Intn.
unfoldable pub select_random : (ℕ → ℕ) → List ProxyOutbound → Option ProxyOutbound
select_random intn [] = none
select_random intn (node ∷ nodes) = get_elem? (node ∷ nodes) (intn (length (node ∷ nodes)))

unfoldable pub scan_connections :
    List ProxyOutbound → Option ProxyOutbound → ℤ → Option ProxyOutbound
scan_connections [] selected least = selected
scan_connections (node ∷ nodes) selected least =
    let skipped = scan_connections nodes selected least in
    let taken = scan_connections nodes (some node) node.conn_count in
    if ltb_ℤ least (pos 0) || ltb_ℤ node.conn_count least then taken else skipped

unfoldable pub select_least_connections : List ProxyOutbound → Option ProxyOutbound
select_least_connections nodes = scan_connections nodes none (negsuc 0)

-- Select.
unfoldable pub select :
    (ℕ → ℕ)
    → LoadBalancer
    → List ProxyOutbound
    → String
    → String
    → String
    → LoadBalancer × Option ProxyOutbound
select intn lb [] strategy sort_by group = (lb, none)
select intn lb (node ∷ []) strategy sort_by group = (lb, some node)
select intn lb (node ∷ node' ∷ nodes) strategy sort_by group =
    let all = node ∷ node' ∷ nodes in
    if str_eq strategy "least-latency"
    then (lb, select_least_latency all sort_by)
    else (if str_eq strategy "round-robin"
        then select_round_robin lb all group
        else (if str_eq strategy "random"
            then (lb, select_random intn all)
            else (if str_eq strategy "least-connections"
                then (lb, select_least_connections all)
                else (lb, select_least_latency all sort_by))))

unfoldable pub reset_round_robin : LoadBalancer → String → LoadBalancer
reset_round_robin lb group = record lb { round_robin_index = erase group lb.round_robin_index }

unfoldable pub reset_all_round_robin : LoadBalancer → LoadBalancer
reset_all_round_robin lb = record lb { round_robin_index = [] }
