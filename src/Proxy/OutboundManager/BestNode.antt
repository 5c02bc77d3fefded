-- ===== src/Proxy/OutboundManager/BestNode.antt =====
-- internal/proxy/outbound_manager.go: what is known of the nodes for one server. These are the
-- server's bans, GetBestNodeForServer and the least-latency choice by the measured latencies.
use mcbeproxy.Base.{
  ℕ, Bool, true, false, ◌&&◌, ◌||◌, String, str_eq, List, [], ◌∷◌, Option, none, some,
  if◌then◌else◌,
}
use mcbeproxy.Base.Int.{ℤ, pos, negsuc, ltb_ℤ, leb_ℤ, sub_ℕ, pos_part}
use mcbeproxy.Base.Map.{lookup, string_key}
use mcbeproxy.Base.Library.{Library}
use mcbeproxy.Proxy.LoadBalancer.{ProxyOutbound, LoadBalancer, select}
use mcbeproxy.Proxy.OutboundManager.{
  Runtime, OutboundManager, ServerConfig, normalize_sort_by, get_server_node_latency,
}
use mcbeproxy.Proxy.OutboundManager.Select.{supports_sort, is_selectable, group_candidates}

-- ActiveBlockedNodes: is this name among the bans that have not expired? The bans are a map, so
-- each name has one.
abbrev pub is_active : ℕ → Option ℕ → Bool
is_active now none = true
is_active now (some expires_at) = ltb_ℤ (pos 0) (sub_ℕ expires_at now)

abbrev pub is_banned : ℕ → Option (Option ℕ) → Bool
is_banned now none = false
is_banned now (some expires_at) = is_active now expires_at

-- autoSwitchMinLatencyGainMs is 8; `improvement` is a difference of two positive latencies.
abbrev pub improvement : ℤ → ℤ → ℤ
improvement pinned best = sub_ℕ (pos_part pinned) (pos_part best)

unfoldable pub should_prefer_best : Runtime → ℤ → ℤ → Bool
should_prefer_best run pinned best =
    let gain = improvement pinned best in
    if leb_ℤ best (pos 0)
    then false
    else (if leb_ℤ pinned (pos 0)
        then true
        else (if leb_ℤ gain (pos 0)
            then false
            else leb_ℤ (pos 8) gain || run.is_relative_gain gain pinned))

abbrev pub first_node : List ProxyOutbound → Option ProxyOutbound
first_node [] = none
first_node (node ∷ nodes) = some node

-- A latency that is there, by this function of a node's name.
module _ (latency : String → Option ℤ) where
  -- The loop of GetBestNodeForServer, with the best name and latency so far.
  unfoldable pub scan_best : List String → String → ℤ → String × ℤ
  scan_best [] best_name best = (best_name, best)
  scan_best (name ∷ names) best_name best =
      let skipped = scan_best names best_name best in
      elim (latency name) [
        | none ↦ skipped
        | some l ↦
            (let taken = scan_best names name l in
              if leb_ℤ l (pos 0)
              then skipped
              else (if ltb_ℤ best (pos 0) || ltb_ℤ l best then taken else skipped))
      ]

  abbrev pub best_of : List String → String × ℤ
  best_of names =
      let best = scan_best names "" (negsuc 0) in if str_eq best.0 "" then ("", pos 0) else best

  -- The loop of selectLeastLatencyForServer, with `selected`, `minLatency` and `hasCached`.
  unfoldable pub scan_cached :
      List ProxyOutbound → Option ProxyOutbound → ℤ → Bool → Option ProxyOutbound × Bool
  scan_cached [] selected least cached = (selected, cached)
  scan_cached (node ∷ nodes) selected least cached =
      let skipped = scan_cached nodes selected least cached in
      let seen = scan_cached nodes selected least true in
      elim (latency node.name) [
        | none ↦ skipped
        | some l ↦
            (let taken = scan_cached nodes (some node) l true in
              if leb_ℤ l (pos 0)
              then skipped
              else (if ltb_ℤ least (pos 0) || ltb_ℤ l least then taken else seen))
      ]

  unfoldable pub select_least_latency_for_server :
      Runtime → LoadBalancer → List ProxyOutbound → String → LoadBalancer × Option ProxyOutbound
  select_least_latency_for_server run lb nodes sort_by =
      let scanned = scan_cached nodes none (negsuc 0) false in
      if scanned.1
      then (elim scanned.0 [ none ↦ (lb, first_node nodes) | some node ↦ (lb, some node) ])
      else select run.rand_intn lb nodes "least-latency" sort_by ""

module _ (go : Library) (run : Runtime) where
  -- blockedNodesForServer as a test on names.
  unfoldable pub is_blocked_for : List (String × ServerConfig) → String → String → Bool
  is_blocked_for servers raw_server name =
      let server = go.trim_space raw_server in
      if str_eq server "" then false else elim (lookup server servers) [
        | none ↦ false
        | some config ↦ is_banned run.now (lookup name config.auto_select_blocked_nodes)
      ]

  unfoldable pub has_entry : List String → String → Bool
  has_entry [] name = false
  has_entry (entry ∷ entries) name =
      let rest = has_entry entries name in if str_eq (go.trim_space entry) name then true else rest

  -- selectorIncludesSelection.
  unfoldable pub selector_includes : String → String → String → Bool
  selector_includes raw_selector raw_node raw_group =
      let selector = go.trim_space raw_selector in
      let node = go.trim_space raw_node in
      if str_eq selector "" || str_eq node ""
      then false
      else (if go.has_prefix selector "@"
          then str_eq (go.trim_space raw_group) (go.trim_prefix selector "@")
          else (if go.contains selector ","
              then has_entry (go.split selector ",") node
              else str_eq selector node))

  abbrev pub names_of : List ProxyOutbound → List String
  names_of [] = []
  names_of (o ∷ os) = o.name ∷ names_of os

  -- GetBestNodeForServer. In a list the code collects names where the candidates' loop collects
  -- nodes under these names; `blocked` is the set of the server's bans.
  unfoldable pub best_names :
      List (String × ProxyOutbound) → (String → Bool) → String → List String → List String
  best_names outbounds blocked sort_by [] = []
  best_names outbounds blocked sort_by (raw ∷ names) =
      let rest = best_names outbounds blocked sort_by names in
      let name = go.trim_space raw in
      if str_eq name "" || blocked name
      then rest
      else (if str_eq name "direct" then name ∷ rest else elim (lookup name outbounds) [
        | none ↦ rest
        | some o ↦
            if is_selectable go run o && supports_sort go run o sort_by then name ∷ rest else rest
      ])

  unfoldable pub get_best_node_for_server :
      OutboundManager → List (String × ServerConfig) → String → String → String → String × ℤ
  get_best_node_for_server m servers raw_server selector raw_sort =
      let server = go.trim_space raw_server in
      let sort_by = normalize_sort_by go raw_sort in
      let blocked = is_blocked_for servers server in
      let latency = λ (name : String). get_server_node_latency go run.now m server name sort_by in
      let group = go.trim_prefix selector "@" in
      if str_eq server "" || str_eq selector ""
      then ("", pos 0)
      else (if go.has_prefix selector "@"
          then best_of latency
              (names_of (group_candidates go run blocked group sort_by m.outbounds).0)
          else (if go.contains selector ","
              then best_of latency (best_names m.outbounds blocked sort_by (go.split selector ","))
              else (if blocked selector
                  then ("", pos 0)
                  else (if str_eq selector "direct"
                      then (elim (latency "direct") [ none ↦ ("", pos 0) | some l ↦ ("direct", l) ])
                      else elim (lookup selector m.outbounds) [
                        | none ↦ ("", pos 0)
                        | some o ↦
                            if is_selectable go run o && supports_sort go run o sort_by
                            then (selector, pos 0)
                            else ("", pos 0)
                      ]))))
