-- ===== src/Proxy/AutoPing.antt =====
-- internal/proxy/proxy.go: the part of ProxyServer that measures nodes by itself. It chooses the
-- nodes to ping and moves a server, or a proxy port, to the fastest one. The two functions of each
-- kind, for servers and for ports, differ in where the id comes from; `selector_id` is the id that
-- the outbound manager knows, and `key` that of the two maps of times.
pub mod Switch
pub mod Targets
pub mod Tests
use mcbeproxy.Base.{
  ℕ, zero, suc, ◌+◌, ◌-◌, ◌%◌, Bool, true, false, not, ◌&&◌, ◌||◌, String, str_eq, List, [], ◌∷◌,
  ◌++◌, Option, none, some, ltb, leb, if◌then◌else◌, length, get_elem?,
}
use Prim.Native.String.{◌++◌ as str_append}
use mcbeproxy.Base.Int.{ℤ, pos, ltb_ℤ, leb_ℤ, sub_ℕ, pos_part}
use mcbeproxy.Base.Map.{lookup, insert, erase, string_key}
use mcbeproxy.Base.Library.{Library}
use mcbeproxy.Proxy.LoadBalancer.{ProxyOutbound, latency_by}
use mcbeproxy.Proxy.OutboundManager.{
  Runtime, OutboundManager, ServerConfig, get_server_node_latency, get_server_selected_node,
  set_server_selected_node,
}
use mcbeproxy.Proxy.OutboundManager.Select.{is_excluded}
use mcbeproxy.Proxy.OutboundManager.BestNode.{get_best_node_for_server, improvement}

-- lastSwitch and observedSelectedNode beside the outbound manager.
pub record AutoSwitch : Type 0 where
  pub manager : OutboundManager
  pub last_switch : List (String × ℕ)
  pub observed : List (String × String)

-- autoSwitchMinDwell: 3 minutes.
abbrev pub min_dwell : ℤ
min_dwell = pos 180000000000

abbrev pub or_empty : Option String → String
or_empty none = ""
or_empty (some s) = s

abbrev is_dwelling : Option ℕ → ℕ → Bool
is_dwelling none now = false
is_dwelling (some switched) now = ltb_ℤ (sub_ℕ now switched) min_dwell

-- shouldAutoSwitchNode; a latency that is not known is `none`, a zero time too.
unfoldable pub should_auto_switch : Runtime → String → Option ℤ → ℤ → Option ℕ → Bool
should_auto_switch run current latency best switched =
    let l : ℤ = elim latency [ none ↦ pos 0 | some ms ↦ ms ] in
    let gain = improvement l best in
    if leb_ℤ best (pos 0)
    then false
    else (if str_eq current ""
        then true
        else (if leb_ℤ l (pos 0)
            then true
            else (if leb_ℤ gain (pos 0)
                then false
                else (if not (leb_ℤ (pos 8) gain) && not (run.is_relative_gain gain l)
                    then false
                    else not (is_dwelling switched run.now)))))

-- The update of the two maps when the selected node is another one than was seen last.
abbrev pub observe : AutoSwitch → String → String → ℕ → AutoSwitch
observe st key current now =
    if str_eq (or_empty (lookup key st.observed)) current then st else record st {
      observed = insert key current st.observed;
      last_switch =
          if str_eq current "" then erase key st.last_switch else insert key now st.last_switch;
    }

module _ (go : Library) (run : Runtime) (servers : List (String × ServerConfig)) where
  -- maybeAutoSwitchServerNode and maybeAutoSwitchProxyPortNode, with the number of active sessions
  -- or connections.
  unfoldable pub maybe_auto_switch :
      AutoSwitch → String → String → String → String → String → ℕ → AutoSwitch
  maybe_auto_switch st key selector_id strategy outbound sort_by active =
      let best =
        get_best_node_for_server go run st.manager servers selector_id (go.trim_space outbound)
          sort_by in
      let current = or_empty (get_server_selected_node go st.manager selector_id) in
      let seen = observe st key current run.now in
      let latency = get_server_node_latency go run.now st.manager selector_id current sort_by in
      if not (str_eq strategy "least-latency") || str_eq best.0 ""
      then st
      else (if str_eq current best.0
          then seen
          else (if not (leb active 0)
              then seen
              else (if should_auto_switch run current latency best.1 (lookup key seen.last_switch)
                  then record {
                    manager = set_server_selected_node go st.manager selector_id best.0;
                    last_switch = insert key run.now seen.last_switch;
                    observed = insert key best.0 seen.observed;
                  }
                  else seen)))

-- proxyPortSelectorID.
abbrev pub proxy_port_selector_id : Library → String → String
proxy_port_selector_id go port_id =
    let id = go.trim_space port_id in if str_eq id "" then "" else str_append "proxy-port:" id

-- The choice of the nodes to ping.
module _ (go : Library) where
  unfoldable pub dedupe_loop : List String → List String → List String
  dedupe_loop seen [] = []
  dedupe_loop seen (raw ∷ names) =
      let name = go.trim_space raw in
      let skipped = dedupe_loop seen names in
      let added = dedupe_loop (name ∷ seen) names in
      if str_eq name "" then skipped else (if is_excluded seen name then skipped else name ∷ added)

  -- dedupeNodeNames.
  abbrev pub dedupe_node_names : List String → List String
  dedupe_node_names names = dedupe_loop [] names

  abbrev pub at_least_one : ℕ → ℕ
  at_least_one zero = 1
  at_least_one (suc n) = suc n

  abbrev pub or_none : Option String → List String
  or_none none = []
  or_none (some name) = name ∷ []

  -- `count` names from this index on, around the list.
  unfoldable pub take_around : List String → ℕ → ℕ → List String
  take_around names start zero = []
  take_around names start (suc count) =
      or_none (get_elem? names (start % length names)) ++ take_around names (start + 1) count

  abbrev pub start_of : Option ℕ → ℕ → ℕ
  start_of none n = 0
  start_of (some i) n = if leb n i then 0 else i

  -- nextAutoPingBootstrapTargets, with autoPingBootstrapPos.
  unfoldable pub next_bootstrap_targets :
      List (String × ℕ) → String → ℕ → List String → List (String × ℕ) × List String
  next_bootstrap_targets positions selector_id raw_top raw_names =
      let names = dedupe_node_names raw_names in
      let n = length names in
      let top = at_least_one raw_top in
      let start = start_of (lookup selector_id positions) n in
      if leb n top
      then (positions, names)
      else (insert selector_id ((start + top) % n) positions, take_around names start top)

  -- The first loop over the names: those with a latency, which is above 0, but for the current one.
  unfoldable pub ranked : (String → Option ℤ) → String → List String → List (String × ℤ)
  ranked latency current [] = []
  ranked latency current (raw ∷ names) =
      let name = go.trim_space raw in
      let rest = ranked latency current names in
      if str_eq name "" || str_eq name current then rest else elim (latency name) [
        | none ↦ rest
        | some l ↦ if leb_ℤ l (pos 0) then rest else (name, l) ∷ rest
      ]

  -- The second: names are added once each, until there are `limit`.
  unfoldable pub add_ranked : ℕ → List String → List (String × ℤ) → List String
  add_ranked limit selected [] = selected
  add_ranked limit selected ((name, l) ∷ candidates) =
      let next =
        if str_eq (go.trim_space name) "" || is_excluded selected (go.trim_space name)
        then selected
        else selected ++ (go.trim_space name ∷ []) in
      let rest = add_ranked limit next candidates in
      if leb limit (length selected) then selected else rest

  unfoldable pub has_name : List String → String → Bool
  has_name [] name = false
  has_name (raw ∷ names) name =
      let rest = has_name names name in
      if not (str_eq (go.trim_space raw) "") && str_eq (go.trim_space raw) name then true else rest

  -- selectAutoPingTargetsForSelector. `by_latency` stands for sort.Slice by latency and name.
  unfoldable pub select_auto_ping_targets :
      (List (String × ℤ) → List (String × ℤ))
      → (String → Option ℤ)
      → List (String × ℕ)
      → String
      → String
      → ℕ
      → List String
      → List (String × ℕ) × List String
  select_auto_ping_targets by_latency latency positions selector_id current raw_top names =
      let there = has_name names current in
      let first =
        if there && not (str_eq (go.trim_space current) "")
        then go.trim_space current ∷ []
        else [] in
      let top = at_least_one raw_top in
      let limit = if not (str_eq current "") && there then top + 1 else top in
      let selected = add_ranked limit first (by_latency (ranked latency current names)) in
      if leb (length names) 1
      then (positions, dedupe_node_names names)
      else (if leb (length selected) 0
          then next_bootstrap_targets positions selector_id top names
          else (positions, selected))

  -- lookupAutoPingLatency; `config` is the node of proxyOutboundConfigMgr.
  abbrev pub above_zero : ℤ → Option ℤ
  above_zero l = if leb_ℤ l (pos 0) then none else some l

  unfoldable pub lookup_auto_ping_latency :
      Option ℤ → Option ProxyOutbound → String → String → Option ℤ
  lookup_auto_ping_latency measured config name sort_by =
      let rest =
        if str_eq name "direct"
        then none
        else elim config [ none ↦ none | some o ↦ above_zero (latency_by sort_by o) ] in
      elim measured [ none ↦ rest | some l ↦ if leb_ℤ l (pos 0) then rest else some l ]
