-- ===== src/Proxy/OutboundManager/Select.antt =====
-- internal/proxy/outbound_manager.go: SelectOutbound and SelectOutboundWithFailover, which choose
-- a node for a selector: a name, a list of names with commas, or a group after "@". The global
-- load balancer is passed through.
use mcbeproxy.Base.{
  ℕ, Bool, true, false, not, ◌&&◌, ◌||◌, String, str_eq, List, [], ◌∷◌, Option, none, some,
  if◌then◌else◌,
}
use Prim.Native.String.{◌++◌ as str_append}
use mcbeproxy.Base.Int.{pos, ltb_ℤ, sub_ℕ}
use mcbeproxy.Base.Map.{lookup, string_key}
use mcbeproxy.Base.Library.{Library}
use mcbeproxy.Proxy.LoadBalancer.{ProxyOutbound, LoadBalancer, select}
use mcbeproxy.Proxy.OutboundManager.{Runtime, normalize_sort_by}

pub data SelectError : Type 0 where
  not_found : SelectError
  group_not_found : SelectError
  all_failovers_failed : SelectError
  no_healthy_nodes : SelectError
  disabled : SelectError
  unhealthy : SelectError

pub data Selection : Type 0 where
  chosen : ProxyOutbound → Selection
  refused : SelectError → Selection

-- newDirectVirtualOutbound.
abbrev pub direct_node : ProxyOutbound
direct_node = record {
  name = "direct";
  tcp_latency_ms = pos 0;
  http_latency_ms = pos 0;
  udp_latency_ms = pos 0;
  conn_count = pos 0;
  outbound_type = "direct";
  group = "";
  enabled = true;
  healthy = true;
  last_error = "";
  last_check = none;
  auto_select_blocked = false;
  auto_select_block_expires_at = none;
}

abbrev pub supports_udp : ProxyOutbound → Bool
supports_udp o = not (str_eq o.outbound_type "http")

-- isAutoSelectBlockedLocked.
abbrev pub is_auto_select_blocked : ℕ → ProxyOutbound → Bool
is_auto_select_blocked now o =
    if o.auto_select_blocked
    then (elim o.auto_select_block_expires_at [
      | none ↦ true
      | some expires_at ↦ ltb_ℤ (pos 0) (sub_ℕ expires_at now)
    ])
    else false

-- A check less than 30 seconds ago.
abbrev pub is_recent : ℕ → Option ℕ → Bool
is_recent now none = false
is_recent now (some last_check) = ltb_ℤ (sub_ℕ now last_check) (pos 30000000000)

abbrev pub has_failed_recently : ℕ → ProxyOutbound → Bool
has_failed_recently now o =
    not o.healthy && not (str_eq o.last_error "") && is_recent now o.last_check

-- The set of excluded names.
abbrev pub is_excluded : List String → String → Bool
is_excluded [] name = false
is_excluded (n ∷ names) name = if str_eq n name then true else is_excluded names name

abbrev pub is_nil {ℓ} : {A : Type ℓ} → List A → Bool
is_nil [] = true
is_nil (a ∷ l) = false

-- The error where no node of a list or a group is left.
abbrev pub none_left : List String → SelectError
none_left exclude = if is_nil exclude then no_healthy_nodes else all_failovers_failed

-- What is left of a selection when the load balancer has no node, or one.
abbrev pub selection_of : LoadBalancer × Option ProxyOutbound → LoadBalancer × Selection
selection_of (lb, none) = (lb, refused no_healthy_nodes)
selection_of (lb, some node) = (lb, chosen node)

module _ (go : Library) (run : Runtime) where
  abbrev pub supports_sort : ProxyOutbound → String → Bool
  supports_sort o sort_by =
      if str_eq (normalize_sort_by go sort_by) "udp" then supports_udp o else true

  -- isSelectableOutboundLocked.
  abbrev pub is_selectable : ProxyOutbound → Bool
  is_selectable o =
      if run.is_metadata_like (go.trim_space o.name)
        || not o.enabled
        || is_auto_select_blocked run.now o
      then false
      else not (has_failed_recently run.now o)

  module _ (outbounds : List (String × ProxyOutbound)) (exclude : String → Bool) where
    -- The loop over the names of a list: the nodes that pass the test, and the names that no
    -- node has. `exclude` is the set of excluded names.
    unfoldable pub list_candidates :
        (ProxyOutbound → Bool) → List String → List ProxyOutbound × List String
    list_candidates test [] = ([], [])
    list_candidates test (raw ∷ names) =
        let rest = list_candidates test names in
        let name = go.trim_space raw in
        if str_eq name "" || exclude name
        then rest
        else (if str_eq name "direct"
            then (direct_node ∷ rest.0, rest.1)
            else elim (lookup name outbounds) [
              | none ↦ (rest.0, name ∷ rest.1)
              | some o ↦ if test o then (o ∷ rest.0, rest.1) else rest
            ])

  -- The loop over the map for a group: the nodes that pass, and whether the group exists.
  unfoldable pub group_candidates :
      (String → Bool) → String → String → List (String × ProxyOutbound) → List ProxyOutbound × Bool
  group_candidates exclude group sort_by [] = ([], false)
  group_candidates exclude group sort_by ((name, o) ∷ m) =
      let rest = group_candidates exclude group sort_by m in
      if not (str_eq o.group group)
      then rest
      else (if exclude o.name || not (supports_sort o sort_by) || not (is_selectable o)
          then (rest.0, true)
          else (o ∷ rest.0, true))

  unfoldable pub select_from_node_list :
      LoadBalancer
      → List (String × ProxyOutbound)
      → String
      → String
      → String
      → List String
      → LoadBalancer × Selection
  select_from_node_list lb outbounds list strategy sort_by exclude =
      let found =
        list_candidates outbounds (is_excluded exclude) is_selectable (go.split list ",") in
      if is_nil found.0
      then (lb, refused (if is_nil found.1 then none_left exclude else not_found))
      else selection_of
          (select run.rand_intn lb found.0 strategy sort_by (str_append "nodelist:" list))

  unfoldable pub select_from_group :
      LoadBalancer
      → List (String × ProxyOutbound)
      → String
      → String
      → String
      → List String
      → LoadBalancer × Selection
  select_from_group lb outbounds group strategy sort_by exclude =
      let found = group_candidates (is_excluded exclude) group sort_by outbounds in
      if not found.1
      then (lb, refused group_not_found)
      else (if is_nil found.0
          then (lb, refused (none_left exclude))
          else selection_of
              (select run.rand_intn lb (run.sort_by_name found.0) strategy sort_by group))

  unfoldable pub select_single_node :
      List (String × ProxyOutbound) → String → List String → Selection
  select_single_node outbounds name exclude =
      if is_excluded exclude name
      then refused all_failovers_failed
      else (if run.is_metadata_like (go.trim_space name)
          then refused not_found
          else elim (lookup name outbounds) [
            | none ↦ refused not_found
            | some o ↦
                if not o.enabled
                then refused disabled
                else (if not o.healthy && not (str_eq o.last_error "")
                    then refused unhealthy
                    else chosen o)
          ])

  unfoldable pub select_with_failover :
      LoadBalancer
      → List (String × ProxyOutbound)
      → String
      → String
      → String
      → List String
      → LoadBalancer × Selection
  select_with_failover lb outbounds selector strategy sort_by exclude =
      if go.has_prefix selector "@"
      then select_from_group lb outbounds (go.trim_prefix selector "@") strategy sort_by exclude
      else (if go.contains selector ","
          then select_from_node_list lb outbounds selector strategy sort_by exclude
          else (lb, select_single_node outbounds selector exclude))
