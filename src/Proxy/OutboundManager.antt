-- ===== src/Proxy/OutboundManager.antt =====
-- internal/proxy/outbound_manager.go: the state of the outbound manager, the operations on its
-- nodes, on the pinned node of a server and on the latencies by server. A map is an association
-- list, and a cached sing-box outbound is a number. The choice of a node is in Select.
pub mod Select
pub mod BestNode
pub mod ForServer
pub mod Nodes
pub mod Candidates
pub mod Fits
pub mod Failover
pub mod Allowed
pub mod Pinned
pub mod Best
pub mod Deletion
pub mod Cascade
pub mod Tests
use mcbeproxy.Base.{
  ℕ, ◌≡◌, ◌↔◌, Bool, true, false, not, ◌&&◌, ◌||◌, String, str_eq, List, [], ◌∷◌, ◌++◌, Option,
  none, some, if◌then◌else◌, eq_iff, arith, inl, inr,
}
use mcbeproxy.Base.Int.{ℤ, pos, ltb_ℤ, leb_ℤ, sub_ℕ}
use mcbeproxy.Base.Map.{Eq, lookup, insert, erase, string_key}
use mcbeproxy.Base.Library.{Library}
use mcbeproxy.Proxy.LoadBalancer.{ProxyOutbound}

-- The parts of the run that the manager does not decide: rand.Intn, sort.Slice by name, the match
-- of metadataLikeOutboundNamePattern, the comparison of floats in shouldPreferBestNodeOverPinned,
-- and the time in nanoseconds.
pub record Runtime : Type 0 where
  pub rand_intn : ℕ → ℕ
  pub sort_by_name : List ProxyOutbound → List ProxyOutbound
  pub is_metadata_like : String → Bool
  pub is_relative_gain : ℤ → ℤ → Bool
  pub now : ℕ

pub record ServerNodeLatencyKey : Type 0 where
  pub server_id : String
  pub node_name : String
  pub sort_by : String

pub record ServerNodeLatencyValue : Type 0 where
  pub latency_ms : ℤ
  pub updated_at : ℕ

abbrev pub same_key : ServerNodeLatencyKey → ServerNodeLatencyKey → Bool
same_key a b =
    str_eq a.server_id b.server_id && str_eq a.node_name b.node_name && str_eq a.sort_by b.sort_by

pub same_key_iff : (a b : ServerNodeLatencyKey) → (same_key a b ≡ true) ↔ (a ≡ b)
same_key_iff a b = ground (
  arith,
  eq_iff a.server_id b.server_id,
  eq_iff a.node_name b.node_name,
  eq_iff a.sort_by b.sort_by,
)

instance abbrev pub latency_key : Eq ServerNodeLatencyKey
latency_key = record { beq = same_key; beq_iff = same_key_iff }

pub record OutboundManager : Type 0 where
  pub outbounds : List (String × ProxyOutbound)
  pub singbox_outbounds : List (String × ℕ)
  pub closed : List ℕ
  pub server_node_latency : List (ServerNodeLatencyKey × ServerNodeLatencyValue)
  pub server_selected_node : List (String × String)
  pub server_manual_node : List (String × Bool)

-- What the manager reads of a server's configuration; each ban has its time of expiry.
pub record ServerConfig : Type 0 where
  pub proxy_outbound : String
  pub auto_select_blocked_nodes : List (String × Option ℕ)

pub data OutboundError : Type 0 where
  outbound_nil : OutboundError
  outbound_invalid : OutboundError
  outbound_exists : OutboundError
  outbound_not_found : OutboundError

abbrev pub get_outbound : OutboundManager → String → Option ProxyOutbound
get_outbound m name = lookup name m.outbounds

-- AddOutbound; `valid` stands for the result of Validate.
unfoldable pub add_outbound :
    (ProxyOutbound → Bool)
    → OutboundManager
    → Option ProxyOutbound
    → OutboundManager × Option OutboundError
add_outbound valid m none = (m, some outbound_nil)
add_outbound valid m (some cfg) =
    if not (valid cfg) then (m, some outbound_invalid) else elim (lookup cfg.name m.outbounds) [
      | some old ↦ (m, some outbound_exists)
      | none ↦ (record m { outbounds = insert cfg.name cfg m.outbounds }, none)
    ]

-- The cached sing-box outbound of a name is closed and forgotten.
abbrev pub close_singbox : OutboundManager → String → OutboundManager
close_singbox m name = elim (lookup name m.singbox_outbounds) [
  | none ↦ m
  | some o ↦ record m {
    singbox_outbounds = erase name m.singbox_outbounds;
    closed = m.closed ++ (o ∷ []);
  }
]

-- DeleteOutboundNoCascade, which DeleteOutbound is up to the cascade.
unfoldable pub delete_outbound : OutboundManager → String → OutboundManager × Option OutboundError
delete_outbound m name = elim (lookup name m.outbounds) [
  | none ↦ (m, some outbound_not_found)
  | some old ↦ (record (close_singbox m name) { outbounds = erase name m.outbounds }, none)
]

unfoldable pub update_outbound :
    (ProxyOutbound → Bool)
    → OutboundManager
    → String
    → Option ProxyOutbound
    → OutboundManager × Option OutboundError
update_outbound valid m name none = (m, some outbound_nil)
update_outbound valid m name (some cfg) =
    let renamed = not (str_eq name cfg.name) in
    let kept = if renamed then erase name m.outbounds else m.outbounds in
    let updated = record (close_singbox m name) { outbounds = insert cfg.name cfg kept } in
    if not (valid cfg) then (m, some outbound_invalid) else elim (lookup name m.outbounds) [
      | none ↦ (m, some outbound_not_found)
      | some old ↦ elim (lookup cfg.name m.outbounds) [
        | none ↦ (updated, none)
        | some other ↦ if renamed then (m, some outbound_exists) else (updated, none)
      ]
    ]

module _ (go : Library) where
  -- normalizeSortBy.
  abbrev pub normalize_sort_by : String → String
  normalize_sort_by sort_by =
      let folded = go.to_lower (go.trim_space sort_by) in
      if str_eq folded "tcp" then "tcp" else (if str_eq folded "http" then "http" else "udp")

  -- SetServerSelectedNode: an automatic selection, which clears the manual flag.
  unfoldable pub set_server_selected_node : OutboundManager → String → String → OutboundManager
  set_server_selected_node m raw_server node =
      let server = go.trim_space raw_server in
      if str_eq server "" then m else record m {
        server_selected_node =
            if str_eq node ""
            then erase server m.server_selected_node
            else insert server node m.server_selected_node;
        server_manual_node = erase server m.server_manual_node;
      }

  unfoldable pub set_server_selected_node_manual :
      OutboundManager → String → String → OutboundManager
  set_server_selected_node_manual m raw_server node =
      let server = go.trim_space raw_server in
      if str_eq server "" then m else record m {
        server_selected_node =
            if str_eq node ""
            then erase server m.server_selected_node
            else insert server node m.server_selected_node;
        server_manual_node =
            if str_eq node ""
            then erase server m.server_manual_node
            else insert server true m.server_manual_node;
      }

  abbrev given_name : Option String → Option String
  given_name none = none
  given_name (some node) = if str_eq node "" then none else some node

  unfoldable pub get_server_selected_node : OutboundManager → String → Option String
  get_server_selected_node m raw_server =
      let server = go.trim_space raw_server in
      if str_eq server "" then none else given_name (lookup server m.server_selected_node)

  abbrev is_true : Option Bool → Bool
  is_true none = false
  is_true (some b) = b

  unfoldable pub is_server_node_manual : OutboundManager → String → Bool
  is_server_node_manual m raw_server =
      let server = go.trim_space raw_server in
      if str_eq server "" then false else is_true (lookup server m.server_manual_node)

  -- The map's part of setServerNodeLatencyAt, at a time that is not zero.
  unfoldable pub set_server_node_latency_at :
      OutboundManager → String → String → String → ℤ → ℕ → OutboundManager
  set_server_node_latency_at m raw_server raw_node sort_by latency recorded_at =
      let server = go.trim_space raw_server in
      let node = go.trim_space raw_node in
      let key : ServerNodeLatencyKey = record {
        server_id = server;
        node_name = node;
        sort_by = normalize_sort_by sort_by;
      } in
      if str_eq server "" || str_eq node "" then m else record m {
        server_node_latency =
            insert key (record { latency_ms = latency; updated_at = recorded_at })
              m.server_node_latency;
      }

  -- serverNodeLatencyCacheTTL: 30 minutes.
  abbrev pub latency_cache_ttl : ℤ
  latency_cache_ttl = pos 1800000000000

  abbrev pub fresh_latency : ℕ → Option ServerNodeLatencyValue → Option ℤ
  fresh_latency now none = none
  fresh_latency now (some v) =
      if ltb_ℤ latency_cache_ttl (sub_ℕ now v.updated_at)
      then none
      else (if leb_ℤ v.latency_ms (pos 0) then none else some v.latency_ms)

  unfoldable pub get_server_node_latency : ℕ → OutboundManager → String → String → String → Option ℤ
  get_server_node_latency now m raw_server raw_node sort_by =
      let server = go.trim_space raw_server in
      let node = go.trim_space raw_node in
      let key : ServerNodeLatencyKey = record {
        server_id = server;
        node_name = node;
        sort_by = normalize_sort_by sort_by;
      } in
      if str_eq server "" || str_eq node ""
      then none
      else fresh_latency now (lookup key m.server_node_latency)
