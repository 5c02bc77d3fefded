-- ===== src/Proxy/OutboundManager/Deletion.antt =====
-- DeleteOutbound of internal/proxy/outbound_manager.go, with cascadeUpdateServerConfigs as the calls
-- of UpdateServerProxyOutbound that it makes.
use mcbeproxy.Base.{
  Bool, true, false, not, ◌&&◌, ◌||◌, String, str_eq, List, [], ◌∷◌, Option, none, some,
  if◌then◌else◌,
}
use mcbeproxy.Base.Map.{lookup, string_key}
use mcbeproxy.Base.Library.{Library}
use mcbeproxy.Proxy.LoadBalancer.{ProxyOutbound}
use mcbeproxy.Proxy.OutboundManager.{OutboundManager, OutboundError, ServerConfig, delete_outbound}

module _ (go : Library) where
  -- The loop over the nodes of a list in cascadeUpdateServerConfigs: what is kept, and whether
  -- the deleted name was among them.
  unfoldable pub kept_nodes : String → List String → List String × Bool
  kept_nodes deleted [] = ([], false)
  kept_nodes deleted (raw ∷ nodes) =
      let rest = kept_nodes deleted nodes in
      let node = go.trim_space raw in
      if str_eq node ""
      then rest
      else (if str_eq node deleted then (rest.0, true) else (node ∷ rest.0, rest.1))

  abbrev pub join_kept : List String → String
  join_kept [] = "direct"
  join_kept (node ∷ []) = node
  join_kept (node ∷ node' ∷ nodes) = go.join (node ∷ node' ∷ nodes) ","

  abbrev pub has_group : String → List (String × ProxyOutbound) → Bool
  has_group group [] = false
  has_group group ((name, o) ∷ m) = if str_eq o.group group then true else has_group group m

  -- `next` for a selector that is trimmed, not empty and not "direct".
  unfoldable pub next_selector : List (String × ProxyOutbound) → String → String → String → String
  next_selector outbounds deleted deleted_group current =
      let group = go.trim_prefix current "@" in
      let kept = kept_nodes deleted (go.split current ",") in
      if str_eq current deleted
      then "direct"
      else (if go.has_prefix current "@"
          then (if str_eq group deleted_group && not (has_group group outbounds)
              then "direct"
              else current)
          else (if go.contains current ","
              then (if kept.1 then join_kept kept.0 else current)
              else current))

  -- cascadeUpdateServerConfigs: the calls of UpdateServerProxyOutbound, in order.
  unfoldable pub cascade_update :
      List (String × ProxyOutbound)
      → String
      → String
      → List (String × ServerConfig)
      → List (String × String)
  cascade_update outbounds deleted deleted_group [] = []
  cascade_update outbounds deleted deleted_group ((id, server) ∷ servers) =
      let rest = cascade_update outbounds deleted deleted_group servers in
      let current = go.trim_space server.proxy_outbound in
      let next = next_selector outbounds deleted deleted_group current in
      if str_eq current "" || str_eq current "direct"
      then rest
      else (if str_eq next current then rest else (id, next) ∷ rest)

  -- DeleteOutbound: where a node was deleted, the calls of UpdateServerProxyOutbound follow, with
  -- the servers that there are then.
  unfoldable pub delete_outbound_cascade :
      OutboundManager
      → String
      → List (String × ServerConfig)
      → OutboundManager × Option OutboundError × List (String × String)
  delete_outbound_cascade m name servers =
      let deleted = delete_outbound m name in
      elim (lookup name m.outbounds) [
        | none ↦ (deleted.0, deleted.1, [])
        | some old ↦
            (deleted.0, deleted.1, cascade_update deleted.0.outbounds name old.group servers)
      ]
