-- ===== src/Proxy/OutboundManager/Cascade.antt =====
-- What the cascade of DeleteOutbound makes of the selectors of the servers.
use mcbeproxy.Base.{
  ◌≡◌, refl, none, some, true, ap, ◌∙◌, false, not, ◌&&◌, String, str_eq, eq_iff, List, [], ◌∷◌,
  arith, Bool-cases, inl, inr,
}
use mcbeproxy.Base.Library.{Library}
use mcbeproxy.Base.Map.{lookup, string_key, IsDistinct}
use mcbeproxy.Proxy.LoadBalancer.{ProxyOutbound}
use mcbeproxy.Proxy.OutboundManager.{Runtime, OutboundManager, ServerConfig, delete_outbound}
use mcbeproxy.Proxy.OutboundManager.Deletion.{
  kept_nodes, next_selector, cascade_update, delete_outbound_cascade,
}
use mcbeproxy.Proxy.OutboundManager.Select.{is_excluded}
use mcbeproxy.Proxy.OutboundManager.BestNode.{has_entry}

module _ (go : Library) (run : Runtime) where
  kept_nodes-is_excluded :
      (deleted x : String) (nodes : List String)
      → is_excluded (kept_nodes go deleted nodes).0 x
        ≡ (has_entry go run nodes x && not (str_eq x "") && not (str_eq x deleted))
  unfolding kept_nodes has_entry
  kept_nodes-is_excluded deleted x [] = refl
  kept_nodes-is_excluded deleted x (raw ∷ nodes) =
      let rest = kept_nodes-is_excluded deleted x nodes in
      let n = go.trim_space raw in
      elim (Bool-cases (str_eq n x)) [
        | inl same ↦
            (let e : n ≡ x = (eq_iff n x).0 same in
              let blank : str_eq n "" ≡ str_eq x "" = ap (λ (s : String). str_eq s "") e in
              let gone : str_eq n deleted ≡ str_eq x deleted =
                ap (λ (s : String). str_eq s deleted) e in
              ground (arith, same, blank, gone, rest))
        | inr other ↦ ground (arith, other, rest)
      ]

  kept_nodes-removed :
      (deleted : String) (nodes : List String)
      → str_eq deleted "" ≡ false
      → (kept_nodes go deleted nodes).1 ≡ has_entry go run nodes deleted
  unfolding kept_nodes has_entry
  kept_nodes-removed deleted [] h = refl
  kept_nodes-removed deleted (raw ∷ nodes) h =
      let rest = kept_nodes-removed deleted nodes h in
      let n = go.trim_space raw in
      elim (Bool-cases (str_eq n deleted)) [
        | inl same ↦
            (let given : str_eq n "" ≡ false =
                ap (λ (s : String). str_eq s "") ((eq_iff n deleted).0 same) ∙ h in
              ground (arith, same, given))
        | inr other ↦ ground (arith, other, rest)
      ]

  -- In the list of nodes of a selector the cascade keeps exactly the names that were there, are
  -- not blank and are not the deleted one, and it notes whether the deleted one, which is not
  -- blank, was there.
  pub kept_nodes-exact :
      (deleted x : String) (nodes : List String)
      → str_eq deleted "" ≡ false
      → (is_excluded (kept_nodes go deleted nodes).0 x
          ≡ (has_entry go run nodes x && not (str_eq x "") && not (str_eq x deleted)))
        × ((kept_nodes go deleted nodes).1 ≡ has_entry go run nodes deleted)
  kept_nodes-exact deleted x nodes h =
      (kept_nodes-is_excluded deleted x nodes, kept_nodes-removed deleted nodes h)

module _ (go : Library) (outbounds : List (String × ProxyOutbound)) (deleted group : String) where
  lookup-cascade_update :
      (id : String) (servers : List (String × ServerConfig))
      → lookup id servers ≡ none
      → lookup id (cascade_update go outbounds deleted group servers) ≡ none
  unfolding cascade_update lookup
  lookup-cascade_update id [] h = refl
  lookup-cascade_update id ((i, s) ∷ servers) h = ground (arith, lookup-cascade_update id servers)

  next_selector-deleted : next_selector go outbounds deleted group deleted ≡ "direct"
  unfolding next_selector
  next_selector-deleted = ground (arith, eq_iff deleted deleted)

  cascade_update-head :
      (i id : String) (s : ServerConfig) (servers : List (String × ServerConfig))
      → str_eq i id ≡ true
      → go.trim_space s.proxy_outbound ≡ deleted
      → str_eq deleted "" ≡ false
      → str_eq deleted "direct" ≡ false
      → lookup id (cascade_update go outbounds deleted group ((i, s) ∷ servers)) ≡ some "direct"
  unfolding cascade_update lookup
  cascade_update-head i id s servers mine cur given real =
      rw (cur, given, real, next_selector-deleted, not_reversed, mine) refl
    where
      not_reversed : str_eq "direct" deleted ≡ false
      not_reversed = ground (arith, real, eq_iff "direct" deleted, eq_iff deleted "direct")

  cascade_update-direct :
      (id : String) (server : ServerConfig) (servers : List (String × ServerConfig))
      → IsDistinct servers
      → lookup id servers ≡ some server
      → go.trim_space server.proxy_outbound ≡ deleted
      → str_eq deleted "" ≡ false
      → str_eq deleted "direct" ≡ false
      → lookup id (cascade_update go outbounds deleted group servers) ≡ some "direct"
  unfolding cascade_update lookup
  cascade_update-direct id server [] d h same given real = absurd (ground (arith, h))
  cascade_update-direct id server ((i, s) ∷ servers) d h same given real =
      elim (Bool-cases (str_eq i id)) [
        | inl mine ↦
            cascade_update-head i id s servers mine (ground (arith, mine, h, same)) given real
        | inr other ↦ ground (
          arith,
          other,
          h,
          cascade_update-direct id server servers d.1 (ground (arith, other)) same given real,
        )
      ]

-- After DeleteOutbound of a node, each server whose selector, but for space around it, is the name
-- of that node is told to connect directly, where no id of a server is repeated.
pub delete_outbound_cascade-direct :
    (go : Library) (m : OutboundManager) (name id : String) (old : ProxyOutbound)
    (server : ServerConfig) (servers : List (String × ServerConfig))
    → lookup name m.outbounds ≡ some old
    → IsDistinct servers
    → lookup id servers ≡ some server
    → go.trim_space server.proxy_outbound ≡ name
    → str_eq name "" ≡ false
    → str_eq name "direct" ≡ false
    → lookup id (delete_outbound_cascade go m name servers).2 ≡ some "direct"
unfolding delete_outbound_cascade
delete_outbound_cascade-direct go m name id old server servers found d there same given real =
    rw (delete_outbound_cascade, found)
      (cascade_update-direct go (delete_outbound m name).0.outbounds name old.group id server
        servers d there same given real)
