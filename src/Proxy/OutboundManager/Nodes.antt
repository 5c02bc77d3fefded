-- ===== src/Proxy/OutboundManager/Nodes.antt =====
-- The map of nodes of internal/proxy/outbound_manager.go: each node stands under its own name,
-- once, and a rename never overwrites another node.
use mcbeproxy.Base.{
  ◌≡◌, ◌≢◌, refl, sym, ◌∙◌, Bool, true, false, not, String, str_eq, eq_iff, List, [], ◌∷◌, Option,
  none, some, arith, if◌then◌else◌, All, Bool-cases, Option-cases, inl, inr, ◌⊎◌,
}
use mcbeproxy.Base.Map.{
  lookup, insert, erase, string_key, IsDistinct, insert-IsDistinct, erase-IsDistinct, All-erase,
  lookup-insert, lookup-erase,
}
use mcbeproxy.Proxy.LoadBalancer.{ProxyOutbound}
use mcbeproxy.Proxy.OutboundManager.{
  OutboundManager, add_outbound, delete_outbound, update_outbound, close_singbox,
}

abbrev pub IsNamed : String × ProxyOutbound → Type 0
IsNamed p = p.1.name ≡ p.0

-- Each node is under its own name, and no name stands twice.
abbrev pub IsKeyed : List (String × ProxyOutbound) → Type 0
IsKeyed m = IsDistinct m × All IsNamed m

insert-IsNamed :
    (o : ProxyOutbound) (m : List (String × ProxyOutbound))
    → All IsNamed m
    → All IsNamed (insert o.name o m)
unfolding insert
insert-IsNamed o [] h = (refl, tt)
insert-IsNamed o ((i, w) ∷ m) h = elim (Bool-cases (str_eq i o.name)) [
  | inl same ↦ rw same (sym ((string_key.beq_iff i o.name).0 same), h.1)
  | inr other ↦ rw other (h.0, insert-IsNamed o m h.1)
]

insert-IsKeyed :
    (o : ProxyOutbound) (m : List (String × ProxyOutbound))
    → IsKeyed m
    → IsKeyed (insert o.name o m)
insert-IsKeyed o m h = (insert-IsDistinct o.name o m h.0, insert-IsNamed o m h.1)

erase-IsKeyed :
    (name : String) (m : List (String × ProxyOutbound)) → IsKeyed m → IsKeyed (erase name m)
erase-IsKeyed name m h = (erase-IsDistinct name m h.0, All-erase IsNamed name m h.1)

module _ (valid : ProxyOutbound → Bool) where
  -- An operation on the map of nodes.
  pub data NodeOperation : Type 0 where
    adds : Option ProxyOutbound → NodeOperation
    updates : String → Option ProxyOutbound → NodeOperation
    deletes : String → NodeOperation

  unfoldable pub node_step : OutboundManager → NodeOperation → OutboundManager
  node_step m (adds cfg) = (add_outbound valid m cfg).0
  node_step m (updates name cfg) = (update_outbound valid m name cfg).0
  node_step m (deletes name) = (delete_outbound m name).0

  add_outbound-IsKeyed :
      (m : OutboundManager) (cfg : Option ProxyOutbound)
      → IsKeyed m.outbounds
      → IsKeyed (add_outbound valid m cfg).0.outbounds
  unfolding add_outbound
  add_outbound-IsKeyed m none h = h
  add_outbound-IsKeyed m (some cfg) h = elim (Bool-cases (valid cfg)) [
    | inr bad ↦ rw (add_outbound, bad) h
    | inl good ↦ elim (Option-cases (lookup cfg.name m.outbounds)) [
      | inr (o, e) ↦ rw (add_outbound, good, e) h
      | inl e ↦ rw (add_outbound, good, e) (insert-IsKeyed cfg m.outbounds h)
    ]
  ]

  update_outbound-IsKeyed :
      (m : OutboundManager) (name : String) (cfg : Option ProxyOutbound)
      → IsKeyed m.outbounds
      → IsKeyed (update_outbound valid m name cfg).0.outbounds
  unfolding update_outbound
  update_outbound-IsKeyed m name none h = h
  update_outbound-IsKeyed m name (some cfg) h =
      let kept = if not (str_eq name cfg.name) then erase name m.outbounds else m.outbounds in
      let updated : IsKeyed (insert cfg.name cfg kept) =
        insert-IsKeyed cfg kept (keep (not (str_eq name cfg.name))) in
      elim (Bool-cases (valid cfg)) [
        | inr bad ↦ rw (update_outbound, bad) h
        | inl good ↦ elim (Option-cases (lookup name m.outbounds)) [
          | inl lost ↦ rw (update_outbound, good, lost) h
          | inr (old, found) ↦ elim (Option-cases (lookup cfg.name m.outbounds)) [
            | inl free ↦ rw (update_outbound, good, found, free) updated
            | inr (o, e) ↦ elim (Bool-cases (str_eq name cfg.name)) [
              | inl same ↦
                  rw (update_outbound, good, found, e, same) (insert-IsKeyed cfg m.outbounds h)
              | inr other ↦ rw (update_outbound, good, found, e, other) h
            ]
          ]
        ]
      ]
    where
      keep : (b : Bool) → IsKeyed (if b then erase name m.outbounds else m.outbounds)
      keep true = erase-IsKeyed name m.outbounds h
      keep false = h

  delete_outbound-IsKeyed :
      (m : OutboundManager) (name : String)
      → IsKeyed m.outbounds
      → IsKeyed (delete_outbound m name).0.outbounds
  unfolding delete_outbound
  delete_outbound-IsKeyed m name h = elim (Option-cases (lookup name m.outbounds)) [
    | inl lost ↦ rw (delete_outbound, lost) h
    | inr (o, found) ↦ rw (delete_outbound, found) (erase-IsKeyed name m.outbounds h)
  ]

  -- Adding, updating, renaming and deleting keep each node under its own name, once.
  pub node_step-IsKeyed :
      (m : OutboundManager) (o : NodeOperation)
      → IsKeyed m.outbounds
      → IsKeyed (node_step m o).outbounds
  unfolding node_step
  node_step-IsKeyed m (adds cfg) h = add_outbound-IsKeyed m cfg h
  node_step-IsKeyed m (updates name cfg) h = update_outbound-IsKeyed m name cfg h
  node_step-IsKeyed m (deletes name) h = delete_outbound-IsKeyed m name h

  lookup-same :
      (m : List (String × ProxyOutbound)) (name k : String) (cfg : ProxyOutbound)
      → str_eq name cfg.name ≡ true
      → lookup k (insert cfg.name cfg m)
        ≡ (if str_eq cfg.name k then some cfg else (if str_eq name k then none else lookup k m))
  lookup-same m name k cfg same =
      lookup-insert cfg.name k cfg m
      ∙ ground (arith, same, eq_iff name cfg.name, eq_iff cfg.name k, eq_iff name k)

  lookup-kept :
      (m : List (String × ProxyOutbound)) (name k : String) (cfg : ProxyOutbound)
      → IsDistinct m
      → lookup k (insert cfg.name cfg (if not (str_eq name cfg.name) then erase name m else m))
        ≡ (if str_eq cfg.name k then some cfg else (if str_eq name k then none else lookup k m))
  lookup-kept m name k cfg d = elim (Bool-cases (str_eq name cfg.name)) [
    | inl same ↦ rw same (lookup-same m name k cfg same)
    | inr other ↦
        rw other (lookup-insert cfg.name k cfg (erase name m) ∙ rw (lookup-erase name k m d) refl)
  ]

  singbox-closed :
      (m : OutboundManager) (name : String)
      → IsDistinct m.singbox_outbounds
      → lookup name (close_singbox m name).singbox_outbounds ≡ none
  singbox-closed m name d = elim (Option-cases (lookup name m.singbox_outbounds)) [
    | inl e ↦ rw (close_singbox, e) e
    | inr (o, e) ↦
        rw (close_singbox, e)
          (lookup-erase name name m.singbox_outbounds d ∙ ground (arith, eq_iff name name))
  ]

  -- UpdateOutbound either returns an error and changes nothing, or stores the new configuration
  -- under its name, gives up the old name and leaves each other node as it was; then the new name
  -- was the old one or was free, and no sing-box outbound is cached under the old name.
  pub update_outbound-exact :
      (m : OutboundManager) (name k : String) (cfg : ProxyOutbound)
      → IsDistinct m.outbounds
      → IsDistinct m.singbox_outbounds
      → (((update_outbound valid m name (some cfg)).0 ≡ m)
          × ((update_outbound valid m name (some cfg)).1 ≢ none))
        ⊎ (((update_outbound valid m name (some cfg)).1 ≡ none)
            × (lookup k (update_outbound valid m name (some cfg)).0.outbounds ≡ (
                if str_eq cfg.name k
                then some cfg
                else (if str_eq name k then none else lookup k m.outbounds)))
            × ((cfg.name ≡ name) ⊎ (lookup cfg.name m.outbounds ≡ none))
            × (lookup name (update_outbound valid m name (some cfg)).0.singbox_outbounds ≡ none))
  unfolding update_outbound
  update_outbound-exact m name k cfg d b =
      let kept = lookup-kept m.outbounds name k cfg d in
      let closed = singbox-closed m name b in
      elim (Bool-cases (valid cfg)) [
        | inr bad ↦ inl (rw (update_outbound, bad) refl, λ e. ground (arith, bad))
        | inl good ↦ elim (Option-cases (lookup name m.outbounds)) [
          | inl lost ↦ inl (rw (update_outbound, good, lost) refl, λ e. ground (arith, good, lost))
          | inr (old, found) ↦ elim (Option-cases (lookup cfg.name m.outbounds)) [
            | inl free ↦
                inr (rw (update_outbound, good, found, free) (refl, kept, inr refl, closed))
            | inr (o, e) ↦ elim (Bool-cases (str_eq name cfg.name)) [
              | inl same ↦ inr (
                  rw (update_outbound, good, found, e, same)
                    (
                      refl,
                      lookup-same m.outbounds name k cfg same,
                      inl (sym ((eq_iff name cfg.name).0 same)),
                      closed,
                    ))
              | inr other ↦ inl (
                rw (update_outbound, good, found, e, other) refl,
                λ h. ground (arith, good, found, e, other),
              )
            ]
          ]
        ]
      ]
