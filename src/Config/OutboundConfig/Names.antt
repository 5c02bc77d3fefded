-- ===== src/Config/OutboundConfig/Names.antt =====
-- The names of the nodes in internal/config/proxy_outbound_manager.go.
use mcbeproxy.Base.{
  ◌≡◌, refl, sym, ◌⊎◌, inl, inr, Bool-cases, ◌∙◌, ap, ◌+◌, ℕ, Bool, true, false, String, str_eq,
  eq_iff, List, [], ◌∷◌, none, some, arith, length,
}
use mcbeproxy.Base.Map.{
  lookup, insert, erase, string_key, IsDistinct, lookup-insert, lookup-erase, length-erase,
}
use mcbeproxy.Config.OutboundConfig.{
  OutboundConfig, OutboundConfigManager, write_error, save_nodes, update_node, outbound_count,
}

length-insert_old :
    (k : String) (o old : OutboundConfig) (m : List (String × OutboundConfig))
    → lookup k m ≡ some old
    → length (insert k o m) ≡ length m
unfolding lookup insert
length-insert_old k o old [] h = cc
length-insert_old k o old ((i, w) ∷ m) h = ground (arith, length-insert_old k o old m)

-- saveToFile keeps the nodes and fails with the error of the write alone.
pub saved :
    (m : OutboundConfigManager) (w : Bool)
    → ((save_nodes m w).0.nodes ≡ m.nodes)
      × (((save_nodes m w).1 ≡ none) ⊎ ((save_nodes m w).1 ≡ some write_error))
unfolding save_nodes
saved m w = elim (Bool-cases w) [ inl e ↦ rw e (refl, inl refl) | inr e ↦ rw e (refl, inr refl) ]

-- A node that UpdateOutbound renames to the name of another node takes that node's place: no
-- error but that of the write is returned, the name stands for the renamed node, the old name for
-- none, and there is one node fewer.
pub update_node-overwrites :
    (valid : OutboundConfig → Bool) (m : OutboundConfigManager) (name : String)
    (o renamed lost : OutboundConfig) (w : Bool)
    → IsDistinct m.nodes
    → valid o ≡ true
    → lookup name m.nodes ≡ some renamed
    → lookup o.name m.nodes ≡ some lost
    → str_eq name o.name ≡ false
    → (lookup o.name (update_node valid m name o w).0.nodes ≡ some o)
      × (lookup name (update_node valid m name o w).0.nodes ≡ none)
      × (outbound_count m ≡ outbound_count (update_node valid m name o w).0 + 1)
      × (((update_node valid m name o w).1 ≡ none)
          ⊎ ((update_node valid m name o w).1 ≡ some write_error))
unfolding update_node
update_node-overwrites valid m name o renamed lost w d good found there apart =
    let left = erase name m.nodes in
    let still : lookup o.name left ≡ some lost =
      lookup-erase name o.name m.nodes d ∙ ground (arith, apart, there) in
    let next = record m { nodes = insert o.name o left } in
    let (s, written) = saved next w in
    rw (update_node, good, found, apart)
      (
        ap (lookup o.name) s
            ∙ lookup-insert o.name o.name o left
            ∙ ground (arith, eq_iff o.name o.name),
        ap (lookup name) s
            ∙ lookup-insert o.name name o left
            ∙ ground (
              arith,
              eq_iff o.name name,
              eq_iff name o.name,
              eq_iff name name,
              apart,
              lookup-erase name name m.nodes d,
            ),
        length-erase name renamed m.nodes found
            ∙ ap (λ (n : ℕ). n + 1)
                (sym (ap length s ∙ length-insert_old o.name o lost left still)),
        written,
      )
