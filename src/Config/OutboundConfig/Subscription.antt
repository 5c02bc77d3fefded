-- ===== src/Config/OutboundConfig/Subscription.antt =====
-- ReplaceSubscriptionOutbounds: the nodes of one subscription are replaced as a whole.
use mcbeproxy.Base.{
  ◌≡◌, ◌≢◌, refl, ◌∙◌, ap, subst, Bool, true, false, String, str_eq, eq_iff, List, [], ◌∷◌, ◌++◌,
  append_assoc, append-nil, Option, none, some, arith, if◌then◌else◌, All, Bool-cases, Option-cases,
  inl, inr, ◌⊎◌,
}
use mathlib.Core.List.{Perm}
use mathlib.Core.List.Perm
use mcbeproxy.Base.Map.{lookup, insert, string_key}
use mcbeproxy.Config.OutboundConfig.Names.{saved}
use mcbeproxy.Config.OutboundConfig.Range.{Reorders, range-Perm}
use mcbeproxy.Config.OutboundConfig.{
  OutboundConfig, OutboundConfigManager, write_error, nodes_where, get_by_subscription_id,
  without_subscription, add_prepared, prepare_nodes, replace_subscription_outbounds,
}

-- The nodes of a list that pass a test.
abbrev pub filter_nodes : (OutboundConfig → Bool) → List OutboundConfig → List OutboundConfig
filter_nodes test [] = []
filter_nodes test (o ∷ os) = if test o then o ∷ filter_nodes test os else filter_nodes test os

abbrev pub given_nodes : List (Option OutboundConfig) → List OutboundConfig
given_nodes [] = []
given_nodes (none ∷ os) = given_nodes os
given_nodes (some o ∷ os) = o ∷ given_nodes os

abbrev of_subscription : String → OutboundConfig → Bool
of_subscription id o = str_eq o.subscription_id id

nodes_where-insert :
    (test : OutboundConfig → Bool) (o : OutboundConfig) (m : List (String × OutboundConfig))
    → lookup o.name m ≡ none
    → nodes_where test (insert o.name o m) ≡ nodes_where test m ++ filter_nodes test (o ∷ [])
unfolding nodes_where lookup insert
nodes_where-insert test o [] h = refl
nodes_where-insert test o ((i, w) ∷ m) h = elim (Bool-cases (str_eq i o.name)) [
  | inl same ↦ absurd (ground (arith, same))
  | inr other ↦ elim (Bool-cases (test w)) [
    | inl t ↦
        rw (nodes_where, other, t)
          (ap (λ (l : List OutboundConfig). w ∷ l)
            (nodes_where-insert test o m (ground (arith, other))))
    | inr t ↦ rw (nodes_where, other, t) (nodes_where-insert test o m (ground (arith, other)))
  ]
]

nodes_where-add_prepared :
    (test : OutboundConfig → Bool) (os : List OutboundConfig)
    (next m : List (String × OutboundConfig))
    → add_prepared os next ≡ some m
    → nodes_where test m ≡ nodes_where test next ++ filter_nodes test os
unfolding add_prepared
nodes_where-add_prepared test [] next m h = ground (arith, append-nil (nodes_where test next))
nodes_where-add_prepared test (o ∷ os) next m h = elim (Option-cases (lookup o.name next)) [
  | inr (old, e) ↦ absurd (ground (arith, e))
  | inl free ↦
      (nodes_where-add_prepared test os (insert o.name o next) m (ground (arith, free))
        ∙ ap (λ (l : List OutboundConfig). l ++ filter_nodes test os)
            (nodes_where-insert test o next free)
        ∙ append_assoc (nodes_where test next) (filter_nodes test (o ∷ [])) (filter_nodes test os)
        ∙ ap (λ (l : List OutboundConfig). nodes_where test next ++ l) (one o))
]
  where
    one :
        (p : OutboundConfig)
        → filter_nodes test (p ∷ []) ++ filter_nodes test os ≡ filter_nodes test (p ∷ os)
    one p = ground arith

none_left :
    (id : String) (m : List (String × OutboundConfig))
    → nodes_where (of_subscription id) (without_subscription id m) ≡ []
unfolding nodes_where without_subscription
none_left id [] = refl
none_left id ((i, o) ∷ m) = ground (arith, none_left id m)

others_left :
    (id other : String) (m : List (String × OutboundConfig))
    → str_eq other id ≡ false
    → nodes_where (of_subscription other) (without_subscription id m)
      ≡ nodes_where (of_subscription other) m
unfolding nodes_where without_subscription
others_left id other [] h = refl
others_left id other ((i, o) ∷ m) h = ground (
  arith,
  others_left id other m h,
  eq_iff o.subscription_id id,
  eq_iff o.subscription_id other,
  eq_iff other id,
)

module _ (valid : OutboundConfig → Bool) where
  -- The nodes that the first loop prepares are the given ones, all of the subscription.
  prepare_nodes-given :
      (id : String) (os : List (Option OutboundConfig)) (seen : List (String × Bool))
      → (prepare_nodes valid id os seen).1 ≡ none
      → ((prepare_nodes valid id os seen).0 ≡ given_nodes os)
        × All (λ (o : OutboundConfig). str_eq o.subscription_id id ≡ true) (given_nodes os)
  unfolding prepare_nodes
  prepare_nodes-given id [] seen h = (refl, tt)
  prepare_nodes-given id (none ∷ os) seen h = absurd (ground arith)
  prepare_nodes-given id (some o ∷ os) seen h = elim (Bool-cases (str_eq o.subscription_id id)) [
    | inr e ↦ absurd (ground (arith, e))
    | inl mine ↦ elim (Bool-cases (valid o)) [
      | inr e ↦ absurd (ground (arith, mine, e))
      | inl good ↦ elim (Option-cases (lookup o.name seen)) [
        | inr (s, e) ↦ absurd (ground (arith, mine, good, e))
        | inl new ↦
            (let rest =
                prepare_nodes-given id os (insert o.name true seen)
                  (ground (arith, mine, good, new)) in
              rw (prepare_nodes, mine, good, new)
                (ap (λ (l : List OutboundConfig). o ∷ l) rest.0, (refl, rest.1)))
      ]
    ]
  ]

  filter_mine :
      (id : String) (os : List OutboundConfig)
      → All (λ (o : OutboundConfig). str_eq o.subscription_id id ≡ true) os
      → filter_nodes (of_subscription id) os ≡ os
  filter_mine id [] a = refl
  filter_mine id (o ∷ os) a =
      rw a.0 (ap (λ (l : List OutboundConfig). o ∷ l) (filter_mine id os a.1))

  filter_others :
      (id other : String) (os : List OutboundConfig)
      → str_eq other id ≡ false
      → All (λ (o : OutboundConfig). str_eq o.subscription_id id ≡ true) os
      → filter_nodes (of_subscription other) os ≡ []
  filter_others id other [] h a = refl
  filter_others id other (o ∷ os) h a = ground (
    arith,
    a.0,
    filter_others id other os h a.1,
    eq_iff o.subscription_id id,
    eq_iff o.subscription_id other,
    eq_iff other id,
  )

  -- A call of ReplaceSubscriptionOutbounds changes nothing and returns an error, or afterwards
  -- GetBySubscriptionID gives for the subscription exactly the given nodes, and for each other
  -- subscription the nodes that it gave before, both in some order, and the only error is that of
  -- the write of the file. Each range over a map goes over all its entries, in whatever order.
  pub replace_subscription_outbounds-exact :
      (range range' : List (String × OutboundConfig) → List (String × OutboundConfig))
      (m : OutboundConfigManager) (id other : String) (os : List (Option OutboundConfig)) (w : Bool)
      → Reorders range
      → Reorders range'
      → str_eq other id ≡ false
      → (((replace_subscription_outbounds valid m id os w).0 ≡ m)
          × ((replace_subscription_outbounds valid m id os w).1 ≢ none))
        ⊎ (Perm
              (get_by_subscription_id range (replace_subscription_outbounds valid m id os w).0 id)
              (given_nodes os)
            × Perm
                (get_by_subscription_id range
                  (replace_subscription_outbounds valid m id os w).0
                  other)
                (get_by_subscription_id range' m other)
            × (((replace_subscription_outbounds valid m id os w).1 ≡ none)
                ⊎ ((replace_subscription_outbounds valid m id os w).1 ≡ some write_error)))
  unfolding replace_subscription_outbounds
  replace_subscription_outbounds-exact range range' m id other os w go go' d =
      let prepared = prepare_nodes valid id os [] in
      let left = without_subscription id m.nodes in
      elim (Bool-cases (str_eq id "")) [
        | inl e ↦ inl (rw (replace_subscription_outbounds, e) refl, λ h. ground (arith, e))
        | inr given ↦ elim (Option-cases prepared.1) [
          | inr (x, e) ↦
              inl
                (rw (replace_subscription_outbounds, given, e) refl, λ h. ground (arith, given, e))
          | inl good ↦ elim (Option-cases (add_prepared prepared.0 left)) [
            | inl e ↦ inl (
              rw (replace_subscription_outbounds, given, good, e) refl,
              λ h. ground (arith, given, good, e),
            )
            | inr (next, e) ↦
                (let p = prepare_nodes-given id os [] good in
                  let s = saved (record m { nodes = next }) w in
                  let added : add_prepared (given_nodes os) left ≡ some next =
                    subst (λ (l : List OutboundConfig). add_prepared l left ≡ some next) p.0 e in
                  let mine : nodes_where (of_subscription id) next ≡ given_nodes os =
                    nodes_where-add_prepared (of_subscription id) (given_nodes os) left next added
                    ∙ rw (none_left id m.nodes) (filter_mine id (given_nodes os) p.1) in
                  let theirs : nodes_where (of_subscription other) next
                      ≡ nodes_where (of_subscription other) m.nodes =
                    nodes_where-add_prepared (of_subscription other) (given_nodes os) left next
                      added
                    ∙ rw
                        (
                          filter_others id other (given_nodes os) d p.1,
                          others_left id other m.nodes d,
                        )
                        (append-nil _) in
                  inr (
                    rw (replace_subscription_outbounds, given, good, e)
                      (
                        range-Perm range go (of_subscription id) _
                            (ap (nodes_where (of_subscription id)) s.0 ∙ mine),
                        Perm.trans
                            (range-Perm range go (of_subscription other) _
                              (ap (nodes_where (of_subscription other)) s.0 ∙ theirs))
                            (Perm.symm
                              (range-Perm range' go' (of_subscription other) m.nodes refl)),
                        s.1,
                      )))
          ]
        ]
      ]
