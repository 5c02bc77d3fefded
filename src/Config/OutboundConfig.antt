-- ===== src/Config/OutboundConfig.antt =====
-- internal/config/proxy_outbound_manager.go: the nodes by name, and the configuration file. A
-- node is reduced to what the manager reads and a number for the rest of its fields; Validate is
-- a test. A nil pointer is `none`; each write of the file comes with its result. The order of the
-- nodes in the file, which saveToFile leaves to the range over the map, is that of the list here.
pub mod Range
pub mod Subscription
pub mod Names
use mcbeproxy.Base.{
  ℕ, Bool, true, false, not, ◌&&◌, String, str_eq, List, [], ◌∷◌, Option, none, some, if◌then◌else◌,
  length,
}
use mcbeproxy.Base.Map.{lookup, insert, erase, values, string_key}

pub record OutboundConfig : Type 0 where
  pub name : String
  pub group : String
  pub subscription_id : String
  pub fields : ℕ

pub data OutboundFile : Type 0 where
  no_file : OutboundFile
  bad_read : OutboundFile
  bad_json : OutboundFile
  configs : List OutboundConfig → OutboundFile

pub data OutboundConfigError : Type 0 where
  read_error : OutboundConfigError
  json_error : OutboundConfigError
  write_error : OutboundConfigError
  nil_outbound : OutboundConfigError
  no_subscription : OutboundConfigError
  other_subscription : OutboundConfigError
  not_valid : OutboundConfigError
  duplicate_name : OutboundConfigError
  name_exists : OutboundConfigError
  name_not_found : OutboundConfigError

pub record OutboundConfigManager : Type 0 where
  pub nodes : List (String × OutboundConfig)
  pub config_file : OutboundFile

-- saveToFile.
unfoldable pub save_nodes :
    OutboundConfigManager → Bool → OutboundConfigManager × Option OutboundConfigError
save_nodes m written =
    if written
    then (record m { config_file = configs (values m.nodes) }, none)
    else (m, some write_error)

abbrev pub outbound_count : OutboundConfigManager → ℕ
outbound_count m = length m.nodes

-- The nodes that pass a test, in the order of a range over the map.
unfoldable pub nodes_where :
    (OutboundConfig → Bool) → List (String × OutboundConfig) → List OutboundConfig
nodes_where test [] = []
nodes_where test ((name, o) ∷ m) =
    let rest = nodes_where test m in if test o then o ∷ rest else rest

-- The order of a range over a map is not specified: `range` puts the entries into that of this run.
module _ (range : List (String × OutboundConfig) → List (String × OutboundConfig)) where
  abbrev pub get_by_group : OutboundConfigManager → String → List OutboundConfig
  get_by_group m group = nodes_where (λ o. str_eq o.group group) (range m.nodes)

  abbrev pub get_by_subscription_id : OutboundConfigManager → String → List OutboundConfig
  get_by_subscription_id m id = nodes_where (λ o. str_eq o.subscription_id id) (range m.nodes)

-- The loop that builds `next` from the nodes of other subscriptions.
unfoldable pub without_subscription :
    String → List (String × OutboundConfig) → List (String × OutboundConfig)
without_subscription id [] = []
without_subscription id ((name, o) ∷ m) =
    let rest = without_subscription id m in
    if str_eq o.subscription_id id then rest else (name, o) ∷ rest

-- The loop that adds the prepared nodes to `next`; `none` is the error of a name that is there.
unfoldable pub add_prepared :
    List OutboundConfig → List (String × OutboundConfig) → Option (List (String × OutboundConfig))
add_prepared [] next = some next
add_prepared (o ∷ os) next =
    let rest = add_prepared os (insert o.name o next) in
    elim (lookup o.name next) [ some old ↦ none | none ↦ rest ]

module _ (valid : OutboundConfig → Bool) where
  -- Load's check of all the nodes, with the names seen so far.
  unfoldable pub check_nodes :
      List OutboundConfig → List (String × Bool) → Option OutboundConfigError
  check_nodes [] seen = none
  check_nodes (o ∷ os) seen =
      let rest = check_nodes os (insert o.name true seen) in
      if not (valid o)
      then some not_valid
      else elim (lookup o.name seen) [ some s ↦ some duplicate_name | none ↦ rest ]

  unfoldable pub insert_nodes :
      List OutboundConfig → List (String × OutboundConfig) → List (String × OutboundConfig)
  insert_nodes [] m = m
  insert_nodes (o ∷ os) m = insert_nodes os (insert o.name o m)

  unfoldable pub load_nodes :
      OutboundConfigManager → OutboundConfigManager × Option OutboundConfigError
  load_nodes m = elim m.config_file [
    | no_file ↦ (record m { nodes = [] }, none)
    | bad_read ↦ (m, some read_error)
    | bad_json ↦ (m, some json_error)
    | configs os ↦ elim (check_nodes os []) [
      | some e ↦ (m, some e)
      | none ↦ (record m { nodes = insert_nodes os [] }, none)
    ]
  ]

  unfoldable pub add_node :
      OutboundConfigManager
      → OutboundConfig
      → Bool
      → OutboundConfigManager × Option OutboundConfigError
  add_node m o written =
      if not (valid o) then (m, some not_valid) else elim (lookup o.name m.nodes) [
        | some old ↦ (m, some name_exists)
        | none ↦ save_nodes (record m { nodes = insert o.name o m.nodes }) written
      ]

  -- UpdateOutbound, which does not ask whether a new name is taken.
  unfoldable pub update_node :
      OutboundConfigManager
      → String
      → OutboundConfig
      → Bool
      → OutboundConfigManager × Option OutboundConfigError
  update_node m name o written =
      let kept = if str_eq name o.name then m.nodes else erase name m.nodes in
      if not (valid o) then (m, some not_valid) else elim (lookup name m.nodes) [
        | none ↦ (m, some name_not_found)
        | some old ↦ save_nodes (record m { nodes = insert o.name o kept }) written
      ]

  -- The first loop of ReplaceSubscriptionOutbounds: the prepared nodes, or an error.
  unfoldable pub prepare_nodes :
      String
      → List (Option OutboundConfig)
      → List (String × Bool)
      → List OutboundConfig × Option OutboundConfigError
  prepare_nodes id [] seen = ([], none)
  prepare_nodes id (none ∷ os) seen = ([], some nil_outbound)
  prepare_nodes id (some o ∷ os) seen =
      let rest = prepare_nodes id os (insert o.name true seen) in
      if not (str_eq o.subscription_id id)
      then ([], some other_subscription)
      else (if not (valid o) then ([], some not_valid) else elim (lookup o.name seen) [
        | some s ↦ ([], some duplicate_name)
        | none ↦ (o ∷ rest.0, rest.1)
      ])

  unfoldable pub replace_subscription_outbounds :
      OutboundConfigManager
      → String
      → List (Option OutboundConfig)
      → Bool
      → OutboundConfigManager × Option OutboundConfigError
  replace_subscription_outbounds m id os written =
      let prepared = prepare_nodes id os [] in
      if str_eq id "" then (m, some no_subscription) else elim prepared.1 [
        | some e ↦ (m, some e)
        | none ↦ elim (add_prepared prepared.0 (without_subscription id m.nodes)) [
          | none ↦ (m, some name_exists)
          | some next ↦ save_nodes (record m { nodes = next }) written
        ]
      ]

unfoldable pub delete_node :
    OutboundConfigManager → String → Bool → OutboundConfigManager × Option OutboundConfigError
delete_node m name written = elim (lookup name m.nodes) [
  | none ↦ (m, some name_not_found)
  | some old ↦ save_nodes (record m { nodes = erase name m.nodes }) written
]
