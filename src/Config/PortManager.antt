-- ===== src/Config/PortManager.antt =====
-- internal/config/proxy_port_manager.go: the ports by id, and the configuration file. A nil
-- pointer is `none`; each write of the file comes with its result, `true` where it succeeds.
-- The watcher that calls Reload and the callback are left out.
pub mod Unique
pub mod Invariant
pub mod Batch
pub mod File
use mcbeproxy.Base.{
  Bool, true, false, not, ◌&&◌, ◌||◌, String, str_eq, List, [], ◌∷◌, Option, none, some,
  if◌then◌else◌,
}
use mcbeproxy.Base.Map.{lookup, insert, erase, values, string_key}
use mcbeproxy.Base.Library.{Library}
use mcbeproxy.Config.ProxyPort.{ProxyPortConfig, PortError, validate}

-- What os.ReadFile and json.Unmarshal make of the file.
pub data ConfigFile : Type 0 where
  missing : ConfigFile
  unreadable : ConfigFile
  unparsable : ConfigFile
  contents : List (Option ProxyPortConfig) → ConfigFile

pub data ManagerError : Type 0 where
  read_failed : ManagerError
  parse_failed : ManagerError
  write_failed : ManagerError
  nil_config : ManagerError
  empty_list : ManagerError
  invalid : PortError → ManagerError
  id_missing : ManagerError
  id_exists : String → ManagerError
  address_exists : String → ManagerError
  not_found : String → ManagerError

pub record ProxyPortConfigManager : Type 0 where
  pub ports : List (String × ProxyPortConfig)
  pub file : ConfigFile

abbrev pub new_manager : ConfigFile → ProxyPortConfigManager
new_manager file = record { ports = []; file = file }

abbrev pub some_all : List ProxyPortConfig → List (Option ProxyPortConfig)
some_all [] = []
some_all (pc ∷ pcs) = some pc ∷ some_all pcs

-- saveToFile.
unfoldable pub save_to_file :
    ProxyPortConfigManager → Bool → ProxyPortConfigManager × Option ManagerError
save_to_file m written =
    if written
    then (record m { file = contents (some_all (values m.ports)) }, none)
    else (m, some write_failed)

abbrev pub get_port : ProxyPortConfigManager → String → Option ProxyPortConfig
get_port m id = lookup id m.ports

abbrev pub get_all_ports : ProxyPortConfigManager → List ProxyPortConfig
get_all_ports m = values m.ports

abbrev pub is_other : Option String → String → Bool
is_other none id = false
is_other (some staged_id) id = not (str_eq staged_id id)

abbrev pub is_some {ℓ} : {A : Type ℓ} → Option A → Bool
is_some none = false
is_some (some a) = true

-- The third loop of AddPorts.
unfoldable pub insert_all :
    List ProxyPortConfig → List (String × ProxyPortConfig) → List (String × ProxyPortConfig)
insert_all [] ports = ports
insert_all (pc ∷ pcs) ports = insert_all pcs (insert pc.id pc ports)

module _ (go : Library) where
  abbrev pub normalize_listen_addr : String → String
  normalize_listen_addr addr = go.to_lower (go.trim_space addr)

  -- The loop of Load, with newPorts and seenListenAddrs so far.
  unfoldable pub load_loop :
      List (Option ProxyPortConfig)
      → List (String × ProxyPortConfig)
      → List (String × String)
      → List (String × ProxyPortConfig) × Option ManagerError
  load_loop [] ports seen = (ports, none)
  load_loop (none ∷ cfgs) ports seen = load_loop cfgs ports seen
  load_loop (some cfg ∷ cfgs) ports seen =
      let pc = (validate go cfg).0 in
      let addr = normalize_listen_addr pc.listen_addr in
      let rest = load_loop cfgs (insert pc.id pc ports) (insert addr pc.id seen) in
      elim (validate go cfg).1 [
        | some e ↦ (ports, some (invalid e))
        | none ↦ elim (lookup pc.id ports) [
          | some old ↦ (ports, some (id_exists pc.id))
          | none ↦ elim (lookup addr seen) [
            | some id ↦ (ports, some (address_exists pc.listen_addr))
            | none ↦ rest
          ]
        ]
      ]

  -- Load: the map changes only where there is no error.
  unfoldable pub load : ProxyPortConfigManager → ProxyPortConfigManager × Option ManagerError
  load m = elim m.file [
    | missing ↦ (record m { ports = [] }, none)
    | unreadable ↦ (m, some read_failed)
    | unparsable ↦ (m, some parse_failed)
    | contents cfgs ↦
        (let result = load_loop cfgs [] [] in
          elim result.1 [ none ↦ (record m { ports = result.0 }, none) | some e ↦ (m, some e) ])
  ]

  -- The loop of ensurePortUniqueLocked over the map.
  unfoldable pub is_taken : String → String → List (String × ProxyPortConfig) → Bool
  is_taken addr existing_id [] = false
  is_taken addr existing_id ((id, existing) ∷ m) =
      let rest = is_taken addr existing_id m in
      if str_eq id existing_id
      then rest
      else (if str_eq (normalize_listen_addr existing.listen_addr) addr then true else rest)

  -- ensurePortUniqueLocked, with the staged addresses; a nil map of those is `[]`, whose writes
  -- nobody reads.
  unfoldable pub ensure_port_unique :
      List (String × ProxyPortConfig)
      → ProxyPortConfig
      → String
      → List (String × String)
      → List (String × String) × Option ManagerError
  ensure_port_unique ports cfg existing_id staged =
      let addr = normalize_listen_addr cfg.listen_addr in
      if str_eq cfg.id ""
      then (staged, some id_missing)
      else (if is_some (lookup cfg.id ports)
            && (str_eq existing_id "" || not (str_eq cfg.id existing_id))
          then (staged, some (id_exists cfg.id))
          else (if is_taken addr existing_id ports
              then (staged, some (address_exists cfg.listen_addr))
              else (if is_other (lookup addr staged) cfg.id
                  then (staged, some (address_exists cfg.listen_addr))
                  else (insert addr cfg.id staged, none))))

  unfoldable pub add_port :
      ProxyPortConfigManager
      → Option ProxyPortConfig
      → Bool
      → ProxyPortConfigManager × Option ManagerError
  add_port m none written = (m, some nil_config)
  add_port m (some cfg) written =
      let pc = (validate go cfg).0 in
      elim (validate go cfg).1 [
        | some e ↦ (m, some (invalid e))
        | none ↦ elim (ensure_port_unique m.ports pc "" []).1 [
          | some e ↦ (m, some e)
          | none ↦ save_to_file (record m { ports = insert pc.id pc m.ports }) written
        ]
      ]

  -- The first loop of AddPorts: `prepared`, with the ids seen so far.
  unfoldable pub prepare :
      List (Option ProxyPortConfig)
      → List (String × Bool)
      → List ProxyPortConfig × Option ManagerError
  prepare [] seen = ([], none)
  prepare (none ∷ cfgs) seen = ([], some nil_config)
  prepare (some cfg ∷ cfgs) seen =
      let pc = (validate go cfg).0 in
      let rest = prepare cfgs (insert pc.id true seen) in
      elim (validate go cfg).1 [
        | some e ↦ ([], some (invalid e))
        | none ↦ elim (lookup pc.id seen) [
          | some s ↦ ([], some (id_exists pc.id))
          | none ↦ (pc ∷ rest.0, rest.1)
        ]
      ]

  -- The second.
  unfoldable pub ensure_all :
      List (String × ProxyPortConfig)
      → List ProxyPortConfig
      → List (String × String)
      → Option ManagerError
  ensure_all ports [] staged = none
  ensure_all ports (pc ∷ pcs) staged =
      let rest = ensure_all ports pcs (ensure_port_unique ports pc "" staged).0 in
      elim (ensure_port_unique ports pc "" staged).1 [ some e ↦ some e | none ↦ rest ]

  unfoldable pub add_ports :
      ProxyPortConfigManager
      → List (Option ProxyPortConfig)
      → Bool
      → ProxyPortConfigManager × Option ManagerError
  add_ports m [] written = (m, some empty_list)
  add_ports m (cfg ∷ cfgs) written =
      let prepared = prepare (cfg ∷ cfgs) [] in
      elim prepared.1 [
        | some e ↦ (m, some e)
        | none ↦ elim (ensure_all m.ports prepared.0 []) [
          | some e ↦ (m, some e)
          | none ↦ save_to_file (record m { ports = insert_all prepared.0 m.ports }) written
        ]
      ]

  unfoldable pub update_port :
      ProxyPortConfigManager
      → String
      → Option ProxyPortConfig
      → Bool
      → ProxyPortConfigManager × Option ManagerError
  update_port m id none written = (m, some nil_config)
  update_port m id (some cfg) written =
      let pc = (validate go cfg).0 in
      let kept = if str_eq id pc.id then m.ports else erase id m.ports in
      elim (validate go cfg).1 [
        | some e ↦ (m, some (invalid e))
        | none ↦ elim (lookup id m.ports) [
          | none ↦ (m, some (not_found id))
          | some old ↦ elim (ensure_port_unique m.ports pc id []).1 [
            | some e ↦ (m, some e)
            | none ↦ save_to_file (record m { ports = insert pc.id pc kept }) written
          ]
        ]
      ]

unfoldable pub delete_port :
    ProxyPortConfigManager → String → Bool → ProxyPortConfigManager × Option ManagerError
delete_port m id written = elim (lookup id m.ports) [
  | none ↦ (m, some (not_found id))
  | some old ↦ save_to_file (record m { ports = erase id m.ports }) written
]
