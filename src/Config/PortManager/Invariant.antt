-- ===== src/Config/PortManager/Invariant.antt =====
-- Every operation of the manager keeps ids and listen addresses distinct.
use mcbeproxy.Base.{
  ◌≡◌, ◌≢◌, refl, sym, subst, Bool, false, String, str_eq, eq_iff, List, [], ◌∷◌, Option, none,
  some, arith, if◌then◌else◌, Bool-cases, Option-cases, inl, inr,
}
use mcbeproxy.Base.Map.{lookup, insert, erase, string_key, lookup-insert}
use mcbeproxy.Base.Library.{Library}
use mcbeproxy.Config.ProxyPort.{ProxyPortConfig, validate}
use mcbeproxy.Config.ProxyPort.Defaults.{validate-IsValid}
use mcbeproxy.Config.PortManager.{
  ConfigFile, missing, unreadable, unparsable, contents, ProxyPortConfigManager,
  normalize_listen_addr, load_loop, load, is_taken, ensure_port_unique, save_to_file, add_port,
  add_ports, update_port, delete_port,
}
use mcbeproxy.Config.PortManager.Batch.{is_taken-insert, add_ports-IsSound}
use mcbeproxy.Config.PortManager.Unique.{
  IsSound, IsFree, ensure_port_unique-IsFree, insert-IsSound, erase-IsSound, lookup-empty,
  is_taken-other, is_taken-erase,
}

-- An operation on the manager, or an edit of the file from outside.
pub data Operation : Type 0 where
  edits : ConfigFile → Operation
  loads : Operation
  adds : Option ProxyPortConfig → Bool → Operation
  adds_all : List (Option ProxyPortConfig) → Bool → Operation
  updates : String → Option ProxyPortConfig → Bool → Operation
  deletes : String → Bool → Operation

module _ (go : Library) where
  unfoldable pub step : ProxyPortConfigManager → Operation → ProxyPortConfigManager
  step m (edits file) = record m { file = file }
  step m loads = (load go m).0
  step m (adds cfg written) = (add_port go m cfg written).0
  step m (adds_all cfgs written) = (add_ports go m cfgs written).0
  step m (updates id cfg written) = (update_port go m id cfg written).0
  step m (deletes id written) = (delete_port m id written).0

  unfoldable pub steps : ProxyPortConfigManager → List Operation → ProxyPortConfigManager
  steps m [] = m
  steps m (o ∷ os) = steps (step m o) os

  save-ports : (m : ProxyPortConfigManager) (w : Bool) → (save_to_file m w).0.ports ≡ m.ports
  unfolding save_to_file
  save-ports m w = ground arith

  -- A port that is free to be added under a new id.
  insert_new-IsSound :
      (m : List (String × ProxyPortConfig)) (pc : ProxyPortConfig) (staged : List (String × String))
      → IsFree go m pc "" staged
      → IsSound go m
      → IsSound go (insert pc.id pc m)
  insert_new-IsSound m pc staged f s =
      insert-IsSound go pc m f.given
        (is_taken-other go (normalize_listen_addr go pc.listen_addr) "" pc.id m
          (lookup-empty go m s.own) f.untaken)
        s

  add_port-IsSound :
      (m : ProxyPortConfigManager) (cfg : Option ProxyPortConfig) (w : Bool)
      → IsSound go m.ports
      → IsSound go (add_port go m cfg w).0.ports
  unfolding add_port
  add_port-IsSound m none w s = s
  add_port-IsSound m (some cfg) w s = elim (Option-cases (validate go cfg).1) [
    | inr (e, bad) ↦ rw (add_port, bad) s
    | inl good ↦
        (let pc = (validate go cfg).0 in
          elim (Option-cases (ensure_port_unique go m.ports pc "" []).1) [
            | inr (e, bad) ↦ rw (add_port, good, bad) s
            | inl free ↦
                rw (add_port, good, free)
                  (subst (IsSound go)
                    (sym (save-ports (record m { ports = insert pc.id pc m.ports }) w))
                    (insert_new-IsSound m.ports pc []
                      (ensure_port_unique-IsFree go m.ports pc "" [] free).0 s))
          ])
  ]

  rename-IsSound :
      (m : List (String × ProxyPortConfig)) (id : String) (pc : ProxyPortConfig)
      → IsFree go m pc id []
      → IsSound go m
      → IsSound go (insert pc.id pc (if str_eq id pc.id then m else erase id m))
  rename-IsSound m id pc f s = elim (Bool-cases (str_eq id pc.id)) [
    | inl same ↦
        rw same (insert-IsSound go pc m f.given (ground (arith, eq_iff id pc.id, f.untaken)) s)
    | inr other ↦ rw other (
        insert-IsSound go pc (erase id m) f.given
          (is_taken-erase go (normalize_listen_addr go pc.listen_addr) id pc.id m s.ids f.untaken)
          (erase-IsSound go id m s))
  ]

  update_port-IsSound :
      (m : ProxyPortConfigManager) (id : String) (cfg : Option ProxyPortConfig) (w : Bool)
      → IsSound go m.ports
      → IsSound go (update_port go m id cfg w).0.ports
  unfolding update_port
  update_port-IsSound m id none w s = s
  update_port-IsSound m id (some cfg) w s = elim (Option-cases (validate go cfg).1) [
    | inr (e, bad) ↦ rw (update_port, bad) s
    | inl good ↦ elim (Option-cases (lookup id m.ports)) [
      | inl lost ↦ rw (update_port, good, lost) s
      | inr (old, found) ↦
          (let pc = (validate go cfg).0 in
            elim (Option-cases (ensure_port_unique go m.ports pc id []).1) [
              | inr (e, bad) ↦ rw (update_port, good, found, bad) s
              | inl free ↦
                  rw (update_port, good, found, free)
                    (subst (IsSound go)
                      (sym (
                        save-ports
                          (record m {
                            ports =
                                insert pc.id pc
                                  (if str_eq id pc.id then m.ports else erase id m.ports);
                          })
                          w))
                      (rename-IsSound m.ports id pc
                        (ensure_port_unique-IsFree go m.ports pc id [] free).0 s))
            ])
    ]
  ]

  delete_port-IsSound :
      (m : ProxyPortConfigManager) (id : String) (w : Bool)
      → IsSound go m.ports
      → IsSound go (delete_port m id w).0.ports
  unfolding delete_port
  delete_port-IsSound m id w s = elim (Option-cases (lookup id m.ports)) [
    | inl lost ↦ rw (delete_port, lost) s
    | inr (old, found) ↦
        rw (delete_port, found)
          (subst (IsSound go) (sym (save-ports (record m { ports = erase id m.ports }) w))
            (erase-IsSound go id m.ports s))
  ]

  -- The map of Load's loop, whose addresses have all been seen.
  record IsLoading (ports : List (String × ProxyPortConfig)) (seen : List (String × String))
      : Type 0 where
    sound : IsSound go ports
    known : (a : String) → lookup a seen ≡ none → is_taken go a "" ports ≡ false

  IsLoading-step :
      (pc : ProxyPortConfig) (ports : List (String × ProxyPortConfig))
      (seen : List (String × String))
      → IsLoading ports seen
      → pc.id ≢ ""
      → lookup (normalize_listen_addr go pc.listen_addr) seen ≡ none
      → IsLoading
          (insert pc.id pc ports)
          (insert (normalize_listen_addr go pc.listen_addr) pc.id seen)
  IsLoading-step pc ports seen s given free =
      let addr = normalize_listen_addr go pc.listen_addr in
      record {
        sound =
            insert-IsSound go pc ports given
              (is_taken-other go addr "" pc.id ports (lookup-empty go ports s.sound.own)
                (s.known addr free))
              s.sound;
        known = λ a l.
            is_taken-insert go a "" pc.id pc ports
              (s.known a (ground (arith, lookup-insert addr a pc.id seen)))
              (ground (arith, eq_iff addr a, lookup-insert addr a pc.id seen));
      }

  load_loop-IsSound :
      (cfgs : List (Option ProxyPortConfig)) (ports : List (String × ProxyPortConfig))
      (seen : List (String × String))
      → IsLoading ports seen
      → IsSound go (load_loop go cfgs ports seen).0
  unfolding load_loop
  load_loop-IsSound [] ports seen s = s.sound
  load_loop-IsSound (none ∷ cfgs) ports seen s = load_loop-IsSound cfgs ports seen s
  load_loop-IsSound (some cfg ∷ cfgs) ports seen s =
      let pc = (validate go cfg).0 in
      let addr = normalize_listen_addr go pc.listen_addr in
      elim (Option-cases (validate go cfg).1) [
        | inr (e, bad) ↦ rw (load_loop, bad) s.sound
        | inl good ↦ elim (Option-cases (lookup pc.id ports)) [
          | inr (e, bad) ↦ rw (load_loop, good, bad) s.sound
          | inl new ↦ elim (Option-cases (lookup addr seen)) [
            | inr (e, bad) ↦ rw (load_loop, good, new, bad) s.sound
            | inl free ↦
                rw (load_loop, good, new, free)
                  (load_loop-IsSound cfgs (insert pc.id pc ports) (insert addr pc.id seen)
                    (IsLoading-step pc ports seen s (validate-IsValid go cfg good).id_given free))
          ]
        ]
      ]

  empty-IsLoading : IsLoading [] []
  unfolding is_taken
  empty-IsLoading = record {
    sound = record { ids = tt; own = tt; listen = tt };
    known = λ a l. refl;
  }

  load-IsSound : (m : ProxyPortConfigManager) → IsSound go m.ports → IsSound go (load go m).0.ports
  unfolding load
  load-IsSound m s = load_file m.file refl
    where
      load_file : (f : ConfigFile) → m.file ≡ f → IsSound go (load go m).0.ports
      load_file missing e = rw (load, e) empty-IsLoading.sound
      load_file unreadable e = rw (load, e) s
      load_file unparsable e = rw (load, e) s
      load_file (contents cfgs) e = elim (Option-cases (load_loop go cfgs [] []).1) [
        | inl good ↦ rw (load, e, good) (load_loop-IsSound cfgs [] [] empty-IsLoading)
        | inr (x, bad) ↦ rw (load, e, bad) s
      ]

  step-IsSound :
      (m : ProxyPortConfigManager) (o : Operation)
      → IsSound go m.ports
      → IsSound go (step m o).ports
  unfolding step
  step-IsSound m (edits file) s = s
  step-IsSound m loads s = load-IsSound m s
  step-IsSound m (adds cfg w) s = add_port-IsSound m cfg w s
  step-IsSound m (adds_all cfgs w) s = add_ports-IsSound go m cfgs w s
  step-IsSound m (updates id cfg w) s = update_port-IsSound m id cfg w s
  step-IsSound m (deletes id w) s = delete_port-IsSound m id w s

  -- Whatever is loaded, added, updated, renamed or deleted, in whatever order, and whatever
  -- stands in the file or fails to be written, each port is under its own id, which is not
  -- empty, no id stands twice, and no two ports have the same listen address up to case and
  -- surrounding space.
  pub steps-IsSound :
      (m : ProxyPortConfigManager) (os : List Operation)
      → IsSound go m.ports
      → IsSound go (steps m os).ports
  unfolding steps
  steps-IsSound m [] s = s
  steps-IsSound m (o ∷ os) s = steps-IsSound (step m o) os (step-IsSound m o s)
