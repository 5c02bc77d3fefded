-- ===== src/Config/PortManager/File.antt =====
-- The configuration file: what Load makes of what saveToFile wrote.
use mcbeproxy.Base.{
  ◌≡◌, refl, ◌∙◌, ap, true, false, String, eq_iff, List, [], ◌∷◌, ◌++◌, append_assoc, append-nil,
  Option, none, some, arith,
}
use mcbeproxy.Base.Int.{pos, ltb_ℤ}
use mcbeproxy.Base.Map.{lookup, insert, values, string_key, lookup-insert}
use mcbeproxy.Base.Library.{Library}
use mcbeproxy.Config.ProxyPort.{ProxyPortConfig, validate, check_port, apply_defaults}
use mcbeproxy.Config.ProxyPort.Defaults.{IsFolding, apply_defaults-again}
use mcbeproxy.Config.PortManager.{
  contents, ProxyPortConfigManager, some_all, save_to_file, normalize_listen_addr, load_loop, load,
}
use mcbeproxy.Config.PortManager.Unique.{addresses, IsSound}

insert-append :
    (id : String) (pc : ProxyPortConfig) (m : List (String × ProxyPortConfig))
    → lookup id m ≡ none
    → insert id pc m ≡ m ++ ((id, pc) ∷ [])
unfolding lookup insert
insert-append id pc [] h = refl
insert-append id pc ((i, w) ∷ m) h = ground (arith, insert-append id pc m)

module _ (go : Library) where
  -- A port that Validate accepts as it is.
  abbrev pub IsSettled : ProxyPortConfig → Type 0
  IsSettled pc = (apply_defaults go pc ≡ pc) × (check_port go pc ≡ none)

  abbrev pub AllSettled : List (String × ProxyPortConfig) → Type 0
  AllSettled [] = Unit
  AllSettled ((id, pc) ∷ m) = IsSettled pc × AllSettled m

  -- None of these ports has the id of a loaded one or an address that was seen.
  abbrev IsApart :
      List (String × ProxyPortConfig)
      → List (String × String)
      → List (String × ProxyPortConfig)
      → Type 0
  IsApart ports seen [] = Unit
  IsApart ports seen ((id, pc) ∷ m) =
      (lookup id ports ≡ none)
      × (lookup (normalize_listen_addr go pc.listen_addr) seen ≡ none)
      × IsApart ports seen m

  IsApart-step :
      (id addr : String) (pc : ProxyPortConfig) (ports : List (String × ProxyPortConfig))
      (seen : List (String × String)) (m : List (String × ProxyPortConfig))
      → lookup id m ≡ none
      → lookup addr (addresses go m) ≡ none
      → IsApart ports seen m
      → IsApart (insert id pc ports) (insert addr id seen) m
  unfolding lookup
  IsApart-step id addr pc ports seen [] n l h = tt
  IsApart-step id addr pc ports seen ((i, w) ∷ m) n l h =
      let a = normalize_listen_addr go w.listen_addr in
      (
        ground (arith, h.0, eq_iff i id, eq_iff id i, lookup-insert id i pc ports),
        ground (arith, h.1, eq_iff addr a, eq_iff a addr, lookup-insert addr a id seen),
        IsApart-step id addr pc ports seen m (ground arith) (ground arith) h.2,
      )

  load_loop-settled :
      (pc : ProxyPortConfig) (cfgs : List (Option ProxyPortConfig))
      (ports : List (String × ProxyPortConfig)) (seen : List (String × String))
      → IsSettled pc
      → lookup pc.id ports ≡ none
      → lookup (normalize_listen_addr go pc.listen_addr) seen ≡ none
      → load_loop go (some pc ∷ cfgs) ports seen
        ≡ load_loop go cfgs
            (insert pc.id pc ports)
            (insert (normalize_listen_addr go pc.listen_addr) pc.id seen)
  unfolding load_loop
  load_loop-settled pc cfgs ports seen t n h =
      let e : (validate go pc).0 ≡ pc = t.0 in
      let addr = λ (q : ProxyPortConfig). normalize_listen_addr go q.listen_addr in
      let good : (validate go pc).1 ≡ none = ap (check_port go) t.0 ∙ t.1 in
      let new : lookup (validate go pc).0.id ports ≡ none =
        ap (λ (q : ProxyPortConfig). lookup q.id ports) e ∙ n in
      let free : lookup (addr (validate go pc).0) seen ≡ none =
        ap (λ (q : ProxyPortConfig). lookup (addr q) seen) e ∙ h in
      rw (load_loop, good, new, free)
        (ap
          (λ (q : ProxyPortConfig).
            load_loop go cfgs (insert q.id q ports) (insert (addr q) q.id seen))
          e)

  load_loop-some_all :
      (m ports : List (String × ProxyPortConfig)) (seen : List (String × String))
      → IsSound go m
      → AllSettled m
      → IsApart ports seen m
      → load_loop go (some_all (values m)) ports seen ≡ (ports ++ m, none)
  unfolding load_loop
  load_loop-some_all [] ports seen s t h = rw (append-nil ports) refl
  load_loop-some_all ((id, pc) ∷ m) ports seen s t h =
      let addr = normalize_listen_addr go pc.listen_addr in
      let tail = some_all (values m) in
      let rest =
        load_loop-some_all m (insert id pc ports) (insert addr id seen)
          (record { ids = s.ids.1; own = s.own.1; listen = s.listen.1 }) t.1
          (IsApart-step id addr pc ports seen m s.ids.0 s.listen.0 h.2) in
      let new : lookup pc.id ports ≡ none = ap (λ i. lookup i ports) s.own.0.0 ∙ h.0 in
      load_loop-settled pc tail ports seen t.0 new h.1
      ∙ ap (λ i. load_loop go tail (insert i pc ports) (insert addr i seen)) s.own.0.0
      ∙ rest
      ∙ rw (insert-append id pc ports h.0, append_assoc) refl

  apart : (ports : List (String × ProxyPortConfig)) → IsApart [] [] ports
  unfolding lookup
  apart [] = tt
  apart ((id, pc) ∷ ports) = (refl, refl, apart ports)

  load_contents :
      (m : ProxyPortConfigManager) (cfgs : List (Option ProxyPortConfig))
      (ports : List (String × ProxyPortConfig))
      → m.file ≡ contents cfgs
      → load_loop go cfgs [] [] ≡ (ports, none)
      → load go m ≡ (record m { ports = ports }, none)
  unfolding load
  load_contents m cfgs ports e r = ground (arith, e, r)

  -- Once a save has succeeded, Load reads back exactly the manager's map, where each port is
  -- one that Validate accepts as it is.
  pub load-save_to_file :
      (m : ProxyPortConfigManager)
      → IsSound go m.ports
      → AllSettled m.ports
      → (load go (save_to_file m true).0 ≡ ((save_to_file m true).0, none))
        × ((save_to_file m true).0.ports ≡ m.ports)
  unfolding load save_to_file
  load-save_to_file m s t = (
    load_contents (save_to_file m true).0 (some_all (values m.ports)) m.ports refl
        (load_loop-some_all m.ports [] [] s t (apart m.ports)),
    refl,
  )

  -- A port that Validate accepts, and whose number of candidates was not negative, is written
  -- with its defaults as a port that Validate accepts as it is.
  pub validate-IsSettled :
      (pc : ProxyPortConfig)
      → IsFolding go
      → (validate go pc).1 ≡ none
      → ltb_ℤ pc.auto_ping_top_candidates (pos 0) ≡ false
      → IsSettled (validate go pc).0
  validate-IsSettled pc f h n = (rw ((apply_defaults-again go f pc).1, n) refl, h)
