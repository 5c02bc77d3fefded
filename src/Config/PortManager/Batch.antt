-- ===== src/Config/PortManager/Batch.antt =====
-- AddPorts: the whole list is added or nothing is.
use mcbeproxy.Base.{
  ◌≡◌, ◌≢◌, refl, sym, ◌∙◌, ap, subst, Bool, true, false, String, str_eq, eq_iff, List, [], ◌∷◌,
  Option, none, some, arith, Bool-cases, Option-cases, inl, inr, ◌⊎◌,
}
use mcbeproxy.Base.Map.{lookup, insert, string_key, lookup-insert}
use mcbeproxy.Base.Library.{Library}
use mcbeproxy.Config.ProxyPort.{ProxyPortConfig, validate}
use mcbeproxy.Config.PortManager.{
  ManagerError, write_failed, ProxyPortConfigManager, normalize_listen_addr, is_taken,
  ensure_port_unique, save_to_file, prepare, ensure_all, insert_all, add_ports,
}
use mcbeproxy.Config.PortManager.Unique.{
  IsSound, IsFree, ensure_port_unique-IsFree, insert-IsSound, lookup-empty, is_taken-other,
}

-- No id of the list was seen before or stands in it twice.
abbrev pub IsNew : List ProxyPortConfig → List (String × Bool) → Type 0
IsNew [] seen = Unit
IsNew (pc ∷ pcs) seen = (lookup pc.id seen ≡ none) × IsNew pcs (insert pc.id true seen)

-- The ports by their ids.
abbrev pub entries : List ProxyPortConfig → List (String × ProxyPortConfig)
entries [] = []
entries (pc ∷ pcs) = (pc.id, pc) ∷ entries pcs

abbrev pub or_old : Option ProxyPortConfig → Option ProxyPortConfig → Option ProxyPortConfig
or_old none old = old
or_old (some pc) old = some pc

entries-seen :
    (k : String) (b : Bool) (pcs : List ProxyPortConfig) (seen : List (String × Bool))
    → IsNew pcs seen
    → lookup k seen ≡ some b
    → lookup k (entries pcs) ≡ none
unfolding lookup
entries-seen k b [] seen n h = refl
entries-seen k b (pc ∷ pcs) seen n h = ground (
  arith,
  eq_iff pc.id k,
  n.0,
  h,
  lookup-insert pc.id k true seen,
  entries-seen k b pcs (insert pc.id true seen) n.1,
)

lookup-insert_all :
    (k : String) (pcs : List ProxyPortConfig) (seen : List (String × Bool))
    (m : List (String × ProxyPortConfig))
    → IsNew pcs seen
    → lookup k (insert_all pcs m) ≡ or_old (lookup k (entries pcs)) (lookup k m)
unfolding lookup insert_all
lookup-insert_all k [] seen m n = refl
lookup-insert_all k (pc ∷ pcs) seen m n = elim (Bool-cases (str_eq pc.id k)) [
  | inl same ↦
      (let there : lookup k (insert pc.id true seen) ≡ some true =
          lookup-insert pc.id k true seen ∙ (ground (arith, same)) in
        let unseen = entries-seen k true pcs (insert pc.id true seen) n.1 there in
        ground (
          arith,
          same,
          lookup-insert pc.id k pc m,
          unseen,
          lookup-insert_all k pcs (insert pc.id true seen) (insert pc.id pc m) n.1,
        ))
  | inr other ↦ ground (
    arith,
    other,
    lookup-insert pc.id k pc m,
    lookup-insert_all k pcs (insert pc.id true seen) (insert pc.id pc m) n.1,
  )
]

module _ (go : Library) where
  -- The given ports with their defaults.
  abbrev pub validated : List (Option ProxyPortConfig) → List ProxyPortConfig
  validated [] = []
  validated (none ∷ cfgs) = validated cfgs
  validated (some cfg ∷ cfgs) = (validate go cfg).0 ∷ validated cfgs

  prepare-IsNew :
      (cfgs : List (Option ProxyPortConfig)) (seen : List (String × Bool))
      → (prepare go cfgs seen).1 ≡ none
      → IsNew (prepare go cfgs seen).0 seen × ((prepare go cfgs seen).0 ≡ validated cfgs)
  unfolding prepare
  prepare-IsNew [] seen h = (tt, refl)
  prepare-IsNew (none ∷ cfgs) seen h = absurd (ground arith)
  prepare-IsNew (some cfg ∷ cfgs) seen h =
      let pc = (validate go cfg).0 in
      elim (Option-cases (validate go cfg).1) [
        | inr (e, bad) ↦ absurd (ground (arith, bad))
        | inl good ↦ elim (Option-cases (lookup pc.id seen)) [
          | inr (e, bad) ↦ absurd (ground (arith, good, bad))
          | inl new ↦
              (let rest = prepare-IsNew cfgs (insert pc.id true seen) (ground (arith, good, new)) in
                rw (prepare, good, new) ((new, rest.0), ap (λ l. pc ∷ l) rest.1))
        ]
      ]

  pub is_taken-insert :
      (a ex id : String) (pc : ProxyPortConfig) (m : List (String × ProxyPortConfig))
      → is_taken go a ex m ≡ false
      → normalize_listen_addr go pc.listen_addr ≢ a
      → is_taken go a ex (insert id pc m) ≡ false
  unfolding is_taken insert
  is_taken-insert a ex id pc [] h d =
      ground (arith, eq_iff (normalize_listen_addr go pc.listen_addr) a)
  is_taken-insert a ex id pc ((i, w) ∷ m) h d =
      ground
        (arith, eq_iff (normalize_listen_addr go pc.listen_addr) a, is_taken-insert a ex id pc m)

  -- The map while the list is inserted, beside what the checks on the old map have staged.
  record IsStaged (m now : List (String × ProxyPortConfig)) (staged : List (String × String))
      (seen : List (String × Bool)) : Type 0 where
    sound : IsSound go now
    old : IsSound go m
    taken :
        (a : String)
        → is_taken go a "" m ≡ false
        → lookup a staged ≡ none
        → is_taken go a "" now ≡ false
    there : (a id : String) → lookup a staged ≡ some id → lookup id now ≢ none
    fresh : (k : String) → lookup k m ≡ none → lookup k seen ≡ none → lookup k now ≡ none

  IsStaged-step :
      (m now : List (String × ProxyPortConfig)) (staged : List (String × String))
      (seen : List (String × Bool)) (pc : ProxyPortConfig)
      → IsStaged m now staged seen
      → IsFree go m pc "" staged
      → lookup pc.id seen ≡ none
      → IsStaged m
          (insert pc.id pc now)
          (insert (normalize_listen_addr go pc.listen_addr) pc.id staged)
          (insert pc.id true seen)
  IsStaged-step m now staged seen pc s f n =
      let addr = normalize_listen_addr go pc.listen_addr in
      let none_old : lookup pc.id m ≡ none = elim f.new [
        | inl e ↦ e
        | inr (p, q) ↦ absurd (p refl)
      ] in
      let none_now : lookup pc.id now ≡ none = s.fresh pc.id none_old n in
      let unstaged : lookup addr staged ≡ none = elim (Option-cases (lookup addr staged)) [
        | inl e ↦ e
        | inr (id, e) ↦ absurd (
            s.there addr id e
              (subst (λ (i : String). lookup i now ≡ none) (sym (f.unstaged id e)) none_now))
      ] in
      record {
        sound =
            insert-IsSound go pc now f.given
              (is_taken-other go addr "" pc.id now (lookup-empty go now s.sound.own)
                (s.taken addr f.untaken unstaged))
              s.sound;
        old = s.old;
        taken = λ a h l.
            is_taken-insert a "" pc.id pc now
              (s.taken a h (ground (arith, lookup-insert addr a pc.id staged)))
              (ground (arith, eq_iff addr a, lookup-insert addr a pc.id staged));
        there = λ a id l. ground (
          arith,
          eq_iff addr a,
          eq_iff pc.id id,
          lookup-insert addr a pc.id staged,
          lookup-insert pc.id id pc now,
          s.there a id,
        );
        fresh = λ k h l.
            ground
              (arith, lookup-insert pc.id k true seen, lookup-insert pc.id k pc now, s.fresh k h);
      }

  start-IsStaged : (m : List (String × ProxyPortConfig)) → IsSound go m → IsStaged m m [] []
  unfolding lookup
  start-IsStaged m s = record {
    sound = s;
    old = s;
    taken = λ a h l. h;
    there = λ a id l. absurd (ground (arith, l));
    fresh = λ k h l. h;
  }

  insert_all-IsSound :
      (m now : List (String × ProxyPortConfig)) (staged : List (String × String))
      (seen : List (String × Bool)) (pcs : List ProxyPortConfig)
      → IsStaged m now staged seen
      → IsNew pcs seen
      → ensure_all go m pcs staged ≡ none
      → IsSound go (insert_all pcs now)
  unfolding ensure_all insert_all
  insert_all-IsSound m now staged seen [] s n h = s.sound
  insert_all-IsSound m now staged seen (pc ∷ pcs) s n h =
      elim (Option-cases (ensure_port_unique go m pc "" staged).1) [
        | inr (e, bad) ↦ absurd (ground (arith, bad))
        | inl free ↦
            (let f = ensure_port_unique-IsFree go m pc "" staged free in
              let staged' = insert (normalize_listen_addr go pc.listen_addr) pc.id staged in
              let rest : ensure_all go m pcs staged' ≡ none =
                subst (λ (t : List (String × String)). ensure_all go m pcs t ≡ none) f.1
                  (ground (arith, free)) in
              insert_all-IsSound m (insert pc.id pc now) staged' (insert pc.id true seen) pcs
                (IsStaged-step m now staged seen pc s f.0 n.0) n.1 rest)
      ]

  save-batch :
      (m : ProxyPortConfigManager) (w : Bool)
      → ((save_to_file m w).0.ports ≡ m.ports)
        × (((save_to_file m w).1 ≡ none) ⊎ ((save_to_file m w).1 ≡ some write_failed))
  unfolding save_to_file
  save-batch m w = elim (Bool-cases w) [
    | inl e ↦ rw e (refl, inl refl)
    | inr e ↦ rw e (refl, inr refl)
  ]

  -- The manager and the result of AddPorts when every check passes, or the first error.
  add_ports-cases :
      (m : ProxyPortConfigManager) (cfgs : List (Option ProxyPortConfig)) (w : Bool)
      → (((add_ports go m cfgs w).0 ≡ m) × ((add_ports go m cfgs w).1 ≢ none))
        ⊎ (IsNew (validated cfgs) []
            × (ensure_all go m.ports (validated cfgs) [] ≡ none)
            × (add_ports go m cfgs w
                ≡ save_to_file (record m { ports = insert_all (validated cfgs) m.ports }) w))
  unfolding add_ports
  add_ports-cases m [] w = inl (refl, λ e. cc)
  add_ports-cases m (cfg ∷ cfgs) w = elim (Option-cases (prepare go (cfg ∷ cfgs) []).1) [
    | inr (e, bad) ↦ inl (rw (add_ports, bad) refl, λ h. ground (arith, bad))
    | inl good ↦
        (let p = prepare-IsNew (cfg ∷ cfgs) [] good in
          elim (Option-cases (ensure_all go m.ports (prepare go (cfg ∷ cfgs) []).0 [])) [
            | inr (e, bad) ↦ inl (rw (add_ports, good, bad) refl, λ h. ground (arith, good, bad))
            | inl free ↦ inr (
              subst (λ (l : List ProxyPortConfig). IsNew l []) p.1 p.0,
              subst (λ (l : List ProxyPortConfig). ensure_all go m.ports l [] ≡ none) p.1 free,
              rw (add_ports, good, free, p.1) refl,
            )
          ])
  ]

  pub add_ports-IsSound :
      (m : ProxyPortConfigManager) (cfgs : List (Option ProxyPortConfig)) (w : Bool)
      → IsSound go m.ports
      → IsSound go (add_ports go m cfgs w).0.ports
  add_ports-IsSound m cfgs w s = elim (add_ports-cases m cfgs w) [
    | inl same ↦ rw same.0 s
    | inr (n, free, e) ↦
        (let saved = record m { ports = insert_all (validated cfgs) m.ports } in
          subst (IsSound go)
            (sym (
              ap (λ (r : ProxyPortConfigManager × Option ManagerError). r.0.ports) e
              ∙ (save-batch saved w).0))
            (insert_all-IsSound m.ports m.ports [] [] (validated cfgs) (start-IsStaged m.ports s) n
              free))
  ]

  -- AddPorts either leaves the manager as it was and returns an error, or afterwards finds under
  -- an id the given port with its defaults, where one was given, and what it found before where
  -- none was; its only error is then that of the write of the file.
  pub add_ports-all_or_nothing :
      (m : ProxyPortConfigManager) (cfgs : List (Option ProxyPortConfig)) (w : Bool) (k : String)
      → (((add_ports go m cfgs w).0 ≡ m) × ((add_ports go m cfgs w).1 ≢ none))
        ⊎ ((lookup k (add_ports go m cfgs w).0.ports
              ≡ or_old (lookup k (entries (validated cfgs))) (lookup k m.ports))
            × (((add_ports go m cfgs w).1 ≡ none)
                ⊎ ((add_ports go m cfgs w).1 ≡ some write_failed)))
  add_ports-all_or_nothing m cfgs w k = elim (add_ports-cases m cfgs w) [
    | inl same ↦ inl same
    | inr (n, free, e) ↦
        (let s = save-batch (record m { ports = insert_all (validated cfgs) m.ports }) w in
          inr (
            rw e (ap (lookup k) s.0 ∙ lookup-insert_all k (validated cfgs) [] m.ports n),
            rw e s.1,
          ))
  ]
