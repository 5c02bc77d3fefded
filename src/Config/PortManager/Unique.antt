-- ===== src/Config/PortManager/Unique.antt =====
-- What ensurePortUniqueLocked establishes: ids and listen addresses stay distinct.
use mcbeproxy.Base.{
  ◌≡◌, ◌≢◌, refl, sym, ◌∙◌, false, String, str_eq, eq_iff, List, [], ◌∷◌, none, some, arith, All,
  Bool-cases, Option-cases, inl, inr, ◌⊎◌,
}
use mcbeproxy.Base.Map.{
  lookup, insert, erase, string_key, IsDistinct, insert-IsDistinct, erase-IsDistinct, All-erase,
}
use mcbeproxy.Base.Library.{Library}
use mcbeproxy.Config.ProxyPort.{ProxyPortConfig}
use mcbeproxy.Config.PortManager.{normalize_listen_addr, is_taken, ensure_port_unique}

-- A port stands under its own id, which is not empty.
abbrev pub IsOwn : String × ProxyPortConfig → Type 0
IsOwn p = (p.1.id ≡ p.0) × (p.0 ≢ "")

module _ (go : Library) where
  -- The listen addresses as the manager compares them, each with the id of its port.
  abbrev pub addresses : List (String × ProxyPortConfig) → List (String × String)
  addresses [] = []
  addresses ((id, pc) ∷ m) = (normalize_listen_addr go pc.listen_addr, id) ∷ addresses m

  -- No id and no listen address stands twice, and each port is under its id.
  pub record IsSound (m : List (String × ProxyPortConfig)) : Type 0 where
    pub ids : IsDistinct m
    pub own : All IsOwn m
    pub listen : IsDistinct (addresses m)

  abbrev addr_of : ProxyPortConfig → String
  addr_of pc = normalize_listen_addr go pc.listen_addr

  pub is_taken-other :
      (a id id' : String) (m : List (String × ProxyPortConfig))
      → lookup id m ≡ none
      → is_taken go a id m ≡ false
      → is_taken go a id' m ≡ false
  unfolding lookup is_taken
  is_taken-other a id id' [] n h = refl
  is_taken-other a id id' ((i, w) ∷ m) n h = ground (arith, is_taken-other a id id' m)

  pub is_taken-addresses :
      (a id : String) (m : List (String × ProxyPortConfig))
      → lookup id m ≡ none
      → is_taken go a id m ≡ false
      → lookup a (addresses m) ≡ none
  unfolding lookup is_taken
  is_taken-addresses a id [] n h = refl
  is_taken-addresses a id ((i, w) ∷ m) n h = ground (arith, is_taken-addresses a id m)

  lookup-addresses-insert :
      (a id : String) (pc : ProxyPortConfig) (m : List (String × ProxyPortConfig))
      → lookup a (addresses m) ≡ none
      → addr_of pc ≢ a
      → lookup a (addresses (insert id pc m)) ≡ none
  unfolding lookup insert
  lookup-addresses-insert a id pc [] n h = ground (arith, eq_iff (addr_of pc) a)
  lookup-addresses-insert a id pc ((i, w) ∷ m) n h =
      ground (arith, eq_iff (addr_of pc) a, lookup-addresses-insert a id pc m)

  insert-addresses :
      (id : String) (pc : ProxyPortConfig) (m : List (String × ProxyPortConfig))
      → IsDistinct m
      → IsDistinct (addresses m)
      → is_taken go (addr_of pc) id m ≡ false
      → IsDistinct (addresses (insert id pc m))
  unfolding lookup insert is_taken
  insert-addresses id pc [] d l h = (refl, tt)
  insert-addresses id pc ((i, w) ∷ m) d l h = elim (Bool-cases (str_eq i id)) [
    | inl same ↦
        rw same (is_taken-addresses (addr_of pc) i m d.0 (ground (arith, eq_iff i id)), l.1)
    | inr other ↦ rw other (
      lookup-addresses-insert (addr_of w) id pc m l.0
          (λ e. ground (arith, eq_iff (addr_of w) (addr_of pc))),
      insert-addresses id pc m d.1 l.1 (ground (arith)),
    )
  ]

  lookup-addresses-erase :
      (a id : String) (m : List (String × ProxyPortConfig))
      → lookup a (addresses m) ≡ none
      → lookup a (addresses (erase id m)) ≡ none
  unfolding lookup erase
  lookup-addresses-erase a id [] n = refl
  lookup-addresses-erase a id ((i, w) ∷ m) n = ground (arith, lookup-addresses-erase a id m)

  erase-addresses :
      (id : String) (m : List (String × ProxyPortConfig))
      → IsDistinct (addresses m)
      → IsDistinct (addresses (erase id m))
  unfolding lookup erase
  erase-addresses id [] l = tt
  erase-addresses id ((i, w) ∷ m) l = elim (Bool-cases (str_eq i id)) [
    | inl same ↦ rw same l.1
    | inr other ↦ rw other (lookup-addresses-erase (addr_of w) id m l.0, erase-addresses id m l.1)
  ]

  -- A test that passes over one port is the test of the map without it.
  pub is_taken-erase :
      (a id id' : String) (m : List (String × ProxyPortConfig))
      → IsDistinct m
      → is_taken go a id m ≡ false
      → is_taken go a id' (erase id m) ≡ false
  unfolding lookup erase is_taken
  is_taken-erase a id id' [] d h = refl
  is_taken-erase a id id' ((i, w) ∷ m) d h = elim (Bool-cases (str_eq i id)) [
    | inl same ↦ rw same (is_taken-other a i id' m d.0 (ground (arith, same, eq_iff i id)))
    | inr other ↦ ground (arith, other, is_taken-erase a id id' m d.1)
  ]

  insert-IsOwn :
      (id : String) (pc : ProxyPortConfig) (m : List (String × ProxyPortConfig))
      → IsOwn (id, pc)
      → All IsOwn m
      → All IsOwn (insert id pc m)
  unfolding insert
  insert-IsOwn id pc [] e h = (e, tt)
  insert-IsOwn id pc ((i, w) ∷ m) e h = elim (Bool-cases (str_eq i id)) [
    | inl same ↦ rw same ((e.0 ∙ sym ((string_key.beq_iff i id).0 same), h.0.1), h.1)
    | inr other ↦ rw other (h.0, insert-IsOwn id pc m e h.1)
  ]

  pub insert-IsSound :
      (pc : ProxyPortConfig) (m : List (String × ProxyPortConfig))
      → pc.id ≢ ""
      → is_taken go (addr_of pc) pc.id m ≡ false
      → IsSound m
      → IsSound (insert pc.id pc m)
  insert-IsSound pc m given free s = record {
    ids = insert-IsDistinct pc.id pc m s.ids;
    own = insert-IsOwn pc.id pc m (refl, given) s.own;
    listen = insert-addresses pc.id pc m s.ids s.listen free;
  }

  pub erase-IsSound :
      (id : String) (m : List (String × ProxyPortConfig)) → IsSound m → IsSound (erase id m)
  erase-IsSound id m s = record {
    ids = erase-IsDistinct id m s.ids;
    own = All-erase IsOwn id m s.own;
    listen = erase-addresses id m s.listen;
  }

  pub lookup-empty : (m : List (String × ProxyPortConfig)) → All IsOwn m → lookup "" m ≡ none
  unfolding lookup
  lookup-empty [] h = refl
  lookup-empty ((i, w) ∷ m) h = ground (arith, eq_iff i "", h.0.1, lookup-empty m h.1)

  -- What holds where ensurePortUniqueLocked returns no error.
  pub record IsFree (m : List (String × ProxyPortConfig)) (pc : ProxyPortConfig)
      (existing_id : String) (staged : List (String × String)) : Type 0 where
    pub given : pc.id ≢ ""
    pub new : (lookup pc.id m ≡ none) ⊎ ((existing_id ≢ "") × (pc.id ≡ existing_id))
    pub untaken : is_taken go (addr_of pc) existing_id m ≡ false
    pub unstaged : (id : String) → lookup (addr_of pc) staged ≡ some id → id ≡ pc.id

  pub ensure_port_unique-IsFree :
      (m : List (String × ProxyPortConfig)) (pc : ProxyPortConfig) (existing_id : String)
      (staged : List (String × String))
      → (ensure_port_unique go m pc existing_id staged).1 ≡ none
      → IsFree m pc existing_id staged
        × ((ensure_port_unique go m pc existing_id staged).0 ≡ insert (addr_of pc) pc.id staged)
  unfolding ensure_port_unique
  ensure_port_unique-IsFree m pc ex staged h =
      let held = Option-cases (lookup pc.id m) in
      let there = Option-cases (lookup (addr_of pc) staged) in
      (
        record {
          given = ground (arith, eq_iff pc.id "");
          new = ground (arith, held, eq_iff ex "", eq_iff pc.id ex);
          untaken = ground arith;
          unstaged = λ id e. ground (arith, eq_iff id pc.id);
        },
        ground arith,
      )
