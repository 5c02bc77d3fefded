-- ===== src/Config/ProxyPort/Defaults.antt =====
-- The defaults of a proxy port, and what a port that Validate accepts is like.
use mcbeproxy.Base.{
  ◌≡◌, ◌≢◌, refl, sym, ◌∙◌, ap, true, false, String, str_eq, eq_iff, List, [], ◌∷◌, none, some,
  arith, if◌then◌else◌, Bool-cases, Option-cases, inl, inr, ◌⊎◌,
}
use mcbeproxy.Base.Int.{ℤ, pos, ltb_ℤ, leb_ℤ, ◌≤ℤ◌}
use mcbeproxy.Base.Library.{Library}
use mcbeproxy.Config.ProxyPort.{
  ProxyPortConfig, apply_defaults, normalize_full_scan_mode, default_type, default_list, default_id,
  default_positive, default_candidates, default_time, default_top_candidates, check_port, validate,
  is_type, check_listen_addr,
}

-- Folding a text that is folded changes nothing, and "socks4" is folded.
pub record IsFolding (go : Library) : Type 0 where
  pub again :
      (s : String)
      → go.to_lower (go.trim_space (go.to_lower (go.trim_space s))) ≡ go.to_lower (go.trim_space s)
  pub socks4 : go.to_lower (go.trim_space "socks4") ≡ "socks4"
  pub empty : go.to_lower (go.trim_space "") ≡ ""
  pub time : go.trim_space "04:00" ≡ "04:00"

module _ (go : Library) where
  mode-folded : (s : String) → normalize_full_scan_mode go s ≡ go.to_lower (go.trim_space s)
  mode-folded s = ground (
    arith,
    eq_iff (go.to_lower (go.trim_space s)) "",
    eq_iff (go.to_lower (go.trim_space s)) "daily",
    eq_iff (go.to_lower (go.trim_space s)) "interval",
  )

  mode-again :
      IsFolding go
      → (s : String)
      → normalize_full_scan_mode go (normalize_full_scan_mode go s) ≡ normalize_full_scan_mode go s
  mode-again f s =
      mode-folded (normalize_full_scan_mode go s)
      ∙ ap (λ t. go.to_lower (go.trim_space t)) (mode-folded s)
      ∙ f.again s
      ∙ sym (mode-folded s)

  type-again : IsFolding go → (s : String) → default_type go (default_type go s) ≡ default_type go s
  type-again f s = elim (Bool-cases (str_eq (go.to_lower (go.trim_space s)) "sock")) [
    | inl e ↦ rw (e, f.socks4) refl
    | inr e ↦ rw (e, f.again s, e) refl
  ]

  list-again : (l : List String) → default_list (default_list l) ≡ default_list l
  list-again [] = refl
  list-again (a ∷ l) = refl

  id-again : (i n : String) → default_id (default_id i n) n ≡ default_id i n
  id-again i n = ground (arith, eq_iff i "", eq_iff n "")

  time-again : IsFolding go → (s : String) → default_time go (default_time go s) ≡ default_time go s
  time-again f s = ground (arith, f.time)

  positive-again :
      (z n : ℤ)
      → leb_ℤ z (pos 0) ≡ false
      → default_positive z (default_positive z n) ≡ default_positive z n
  positive-again z n h = ground arith

  candidates-again :
      (n : ℤ)
      → default_candidates (default_candidates n)
        ≡ (if ltb_ℤ n (pos 0) then default_top_candidates else default_candidates n)
  candidates-again n = ground arith

  -- The number of candidates after the defaults: 10 for 0, 0 for a negative number.
  candidates-once :
      (n : ℤ)
      → default_candidates n ≡ (
          if ltb_ℤ n (pos 0)
          then pos 0
          else (if leb_ℤ n (pos 0) then default_top_candidates else n))
  candidates-once n = ground arith

  -- A negative number of candidates is 0 after the defaults, 0 is 10, and a positive one stays.
  -- Defaults applied a second time change that field alone: where the number was negative, the 0
  -- of the first time becomes 10; else every field stays as the first time left it.
  pub apply_defaults-again :
      IsFolding go
      → (pc : ProxyPortConfig)
      → ((apply_defaults go pc).auto_ping_top_candidates ≡ (
          if ltb_ℤ pc.auto_ping_top_candidates (pos 0)
          then pos 0
          else (if leb_ℤ pc.auto_ping_top_candidates (pos 0)
              then default_top_candidates
              else pc.auto_ping_top_candidates)))
        × (apply_defaults go (apply_defaults go pc) ≡ record (apply_defaults go pc) {
          auto_ping_top_candidates =
              if ltb_ℤ pc.auto_ping_top_candidates (pos 0)
              then default_top_candidates
              else (apply_defaults go pc).auto_ping_top_candidates;
        })
  unfolding apply_defaults
  apply_defaults-again f pc = (
    candidates-once pc.auto_ping_top_candidates,
    rw
        (
          type-again f pc.port_type,
          list-again pc.allow_list,
          id-again pc.id pc.name,
          mode-again f pc.auto_ping_full_scan_mode,
          positive-again (pos 10) pc.auto_ping_interval_minutes refl,
          candidates-again pc.auto_ping_top_candidates,
          time-again f pc.auto_ping_full_scan_time,
          positive-again (pos 24) pc.auto_ping_full_scan_interval_hours refl,
        )
        refl,
  )

  -- What a port that Validate accepts satisfies.
  pub record IsValid (pc : ProxyPortConfig) : Type 0 where
    pub id_given : pc.id ≢ ""
    pub name_given : pc.name ≢ ""
    pub address :
        (h : String) × (p : String) × (n : ℤ) × (go.split_host_port pc.listen_addr ≡ some (h, p))
        × (go.lookup_port p ≡ some n)
        × (pos 1 ≤ℤ n)
        × (n ≤ℤ pos 65535)
    pub known :
        (pc.port_type ≡ "http")
        ⊎ (pc.port_type ≡ "socks5")
        ⊎ (pc.port_type ≡ "socks4")
        ⊎ (pc.port_type ≡ "mixed")
    pub interval : pos 1 ≤ℤ pc.auto_ping_interval_minutes
    pub candidates : pos 0 ≤ℤ pc.auto_ping_top_candidates

  known_type :
      (t : String)
      → is_type t ≡ true
      → (t ≡ "http") ⊎ (t ≡ "socks5") ⊎ (t ≡ "socks4") ⊎ (t ≡ "mixed")
  known_type t h =
      ground (arith, eq_iff t "http", eq_iff t "socks5", eq_iff t "socks4", eq_iff t "mixed")

  check_listen_addr_lem :
      (a : String)
      → check_listen_addr go a ≡ none
      → (h : String) × (p : String) × (n : ℤ) × (go.split_host_port a ≡ some (h, p))
        × (go.lookup_port p ≡ some n)
        × (pos 1 ≤ℤ n)
        × (n ≤ℤ pos 65535)
  check_listen_addr_lem a e = elim (Option-cases (go.split_host_port a)) [
    | inl bad ↦ absurd (ground (arith, bad))
    | inr ((h, p), good) ↦ elim (Option-cases (go.lookup_port p)) [
      | inl none_found ↦ absurd (ground (arith, good, none_found))
      | inr (n, found) ↦
          (h, p, n, good, found, ground (arith, good, found), ground (arith, good, found))
    ]
  ]

  check_port-IsValid : (pc : ProxyPortConfig) → check_port go pc ≡ none → IsValid pc
  unfolding check_port
  check_port-IsValid pc h =
      let address = check_listen_addr go pc.listen_addr in
      record {
        id_given = ground (arith, eq_iff pc.id "");
        name_given = ground (arith, eq_iff pc.name "");
        address = check_listen_addr_lem pc.listen_addr (ground (arith, Option-cases address));
        known = known_type pc.port_type (ground (arith, Option-cases address));
        interval = ground (arith, Option-cases address);
        candidates = ground (arith, Option-cases address);
      }

  -- A port that Validate accepts has, with the defaults it was given, an id and a name, a listen
  -- address with a port from 1 to 65535, one of the four types, an interval of at least one
  -- minute and no negative number of candidates.
  pub validate-IsValid :
      (pc : ProxyPortConfig) → (validate go pc).1 ≡ none → IsValid (validate go pc).0
  validate-IsValid pc h = check_port-IsValid (apply_defaults go pc) h
