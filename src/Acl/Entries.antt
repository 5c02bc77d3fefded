-- ===== src/Acl/Entries.antt =====
-- The pure functions of internal/acl/acl_manager.go on lists of entries, and CheckAccessFull
-- against CheckAccessWithEntries.
use mcbeproxy.Base.{
  ℕ, ◌≡◌, refl, sym, ◌∙◌, Bool, true, false, not, ◌&&◌, ◌||◌, String, str_eq, List, [], ◌∷◌, Option,
  none, some, arith, if◌then◌else◌,
}
use mcbeproxy.Acl.{
  BlacklistEntry, WhitelistEntry, AclSettings, Repositories, is_expired, is_blacklisted_by_entry,
  is_whitelisted_by_entry, bans, admits, is_blacklisted, is_whitelisted, load_settings,
  check_access_full,
}
use mcbeproxy.Acl.Decision.{check_access_full-decides}

-- filterActiveBlacklistEntries, on entries that are not nil.
unfoldable pub filter_active : ℕ → List BlacklistEntry → List BlacklistEntry
filter_active now [] = []
filter_active now (e ∷ es) =
    let rest = filter_active now es in if is_expired now e then rest else e ∷ rest

module _ (equal_fold : String → String → Bool) where
  unfoldable pub find_blacklist_entry : ℕ → String → List BlacklistEntry → Option BlacklistEntry
  find_blacklist_entry now player [] = none
  find_blacklist_entry now player (e ∷ es) =
      let rest = find_blacklist_entry now player es in
      if is_blacklisted_by_entry equal_fold now player e then some e else rest

  unfoldable pub find_whitelist_entry : ℕ → String → List WhitelistEntry → Option WhitelistEntry
  find_whitelist_entry now player [] = none
  find_whitelist_entry now player (e ∷ es) =
      let rest = find_whitelist_entry now player es in
      if is_whitelisted_by_entry equal_fold now player e then some e else rest

  -- The loop over one blacklist, with the reason that it returns.
  unfoldable pub ban_reason : ℕ → String → List BlacklistEntry → Option String
  ban_reason now player [] = none
  ban_reason now player (e ∷ es) =
      let rest = ban_reason now player es in
      if is_blacklisted_by_entry equal_fold now player e
      then some (if str_eq e.entry_reason "" then "你已被封禁" else e.entry_reason)
      else rest

  -- The loop over one whitelist.
  unfoldable pub is_listed : ℕ → String → List WhitelistEntry → Bool
  is_listed now player [] = false
  is_listed now player (e ∷ es) =
      let rest = is_listed now player es in
      if is_whitelisted_by_entry equal_fold now player e then true else rest

  -- Steps 3 to 6 of CheckAccessWithEntries.
  unfoldable pub check_whitelists :
      ℕ → String → List WhitelistEntry → List WhitelistEntry → Option AclSettings → Bool × String
  check_whitelists now player global server none = (true, "")
  check_whitelists now player global server (some s) =
      if not s.whitelist_enabled || (is_listed now player global || is_listed now player server)
      then (true, "")
      else (false, if str_eq s.whitelist_message "" then "你不在白名单中" else s.whitelist_message)

  -- `settings == nil || settings.BlacklistEnabled`
  abbrev pub blacklist_on : Option AclSettings → Bool
  blacklist_on none = true
  blacklist_on (some s) = s.blacklist_enabled

  -- CheckAccessWithEntries.
  unfoldable pub check_access_with_entries :
      ℕ
      → String
      → List BlacklistEntry
      → List BlacklistEntry
      → List WhitelistEntry
      → List WhitelistEntry
      → Option AclSettings
      → Bool × String
  check_access_with_entries now player global_bl server_bl global_wl server_wl settings =
      let after = check_whitelists now player global_wl server_wl settings in
      if blacklist_on settings
      then (elim (ban_reason now player global_bl) [
        | some reason ↦ (false, reason)
        | none ↦ (elim (ban_reason now player server_bl) [
          | some reason ↦ (false, reason)
          | none ↦ after
        ])
      ])
      else after

  abbrev pub is_some : {A : Type 0} → Option A → Bool
  is_some none = false
  is_some (some a) = true

  ban_reason-find :
      (now : ℕ) (player : String) (es : List BlacklistEntry)
      → is_some (ban_reason now player es) ≡ is_some (find_blacklist_entry now player es)
  unfolding ban_reason find_blacklist_entry
  ban_reason-find now player [] = refl
  ban_reason-find now player (e ∷ es) = ground (arith, ban_reason-find now player es)

  is_listed-find :
      (now : ℕ) (player : String) (es : List WhitelistEntry)
      → is_listed now player es ≡ is_some (find_whitelist_entry now player es)
  unfolding is_listed find_whitelist_entry
  is_listed-find now player [] = refl
  is_listed-find now player (e ∷ es) = ground (arith, is_listed-find now player es)

  check_access_with_entries-allowed :
      (now : ℕ) (player : String) (gb sb : List BlacklistEntry) (gw sw : List WhitelistEntry)
      (s : AclSettings)
      → (check_access_with_entries now player gb sb gw sw (some s)).0
        ≡ not (
            s.blacklist_enabled
            && (is_some (find_blacklist_entry now player gb)
                || is_some (find_blacklist_entry now player sb)))
          && (not s.whitelist_enabled
              || (is_some (find_whitelist_entry now player gw)
                  || is_some (find_whitelist_entry now player sw)))
  unfolding check_access_with_entries check_whitelists
  check_access_with_entries-allowed now player gb sb gw sw s = ground (
    arith,
    ban_reason-find now player gb,
    ban_reason-find now player sb,
    is_listed-find now player gw,
    is_listed-find now player sw,
  )

  -- Where the repositories' replies about a player on a named server ban or admit exactly as the
  -- first match in four lists of entries does, CheckAccessFull allows the player exactly if
  -- CheckAccessWithEntries does with these lists and the loaded settings.
  pub check_access_full-entries :
      (trim_space : String → String) (r : Repositories) (now : ℕ) (player server_id : String)
      (gb sb : List BlacklistEntry) (gw sw : List WhitelistEntry)
      → str_eq server_id "" ≡ false
      → bans equal_fold now player (r.blacklist player "")
        ≡ is_some (find_blacklist_entry now player gb)
      → bans equal_fold now player (r.blacklist player server_id)
        ≡ is_some (find_blacklist_entry now player sb)
      → admits equal_fold now player (r.whitelist player "")
        ≡ is_some (find_whitelist_entry now player gw)
      → admits equal_fold now player (r.whitelist player server_id)
        ≡ is_some (find_whitelist_entry now player sw)
      → (check_access_full equal_fold trim_space r now player server_id).0.allowed
        ≡ (check_access_with_entries now player gb sb gw sw (some (load_settings r server_id).1)).0
  unfolding is_blacklisted is_whitelisted
  check_access_full-entries trim_space r now player server_id gb sb gw sw named hgb hsb hgw hsw =
      (check_access_full-decides equal_fold trim_space r now player server_id).0
      ∙ lists
      ∙ sym (check_access_with_entries-allowed now player gb sb gw sw (load_settings r server_id).1)
    where
      s : AclSettings
      s = (load_settings r server_id).1

      banned :
          (is_blacklisted equal_fold r now player server_id).0
          ≡ is_some (find_blacklist_entry now player gb)
            || is_some (find_blacklist_entry now player sb)
      banned = ground (arith, hgb, hsb, named)

      listed :
          is_whitelisted equal_fold r now player server_id
          ≡ is_some (find_whitelist_entry now player gw)
            || is_some (find_whitelist_entry now player sw)
      listed = ground (arith, hgw, hsw, named)

      lists :
          not (s.blacklist_enabled && (is_blacklisted equal_fold r now player server_id).0)
            && (not s.whitelist_enabled || is_whitelisted equal_fold r now player server_id)
          ≡ not (
              s.blacklist_enabled
              && (is_some (find_blacklist_entry now player gb)
                  || is_some (find_blacklist_entry now player sb)))
            && (not s.whitelist_enabled
                || (is_some (find_whitelist_entry now player gw)
                    || is_some (find_whitelist_entry now player sw)))
      lists = rw (banned, listed) refl
