-- ===== src/Acl/Decision.antt =====
-- CheckAccessFull decides what the two lists and the settings say.
use mcbeproxy.Base.{
  ℕ, ◌≡◌, Bool, true, false, not, ◌&&◌, ◌||◌, String, Option, arith, Bool-cases, inl, inr,
}
use mcbeproxy.Acl.{
  DenyType, deny_blacklist, Repositories, load_settings, is_blacklisted, is_whitelisted,
  check_whitelist, check_blacklist, check_access_full, AclSettings, track,
}

abbrev pub is_deny_blacklist : DenyType → Bool
is_deny_blacklist deny_blacklist = true
is_deny_blacklist _ = false

module _ (equal_fold : String → String → Bool) (trim_space : String → String) where
  allowed-check_whitelist :
      (r : Repositories) (now : ℕ) (player server_id : String) (s : AclSettings) (last : Option ℕ)
      → (check_whitelist equal_fold trim_space r now player server_id s last).0.allowed
        ≡ not s.whitelist_enabled || is_whitelisted equal_fold r now player server_id
  unfolding check_whitelist is_whitelisted
  allowed-check_whitelist r now player server_id s last = ground arith

  type-check_whitelist :
      (r : Repositories) (now : ℕ) (player server_id : String) (s : AclSettings) (last : Option ℕ)
      → is_deny_blacklist
          (check_whitelist equal_fold trim_space r now player server_id s last).0.deny_type
        ≡ false
  unfolding check_whitelist
  type-check_whitelist r now player server_id s last = ground arith

  allowed-check_blacklist :
      (r : Repositories) (now : ℕ) (player server_id : String) (s : AclSettings) (last : Option ℕ)
      → (check_blacklist equal_fold trim_space r now player server_id s last).0.allowed
        ≡ not (is_blacklisted equal_fold r now player server_id).0
          && (not s.whitelist_enabled || is_whitelisted equal_fold r now player server_id)
  unfolding check_blacklist is_blacklisted
  allowed-check_blacklist r now player server_id s last = ground (
    arith,
    allowed-check_whitelist r now player server_id s (track last (r.blacklist player "")),
    allowed-check_whitelist r now player server_id s
        (track (track last (r.blacklist player "")) (r.blacklist player server_id)),
  )

  type-check_blacklist :
      (r : Repositories) (now : ℕ) (player server_id : String) (s : AclSettings) (last : Option ℕ)
      → is_deny_blacklist
          (check_blacklist equal_fold trim_space r now player server_id s last).0.deny_type
        ≡ (is_blacklisted equal_fold r now player server_id).0
  unfolding check_blacklist is_blacklisted
  type-check_blacklist r now player server_id s last = ground (
    arith,
    type-check_whitelist r now player server_id s (track last (r.blacklist player "")),
    type-check_whitelist r now player server_id s
        (track (track last (r.blacklist player "")) (r.blacklist player server_id)),
  )

  -- Whatever the repositories reply, failures included, CheckAccessFull's decision allows exactly a
  -- player whom IsBlacklisted does not find, or any where the loaded settings switch the blacklist
  -- off, and whom IsWhitelisted finds, or any where they do not switch the whitelist on; and it
  -- denies as by blacklist exactly whom IsBlacklisted finds while the blacklist is on.
  pub check_access_full-decides :
      (r : Repositories) (now : ℕ) (player server_id : String)
      → ((check_access_full equal_fold trim_space r now player server_id).0.allowed
          ≡ not (
              (load_settings r server_id).1.blacklist_enabled
              && (is_blacklisted equal_fold r now player server_id).0)
            && (not (load_settings r server_id).1.whitelist_enabled
                || is_whitelisted equal_fold r now player server_id))
        × (is_deny_blacklist
              (check_access_full equal_fold trim_space r now player server_id).0.deny_type
            ≡ (load_settings r server_id).1.blacklist_enabled
              && (is_blacklisted equal_fold r now player server_id).0)
  unfolding check_access_full
  check_access_full-decides r now player server_id =
      elim (Bool-cases (load_settings r server_id).1.blacklist_enabled) [
        | inl on ↦
            rw (check_access_full, on)
              (
                allowed-check_blacklist r now player server_id _ _,
                type-check_blacklist r now player server_id _ _,
              )
        | inr off ↦
            rw (check_access_full, off)
              (
                allowed-check_whitelist r now player server_id _ _,
                type-check_whitelist r now player server_id _ _,
              )
      ]
