-- ===== src/Acl/Failure.antt =====
-- What internal/acl/acl_manager.go does when a repository fails.
use mcbeproxy.Base.{
  ℕ, ◌≡◌, refl, Bool, true, false, not, ◌&&◌, ◌||◌, ◌⊎◌, String, Option, none, some, arith,
  Bool-cases, inl, inr, eq_iff,
}
use mcbeproxy.Acl.{
  AclSettings, Repositories, Reply, row, no_rows, failure, BlacklistEntry, load_global,
  load_settings, track, is_blacklisted, is_whitelisted, is_blacklisted_by_entry, check_whitelist,
  check_blacklist, check_access_full, check_access_with_error, check_access,
}
use mcbeproxy.Acl.Decision.{check_access_full-decides}

-- Whether an error was noted.
abbrev pub is_noted : Option ℕ → Bool
is_noted none = false
is_noted (some e) = true

is_noted-track :
    {A : Type 0} (last : Option ℕ) (r : Reply A)
    → is_noted last ≡ true
    → is_noted (track last r) ≡ true
is_noted-track last (row a) h = h
is_noted-track last no_rows h = h
is_noted-track last (failure e) h = refl

abbrev pub is_failure : {A : Type 0} → Reply A → Bool
is_failure (failure e) = true
is_failure _ = false

-- No repository fails.
abbrev pub IsReliable : Repositories → Type 0
IsReliable r =
    ((n s : String) → is_failure (r.blacklist n s) ≡ false)
    × ((n s : String) → is_failure (r.whitelist n s) ≡ false)
    × ((s : String) → is_failure (r.settings s) ≡ false)

module _ (equal_fold : String → String → Bool) (trim_space : String → String) where
  check_whitelist-is_noted :
      (r : Repositories) (now : ℕ) (player server_id : String) (s : AclSettings) (last : Option ℕ)
      → is_noted last ≡ true
      → is_noted (check_whitelist equal_fold trim_space r now player server_id s last).1 ≡ true
  unfolding check_whitelist
  check_whitelist-is_noted r now player server_id s last h = ground arith

  check_blacklist-is_noted :
      (r : Repositories) (now : ℕ) (player server_id : String) (s : AclSettings) (last : Option ℕ)
      → is_noted (track last (r.blacklist player "")) ≡ true
      → is_noted (check_blacklist equal_fold trim_space r now player server_id s last).1 ≡ true
  unfolding check_blacklist
  check_blacklist-is_noted r now player server_id s last h = ground (
    arith,
    check_whitelist-is_noted r now player server_id s (track last (r.blacklist player "")),
    check_whitelist-is_noted r now player server_id s
        (track (track last (r.blacklist player "")) (r.blacklist player server_id)),
  )

  load_settings-is_noted :
      (r : Repositories) (server_id : String)
      → is_failure (r.settings server_id) ≡ true
      → is_noted (load_settings r server_id).0 ≡ true
  unfolding load_settings load_global
  load_settings-is_noted r server_id h = ground (arith, eq_iff server_id "")

  full-is_noted :
      (r : Repositories) (now : ℕ) (player server_id : String)
      → (is_noted (load_settings r server_id).0 ≡ true)
        ⊎ (((load_settings r server_id).1.blacklist_enabled ≡ true)
            × (is_failure (r.blacklist player "") ≡ true))
      → is_noted (check_access_full equal_fold trim_space r now player server_id).1 ≡ true
  unfolding check_access_full
  full-is_noted r now player server_id h = ground (
    arith,
    check_whitelist-is_noted r now player server_id (load_settings r server_id).1
        (load_settings r server_id).0,
    check_blacklist-is_noted r now player server_id (load_settings r server_id).1
        (load_settings r server_id).0,
    is_noted-track (load_settings r server_id).0 (r.blacklist player ""),
  )

  -- Fail-open: if the settings of the server or, with the blacklist on, the global blacklist
  -- cannot be read, CheckAccess lets the player in, whatever the other lists say.
  pub check_access-fail_open :
      (r : Repositories) (now : ℕ) (player server_id : String)
      → (is_failure (r.settings server_id) ≡ true)
        ⊎ (((load_settings r server_id).1.blacklist_enabled ≡ true)
            × (is_failure (r.blacklist player "") ≡ true))
      → (check_access equal_fold trim_space r now player server_id).0 ≡ true
  unfolding check_access check_access_with_error
  check_access-fail_open r now player server_id h =
      let failed =
        full-is_noted r now player server_id
          (elim h [ inl e ↦ inl (load_settings-is_noted r server_id e) | inr e ↦ inr e ]) in
      ground (arith, failed)

  check_whitelist-reliable :
      (r : Repositories) (now : ℕ) (player server_id : String) (s : AclSettings)
      → IsReliable r
      → (check_whitelist equal_fold trim_space r now player server_id s none).1 ≡ none
  unfolding check_whitelist
  check_whitelist-reliable r now player server_id s h =
      ground (arith, h.1 player "", h.1 player server_id)

  check_blacklist-reliable :
      (r : Repositories) (now : ℕ) (player server_id : String) (s : AclSettings)
      → IsReliable r
      → (check_blacklist equal_fold trim_space r now player server_id s none).1 ≡ none
  unfolding check_blacklist
  check_blacklist-reliable r now player server_id s h = ground (
    arith,
    h.0 player "",
    h.0 player server_id,
    check_whitelist-reliable r now player server_id s h,
  )

  load_settings-reliable :
      (r : Repositories) (server_id : String) → IsReliable r → (load_settings r server_id).0 ≡ none
  unfolding load_settings load_global
  load_settings-reliable r server_id h = ground (arith, h.2 "", h.2 server_id)

  full-reliable :
      (r : Repositories) (now : ℕ) (player server_id : String)
      → IsReliable r
      → (check_access_full equal_fold trim_space r now player server_id).1 ≡ none
  unfolding check_access_full
  full-reliable r now player server_id h =
      elim (Bool-cases (load_settings r server_id).1.blacklist_enabled) [
        | inl on ↦
            (rw (check_access_full, on, load_settings-reliable r server_id h)
              (check_blacklist-reliable r now player server_id (load_settings r server_id).1 h))
        | inr off ↦
            (rw (check_access_full, off, load_settings-reliable r server_id h)
              (check_whitelist-reliable r now player server_id (load_settings r server_id).1 h))
      ]

  -- Where no repository fails, CheckAccess allows exactly a player whom IsBlacklisted does not find
  -- while the loaded settings have the blacklist on, and whom IsWhitelisted finds if they have the
  -- whitelist on.
  pub check_access-decides :
      (r : Repositories) (now : ℕ) (player server_id : String)
      → IsReliable r
      → (check_access equal_fold trim_space r now player server_id).0
        ≡ not (
            (load_settings r server_id).1.blacklist_enabled
            && (is_blacklisted equal_fold r now player server_id).0)
          && (not (load_settings r server_id).1.whitelist_enabled
              || is_whitelisted equal_fold r now player server_id)
  unfolding check_access check_access_with_error
  check_access-decides r now player server_id h = ground (
    arith,
    full-reliable r now player server_id h,
    (check_access_full-decides equal_fold trim_space r now player server_id).0,
  )

  -- CheckAccessFull itself does not fail open: if both settings lookups fail and the global
  -- blacklist has the player, its decision denies while it returns an error.
  pub check_access_full-denies :
      (r : Repositories) (now : ℕ) (player server_id : String) (e e' : ℕ) (b : BlacklistEntry)
      → r.settings server_id ≡ failure e
      → r.settings "" ≡ failure e'
      → r.blacklist player "" ≡ row b
      → is_blacklisted_by_entry equal_fold now player b ≡ true
      → ((check_access_full equal_fold trim_space r now player server_id).0.allowed ≡ false)
        × (is_noted (check_access_full equal_fold trim_space r now player server_id).1 ≡ true)
  unfolding check_access_full check_blacklist load_settings load_global
  check_access_full-denies r now player server_id e e' b hs hg hb m = ground arith
