-- ===== src/Db/Blacklist/Ban.antt =====
-- A ban that internal/db/blacklist_repository.go stores is one that internal/acl/acl_manager.go
-- finds.
use mcbeproxy.Base.{
  ℕ, ◌≤◌, ◌≡◌, refl, not, ◌&&◌, ◌||◌, ◌∙◌, ap, Bool, true, false, String, str_eq, List, [], ◌∷◌,
  Option, none, some, arith, length,
}
use mcbeproxy.Acl.{
  WhitelistEntry, AclSettings, Reply, is_blacklisted, is_whitelisted, is_blacklisted_by_entry, bans,
  load_settings, check_access_full, Repositories,
}
use mcbeproxy.Acl.Decision.{is_deny_blacklist, check_access_full-decides}
use mcbeproxy.Db.Blacklist.{Row, NewEntry, rows_at, create_entry, get_by_name, repositories}
use mcbeproxy.Db.Blacklist.Rows.{stored_name, rows_at-create_entry, rows_at-create_named}

module _ (to_lower : String → String) (first : List Row → Option Row)
    (equal_fold : String → String → Bool) where
  -- After an enabled entry that never expires is created, the row of its name on its server bans
  -- exactly a player whose name folds to the name that is stored.
  get_by_name-create_entry :
      (e : NewEntry) (rows : List Row) (player : String) (now : ℕ)
      → ((r : Row) → first (r ∷ []) ≡ some r)
      → to_lower player ≡ to_lower e.new_name
      → str_eq e.new_server "" ≡ false
      → length (rows_at (to_lower e.new_name) e.new_server rows) ≤ 1
      → e.new_enabled ≡ true
      → e.new_expires_at ≡ none
      → bans equal_fold now player
          (get_by_name to_lower first player e.new_server (create_entry to_lower e rows))
        ≡ equal_fold player (stored_name e (rows_at (to_lower e.new_name) e.new_server rows))
  unfolding get_by_name is_blacklisted_by_entry
  get_by_name-create_entry e rows player now pick same h l on never =
      let (r, u, v) = rows_at-create_entry to_lower e rows h l in
      let found : first (rows_at (to_lower player) e.new_server (create_entry to_lower e rows))
          ≡ some r =
        ap (λ (n : String). first (rows_at n e.new_server (create_entry to_lower e rows))) same
        ∙ ap first u
        ∙ pick r in
      let enabled : r.row_enabled ≡ true = v.2 ∙ on in
      let lasting : r.row_expires_at ≡ none = v.3 ∙ never in
      rw (get_by_name, found, is_blacklisted_by_entry, enabled, lasting)
        (ap (equal_fold player) v.0)

  get_by_name-global :
      (e : NewEntry) (rows : List Row) (player : String)
      → str_eq e.new_server "" ≡ false
      → get_by_name to_lower first player "" (create_entry to_lower e rows)
        ≡ get_by_name to_lower first player "" rows
  unfolding get_by_name
  get_by_name-global e rows player h =
      rw (get_by_name, rows_at-create_named to_lower (to_lower player) e rows h) refl

  is_blacklisted-or :
      (repos : Repositories) (player server : String) (now : ℕ)
      → str_eq server "" ≡ false
      → (is_blacklisted equal_fold repos now player server).0 ≡ (
          bans equal_fold now player (repos.blacklist player "")
          || bans equal_fold now player (repos.blacklist player server))
  unfolding is_blacklisted
  is_blacklisted-or repos player server now h = ground (arith, h)

  -- After an enabled entry that never expires is created for a named server, where the name had
  -- one row at most there, CheckAccessFull denies a player of the same lower case there as by
  -- blacklist, where the loaded settings have the blacklist on, exactly if a global entry banned
  -- the player before or the name folds to the one that is stored: that of the row that was there,
  -- else that of the entry; otherwise the player is allowed as the whitelist says. A query that one
  -- row matches gives that row.
  pub create_entry-denies :
      (trim_space : String → String) (e : NewEntry) (rows : List Row)
      (whitelist : String → String → Reply WhitelistEntry) (settings : String → Reply AclSettings)
      (player : String) (now : ℕ)
      → ((r : Row) → first (r ∷ []) ≡ some r)
      → to_lower player ≡ to_lower e.new_name
      → str_eq e.new_server "" ≡ false
      → length (rows_at (to_lower e.new_name) e.new_server rows) ≤ 1
      → e.new_enabled ≡ true
      → e.new_expires_at ≡ none
      → (load_settings
          (repositories to_lower first (create_entry to_lower e rows) whitelist settings)
          e.new_server).1.blacklist_enabled
        ≡ true
      → (is_deny_blacklist
            (check_access_full equal_fold trim_space
              (repositories to_lower first (create_entry to_lower e rows) whitelist settings)
              now
              player
              e.new_server).0.deny_type
          ≡ (bans equal_fold now player (get_by_name to_lower first player "" rows)
              || equal_fold player
                  (stored_name e (rows_at (to_lower e.new_name) e.new_server rows))))
        × ((check_access_full equal_fold trim_space
              (repositories to_lower first (create_entry to_lower e rows) whitelist settings)
              now
              player
              e.new_server).0.allowed
            ≡ (not (
                  bans equal_fold now player (get_by_name to_lower first player "" rows)
                  || equal_fold player
                      (stored_name e (rows_at (to_lower e.new_name) e.new_server rows)))
                && (not
                      (load_settings
                        (repositories to_lower first
                          (create_entry to_lower e rows)
                          whitelist
                          settings)
                        e.new_server).1.whitelist_enabled
                    || is_whitelisted equal_fold
                        (repositories to_lower first
                          (create_entry to_lower e rows)
                          whitelist
                          settings)
                        now
                        player
                        e.new_server)))
  create_entry-denies trim_space e rows whitelist settings player now pick same h l on never set =
      let repos = repositories to_lower first (create_entry to_lower e rows) whitelist settings in
      let banned = get_by_name-create_entry e rows player now pick same h l on never in
      let global = get_by_name-global e rows player h in
      let listed = is_blacklisted-or repos player e.new_server now h in
      let decided = check_access_full-decides equal_fold trim_space repos now player e.new_server in
      (
        decided.1 ∙ rw (set, listed, global, banned) refl,
        decided.0 ∙ rw (set, listed, global, banned) refl,
      )
