-- ===== src/Acl/Tests.antt =====
-- The theorems on access control at a small database; names are compared as they are.
use mcbeproxy.Base.{
  ◌≡◌, refl, inl, Bool, true, false, ◌&&◌, String, str_eq, [], ◌∷◌, none, some, arith,
  if◌then◌else◌,
}
use mcbeproxy.Acl.{
  BlacklistEntry, row, no_rows, failure, Repositories, is_blacklisted_by_entry, is_blacklisted,
  is_whitelisted, load_settings, load_global, check_access_full, check_access,
}
use mcbeproxy.Acl.Decision.{is_deny_blacklist, check_access_full-decides}
use mcbeproxy.Acl.Entries.{
  find_blacklist_entry, find_whitelist_entry, check_access_with_entries, check_access_full-entries,
}
use mcbeproxy.Acl.Failure.{
  is_noted, IsReliable, check_access-fail_open, check_access-decides, check_access_full-denies,
}

abbrev same : String → String → Bool
same a b = str_eq a b

abbrev trim : String → String
trim s = s

abbrev griefer : BlacklistEntry
griefer = record {
  display_name = "griefer";
  enabled = true;
  entry_reason = "grief";
  server_id = "";
  expires_at = none;
}

-- One global ban, and no settings but the default ones.
abbrev database : Repositories
database = record {
  blacklist =
      λ name server. if str_eq name "griefer" && str_eq server "" then row griefer else no_rows;
  whitelist = λ name server. no_rows;
  settings = λ server. no_rows;
}

-- The same with settings that cannot be read.
abbrev broken : Repositories
broken = record {
  blacklist = database.blacklist;
  whitelist = database.whitelist;
  settings = λ server. failure 5;
}

database-IsReliable : IsReliable database
database-IsReliable = ((λ name server. ground arith), (λ name server. refl), (λ server. refl))

check_access-decides_example : (check_access same trim database 10 "griefer" "srv").0 ≡ false
unfolding is_blacklisted is_whitelisted is_blacklisted_by_entry load_settings load_global
check_access-decides_example =
    check_access-decides same trim database 10 "griefer" "srv" database-IsReliable

check_access_full-decides_example :
    ((check_access_full same trim database 10 "griefer" "srv").0.allowed ≡ false)
    × (is_deny_blacklist (check_access_full same trim database 10 "griefer" "srv").0.deny_type
        ≡ true)
unfolding is_blacklisted is_whitelisted is_blacklisted_by_entry load_settings load_global
check_access_full-decides_example = check_access_full-decides same trim database 10 "griefer" "srv"

check_access-fail_open_example : (check_access same trim broken 10 "griefer" "srv").0 ≡ true
check_access-fail_open_example =
    check_access-fail_open same trim broken 10 "griefer" "srv" (inl refl)

check_access_full-denies_example :
    ((check_access_full same trim broken 10 "griefer" "srv").0.allowed ≡ false)
    × (is_noted (check_access_full same trim broken 10 "griefer" "srv").1 ≡ true)
unfolding is_blacklisted_by_entry
check_access_full-denies_example =
    check_access_full-denies same trim broken 10 "griefer" "srv" 5 5 griefer refl refl refl refl

check_access_full-entries_example :
    (check_access_full same trim database 10 "griefer" "srv").0.allowed
    ≡ (check_access_with_entries same 10 "griefer"
        (griefer ∷ [])
        []
        []
        []
        (some (load_settings database "srv").1)).0
unfolding is_blacklisted_by_entry find_blacklist_entry find_whitelist_entry
check_access_full-entries_example =
    check_access_full-entries same trim database 10 "griefer" "srv" (griefer ∷ []) [] [] [] refl
      refl refl refl refl
