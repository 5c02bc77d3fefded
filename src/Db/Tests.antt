-- ===== src/Db/Tests.antt =====
-- The theorems on the blacklist table at a small table; names are compared as they are.
use mcbeproxy.Base.{
  ◌≡◌, refl, Bool, true, false, String, str_eq, List, [], ◌∷◌, Option, none, some, arith,
}
use mcbeproxy.Acl.{
  WhitelistEntry, AclSettings, Reply, no_rows, check_access_full, load_settings, load_global,
  is_blacklisted_by_entry,
}
use mcbeproxy.Acl.Decision.{is_deny_blacklist}
use mcbeproxy.Db.Blacklist.{
  Row, NewEntry, rows_at, create_entry, get_by_name, repositories, new_row,
}
use mcbeproxy.Db.Blacklist.Rows.{create_all, rows_at-create_all}
use mcbeproxy.Db.Blacklist.Ban.{create_entry-denies}

abbrev as_is : String → String
as_is s = s

abbrev head : List Row → Option Row
head [] = none
head (r ∷ rows) = some r

abbrev same : String → String → Bool
same a b = str_eq a b

-- A global entry that is switched off.
abbrev off : Row
off = record {
  row_name = "griefer";
  name_lower = "griefer";
  row_enabled = false;
  row_reason = "";
  row_server = none;
  row_added_at = 1;
  row_expires_at = none;
  row_added_by = "";
}

abbrev ban : String → NewEntry
ban server = record {
  new_name = "griefer";
  new_enabled = true;
  new_reason = "grief";
  new_server = server;
  new_added_at = 5;
  new_expires_at = none;
  new_added_by = "admin";
}

abbrev nobody : String → String → Reply WhitelistEntry
nobody name server = no_rows

abbrev unset : String → Reply AclSettings
unset server = no_rows

-- An entry of the player's name on the server, switched off.
abbrev off_at : String → Row
off_at server = record off { row_server = some server }

abbrev rows : List Row
rows = off ∷ off_at "srv" ∷ []

create_entry-denies_example :
    (is_deny_blacklist
        (check_access_full same as_is
          (repositories as_is head (create_entry as_is (ban "srv") rows) nobody unset)
          10
          "griefer"
          "srv").0.deny_type
      ≡ true)
    × ((check_access_full same as_is
          (repositories as_is head (create_entry as_is (ban "srv") rows) nobody unset)
          10
          "griefer"
          "srv").0.allowed
        ≡ false)
unfolding rows_at load_settings load_global get_by_name is_blacklisted_by_entry
create_entry-denies_example =
    create_entry-denies as_is head same as_is (ban "srv") rows nobody unset "griefer" 10 (λ r. refl)
      refl refl (omega arith) refl refl refl

rows_at-create_all_example :
    rows_at "griefer" "" (create_all as_is (ban "" ∷ ban "" ∷ []) (off ∷ []))
    ≡ off ∷ new_row as_is (ban "") ∷ new_row as_is (ban "") ∷ []
unfolding rows_at
rows_at-create_all_example =
    rows_at-create_all as_is "griefer" (ban "" ∷ ban "" ∷ []) (off ∷ []) (refl, (refl, tt))
      (refl, (refl, tt))
