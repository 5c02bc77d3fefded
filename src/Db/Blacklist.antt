-- ===== src/Db/Blacklist.antt =====
-- internal/db/blacklist_repository.go over the table of internal/db/db.go: each statement as what
-- it does to the rows, in the order of their ids. A server_id that is NULL is `none`; NULL equals
-- nothing, so the unique pair of name and server never holds two rows apart where it is NULL.
-- Which of several matching rows a query without an order gives is left to SQLite: `first`.
-- strings.ToLower is a parameter.
pub mod Rows
pub mod Ban
use mcbeproxy.Base.{
  ℕ, ◌+◌, Bool, true, false, not, ◌&&◌, ◌||◌, String, str_eq, List, [], ◌∷◌, Option, none, some,
  ltb, if◌then◌else◌, length,
}
use mcbeproxy.Acl.{BlacklistEntry, WhitelistEntry, AclSettings, Reply, row, no_rows, Repositories}

pub record Row : Type 0 where
  pub row_name : String
  pub name_lower : String
  pub row_enabled : Bool
  pub row_reason : String
  pub row_server : Option String
  pub row_added_at : ℕ
  pub row_expires_at : Option ℕ
  pub row_added_by : String

-- The entry that Create is given.
pub record NewEntry : Type 0 where
  pub new_name : String
  pub new_enabled : Bool
  pub new_reason : String
  pub new_server : String
  pub new_added_at : ℕ
  pub new_expires_at : Option ℕ
  pub new_added_by : String

-- scanBlacklistEntry.
abbrev pub or_blank : Option String → String
or_blank none = ""
or_blank (some s) = s

abbrev pub scan_entry : Row → BlacklistEntry
scan_entry r = record {
  display_name = r.row_name;
  enabled = r.row_enabled;
  entry_reason = r.row_reason;
  server_id = or_blank r.row_server;
  expires_at = r.row_expires_at;
}

-- The WHERE clause on the server: equal, or both empty.
abbrev pub on_server : String → Option String → Bool
on_server server none = str_eq server ""
on_server server (some s) = str_eq s server

abbrev pub is_match : String → String → Row → Bool
is_match lower server r = str_eq r.name_lower lower && on_server server r.row_server

unfoldable pub rows_at : String → String → List Row → List Row
rows_at lower server [] = []
rows_at lower server (r ∷ rows) =
    let rest = rows_at lower server rows in if is_match lower server r then r ∷ rest else rest

-- A conflict on (display_name_lower, server_id).
abbrev pub same_server : Option String → Option String → Bool
same_server none _ = false
same_server (some s) none = false
same_server (some s) (some t) = str_eq s t

abbrev pub is_conflict : String → Option String → Row → Bool
is_conflict lower server r = str_eq r.name_lower lower && same_server r.row_server server

-- `entry.ServerID` as it is stored.
abbrev pub null_if_empty : String → Option String
null_if_empty s = if str_eq s "" then none else some s

-- DO UPDATE SET.
abbrev pub update_row : NewEntry → Row → Row
update_row e r = record r {
  row_enabled = e.new_enabled;
  row_reason = e.new_reason;
  row_added_at = e.new_added_at;
  row_expires_at = e.new_expires_at;
  row_added_by = e.new_added_by;
}

-- The enabled flag of the matching rows.
unfoldable pub set_enabled : Bool → String → String → List Row → List Row
set_enabled enabled lower server [] = []
set_enabled enabled lower server (r ∷ rows) =
    let rest = set_enabled enabled lower server rows in
    if is_match lower server r then record r { row_enabled = enabled } ∷ rest else r ∷ rest

unfoldable pub delete_rows : (Row → Bool) → List Row → List Row
delete_rows test [] = []
delete_rows test (r ∷ rows) = let rest = delete_rows test rows in if test r then rest else r ∷ rest

-- `expires_at IS NOT NULL AND expires_at < ?`
abbrev pub has_expired : ℕ → Row → Bool
has_expired now r = elim r.row_expires_at [ none ↦ false | some t ↦ ltb t now ]

-- DeleteExpired.
abbrev pub delete_expired : ℕ → List Row → List Row
delete_expired now rows = delete_rows (has_expired now) rows

abbrev pub has_rows : List Row → Bool
has_rows [] = false
has_rows (r ∷ rows) = true

module _ (to_lower : String → String) where
  abbrev pub new_row : NewEntry → Row
  new_row e = record {
    row_name = e.new_name;
    name_lower = to_lower e.new_name;
    row_enabled = e.new_enabled;
    row_reason = e.new_reason;
    row_server = null_if_empty e.new_server;
    row_added_at = e.new_added_at;
    row_expires_at = e.new_expires_at;
    row_added_by = e.new_added_by;
  }

  -- Create: an insert, or the update of the row it is in conflict with.
  unfoldable pub create_entry : NewEntry → List Row → List Row
  create_entry e [] = new_row e ∷ []
  create_entry e (r ∷ rows) =
      let rest = create_entry e rows in
      if is_conflict (to_lower e.new_name) (null_if_empty e.new_server) r
      then update_row e r ∷ rows
      else r ∷ rest

  -- UpdateEnabled and Delete; `false` is sql.ErrNoRows.
  unfoldable pub update_enabled : String → String → Bool → List Row → List Row × Bool
  update_enabled name server enabled rows = (
    set_enabled enabled (to_lower name) server rows,
    has_rows (rows_at (to_lower name) server rows),
  )

  unfoldable pub delete_entry : String → String → List Row → List Row × Bool
  delete_entry name server rows = (
    delete_rows (is_match (to_lower name) server) rows,
    has_rows (rows_at (to_lower name) server rows),
  )

  module _ (first : List Row → Option Row) where
    -- GetByName.
    unfoldable pub get_by_name : String → String → List Row → Reply BlacklistEntry
    get_by_name name server rows = elim (first (rows_at (to_lower name) server rows)) [
      | none ↦ no_rows
      | some r ↦ row (scan_entry r)
    ]

    -- The repositories of the access control over this table.
    abbrev pub repositories :
        List Row
        → (String → String → Reply WhitelistEntry)
        → (String → Reply AclSettings)
        → Repositories
    repositories rows whitelist settings = record {
      blacklist = λ name server. get_by_name name server rows;
      whitelist = whitelist;
      settings = settings;
    }
