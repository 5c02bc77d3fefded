-- ===== src/Acl.antt =====
-- internal/acl/acl_manager.go, with the entries and settings of internal/db/acl_models.go: who
-- may join a server. A repository is a function from its arguments to its reply, since the
-- database is not part of this code; strings.EqualFold and strings.TrimSpace are parameters, and
-- `now` is the time that every check of one call reads.
pub mod Decision
pub mod Entries
pub mod Failure
pub mod Tests
use mcbeproxy.Base.{
  ℕ, Bool, true, false, not, ◌&&◌, ◌||◌, String, str_eq, List, [], ◌∷◌, Option, none, some, ltb,
  if◌then◌else◌,
}

-- DenyType.
pub data DenyType : Type 0 where
  deny_none : DenyType
  deny_blacklist : DenyType
  deny_whitelist : DenyType

pub record AccessDecision : Type 0 where
  pub allowed : Bool
  pub deny_type : DenyType
  pub reason : String
  pub detail : String

-- BlacklistEntry, as far as the checks read it; WhitelistEntry has the same fields.
pub record BlacklistEntry : Type 0 where
  pub display_name : String
  pub enabled : Bool
  pub entry_reason : String
  pub server_id : String
  pub expires_at : Option ℕ

abbrev pub WhitelistEntry : Type 0
WhitelistEntry = BlacklistEntry

pub record AclSettings : Type 0 where
  pub blacklist_enabled : Bool
  pub whitelist_enabled : Bool
  pub default_message : String
  pub whitelist_message : String

abbrev pub default_acl_settings : AclSettings
default_acl_settings = record {
  blacklist_enabled = true;
  whitelist_enabled = false;
  default_message = "你已被封禁";
  whitelist_message = "你不在白名单中";
}

-- A repository's reply: a row, sql.ErrNoRows, or another error.
pub data Reply (A : Type 0) : Type 0 where
  row : A → Reply A
  no_rows : Reply A
  failure : ℕ → Reply A

-- The repositories during one call.
pub record Repositories : Type 0 where
  pub blacklist : String → String → Reply BlacklistEntry
  pub whitelist : String → String → Reply WhitelistEntry
  pub settings : String → Reply AclSettings

-- IsExpired: time.Now().After(*ExpiresAt).
abbrev pub is_expired : ℕ → BlacklistEntry → Bool
is_expired now e = elim e.expires_at [ none ↦ false | some t ↦ ltb t now ]

-- `if err != nil && err != ErrNotFound { lastErr = err }`
abbrev pub track : {A : Type 0} → Option ℕ → Reply A → Option ℕ
track last (failure e) = some e
track last _ = last

-- loadSettings, with the error it notes: the server's settings, or the global ones, or the
-- default. It never gives nil.
unfoldable pub load_global : Repositories → Option ℕ → Option ℕ × AclSettings
load_global r last = elim (r.settings "") [
  | row s ↦ (last, s)
  | no_rows ↦ (last, default_acl_settings)
  | failure e ↦ (some e, default_acl_settings)
]

unfoldable pub load_settings : Repositories → String → Option ℕ × AclSettings
load_settings r server_id =
    let global = load_global r in
    if str_eq server_id "" then global none else (elim (r.settings server_id) [
      | row s ↦ (none, s)
      | no_rows ↦ global none
      | failure e ↦ global (some e)
    ])

abbrev entry_of : Reply BlacklistEntry → Option BlacklistEntry
entry_of (row e) = some e
entry_of _ = none

module _ (equal_fold : String → String → Bool) where
  unfoldable pub is_blacklisted_by_entry : ℕ → String → BlacklistEntry → Bool
  is_blacklisted_by_entry now player e =
      e.enabled && not (is_expired now e) && equal_fold player e.display_name

  unfoldable pub is_whitelisted_by_entry : ℕ → String → WhitelistEntry → Bool
  is_whitelisted_by_entry now player e =
      e.enabled && not (is_expired now e) && equal_fold player e.display_name

  -- `err == nil && IsBlacklistedByEntry(playerName, entry)`
  abbrev pub bans : ℕ → String → Reply BlacklistEntry → Bool
  bans now player (row e) = is_blacklisted_by_entry now player e
  bans now player _ = false

  abbrev pub admits : ℕ → String → Reply WhitelistEntry → Bool
  admits now player (row e) = is_whitelisted_by_entry now player e
  admits now player _ = false

  -- IsBlacklisted, after its cleanup.
  unfoldable pub is_blacklisted : Repositories → ℕ → String → String → Bool × Option BlacklistEntry
  is_blacklisted r now player server_id =
      let global = r.blacklist player "" in
      let server = r.blacklist player server_id in
      if bans now player global
      then (true, entry_of global)
      else (if not (str_eq server_id "") && bans now player server
          then (true, entry_of server)
          else (false, none))

  -- IsWhitelisted, after its cleanup.
  unfoldable pub is_whitelisted : Repositories → ℕ → String → String → Bool
  is_whitelisted r now player server_id =
      admits now player (r.whitelist player "")
      || not (str_eq server_id "") && admits now player (r.whitelist player server_id)

  module _ (trim_space : String → String) where
    -- The first of two texts that is not empty.
    abbrev pub or_else : String → String → String
    or_else s t = if str_eq s "" then t else s

    abbrev pub allow : AccessDecision
    allow = record { allowed = true; deny_type = deny_none; reason = ""; detail = "" }

    -- The decisions that deny.
    abbrev pub deny_global : AclSettings → BlacklistEntry → AccessDecision
    deny_global s e = record {
      allowed = false;
      deny_type = deny_blacklist;
      reason = or_else (trim_space s.default_message) "你已被封禁";
      detail = or_else (trim_space e.entry_reason) "无";
    }

    abbrev pub deny_server : AclSettings → BlacklistEntry → AccessDecision
    deny_server s e = record {
      allowed = false;
      deny_type = deny_blacklist;
      reason = or_else (or_else (trim_space e.entry_reason) (trim_space s.default_message)) "你已被封禁";
      detail = e.entry_reason;
    }

    abbrev pub deny_unlisted : AclSettings → AccessDecision
    deny_unlisted s = record {
      allowed = false;
      deny_type = deny_whitelist;
      reason = or_else (trim_space s.whitelist_message) "你不在白名单中";
      detail = "";
    }

    -- Steps 3 and 4 of CheckAccessFull, from the settings and the error noted so far.
    unfoldable pub check_whitelist :
        Repositories → ℕ → String → String → AclSettings → Option ℕ → AccessDecision × Option ℕ
    check_whitelist r now player server_id s last =
        let global = r.whitelist player "" in
        let last1 = track last global in
        let server = r.whitelist player server_id in
        let last2 = track last1 server in
        if not s.whitelist_enabled
        then (allow, last)
        else (if admits now player global
            then (allow, last1)
            else (if str_eq server_id ""
                then (deny_unlisted s, last1)
                else (if admits now player server
                    then (allow, last2)
                    else (deny_unlisted s, last2))))

    -- Steps 1 and 2, with what follows where neither blacklist has the player.
    unfoldable pub check_blacklist :
        Repositories → ℕ → String → String → AclSettings → Option ℕ → AccessDecision × Option ℕ
    check_blacklist r now player server_id s last =
        let last1 = track last (r.blacklist player "") in
        let last2 = track last1 (r.blacklist player server_id) in
        let after1 = check_whitelist r now player server_id s last1 in
        let after2 = check_whitelist r now player server_id s last2 in
        let on_server : AccessDecision × Option ℕ = elim (r.blacklist player server_id) [
          | row e ↦
              (if is_blacklisted_by_entry now player e then (deny_server s e, last2) else after2)
          | _ ↦ after2
        ] in
        let beyond = if str_eq server_id "" then after1 else on_server in
        elim (r.blacklist player "") [
          | row e ↦
              (if is_blacklisted_by_entry now player e then (deny_global s e, last1) else beyond)
          | _ ↦ beyond
        ]

    -- CheckAccessFull, after its cleanup.
    unfoldable pub check_access_full :
        Repositories → ℕ → String → String → AccessDecision × Option ℕ
    check_access_full r now player server_id =
        let (last, s) = load_settings r server_id in
        if s.blacklist_enabled
        then check_blacklist r now player server_id s last
        else check_whitelist r now player server_id s last

    -- CheckAccessWithError: allowed, reason and error.
    unfoldable pub check_access_with_error :
        Repositories → ℕ → String → String → Bool × String × Option ℕ
    check_access_with_error r now player server_id =
        let (d, err) = check_access_full r now player server_id in
        elim err [ none ↦ (d.allowed, d.reason, none) | some e ↦ (true, "", some e) ]

    unfoldable pub check_access : Repositories → ℕ → String → String → Bool × String
    check_access r now player server_id =
        let (a, reason, err) = check_access_with_error r now player server_id in (a, reason)
