-- ===== src/Session/Manager.antt =====
-- internal/session/manager.go. Sessions are values, and a method of a Session writes the map at
-- the session's key. What Remove does outside the map is a log: the connections it closed, and
-- the sessions it gave to OnSessionEnd, oldest first. Each method holds its lock in one step,
-- but cleanupIdleSessions is two: one that collects, and then a Remove for each address.
pub mod Steps
pub mod Invariant
pub mod Account
pub mod Idle
use mcbeproxy.Base.{
  ℕ, zero, suc, ◌+◌, Bool, true, false, not, ◌&&◌, String, str_eq, List, [], ◌∷◌, ◌++◌, Option,
  none, some, ltb, if◌then◌else◌, length,
}
use mcbeproxy.Base.Int.{ℤ, pos, ltb_ℤ, sub_ℕ}
use mcbeproxy.Base.Map.{lookup, insert, erase, keys, values, string_key}
use mcbeproxy.Session.Record.{Session, new_session, update_last_seen}

pub record SessionManager : Type 0 where
  pub sessions : List (String × Session)
  pub idle_timeout : ℤ
  pub idle_timeout_func : Option (Session → ℤ)
  pub has_on_session_end : Bool
  pub closed : List ℕ
  pub ended : List Session

abbrev pub new_session_manager : ℤ → SessionManager
new_session_manager idle_timeout = record {
  sessions = [];
  idle_timeout = idle_timeout;
  idle_timeout_func = none;
  has_on_session_end = false;
  closed = [];
  ended = [];
}

abbrev pub set_idle_timeout_func : SessionManager → (Session → ℤ) → SessionManager
set_idle_timeout_func sm fn = record sm { idle_timeout_func = some fn }

unfoldable pub get_idle_timeout : SessionManager → Session → ℤ
get_idle_timeout sm s = elim sm.idle_timeout_func [
  | none ↦ sm.idle_timeout
  | some fn ↦ if ltb_ℤ (pos 0) (fn s) then fn s else sm.idle_timeout
]

-- GetOrCreate, `id` being the new UUID and `now` the time. Both lookups read the same map in
-- one step.
unfoldable pub get_or_create :
    SessionManager → String → String → String → ℕ → SessionManager × Session × Bool
get_or_create sm client_addr server_id id now = elim (lookup client_addr sm.sessions) [
  | some s ↦ (sm, s, false)
  | none ↦
      (let s = new_session id client_addr server_id now in
        (record sm { sessions = insert client_addr s sm.sessions }, s, true))
]

abbrev pub get : SessionManager → String → Option Session
get sm client_addr = lookup client_addr sm.sessions

-- What happens to a session once it is out of the map.
abbrev pub end_session : SessionManager → Session → SessionManager
end_session sm s = record sm {
  closed = elim s.remote_conn [ none ↦ sm.closed | some c ↦ sm.closed ++ (c ∷ []) ];
  ended = if sm.has_on_session_end then sm.ended ++ (s ∷ []) else sm.ended;
}

-- Remove; `false` is its error.
unfoldable pub remove : SessionManager → String → SessionManager × Bool
remove sm client_addr = elim (lookup client_addr sm.sessions) [
  | none ↦ (sm, false)
  | some s ↦ (end_session (record sm { sessions = erase client_addr sm.sessions }) s, true)
]

-- The first address whose session has this id, in the order in which the range loop goes.
unfoldable pub find_id : String → List (String × Session) → Option String
find_id id [] = none
find_id id ((a, s) ∷ m) = if str_eq s.id id then some a else find_id id m

unfoldable pub remove_by_id : SessionManager → String → SessionManager × Bool
remove_by_id sm id = elim (find_id id sm.sessions) [ none ↦ (sm, false) | some a ↦ remove sm a ]

-- The addresses of the sessions that pass a test.
unfoldable pub collect : (Session → Bool) → List (String × Session) → List String
collect test [] = []
collect test ((a, s) ∷ m) = let rest = collect test m in if test s then a ∷ rest else rest

-- `toRemove` under the lock: the map without these addresses, and the sessions they had.
unfoldable pub take_out :
    List String → List (String × Session) → List (String × Session) × List Session
take_out [] m = (m, [])
take_out (a ∷ as') m =
    let rest = take_out as' (erase a m) in
    elim (lookup a m) [ none ↦ rest | some s ↦ (rest.0, s ∷ rest.1) ]

unfoldable pub end_all : SessionManager → List Session → SessionManager
end_all sm [] = sm
end_all sm (s ∷ ss) = end_all (end_session sm s) ss

abbrev remove_where : SessionManager → (Session → Bool) → SessionManager × ℕ
remove_where sm test =
    let to_remove = collect test sm.sessions in
    let taken = take_out to_remove sm.sessions in
    (end_all (record sm { sessions = taken.0 }) taken.1, length to_remove)

unfoldable pub remove_by_player_name : SessionManager → String → SessionManager × ℕ
remove_by_player_name sm display_name =
    let removed = remove_where sm (λ s. str_eq s.display_name display_name) in
    if str_eq display_name "" then (sm, 0) else removed

unfoldable pub remove_by_xuid : SessionManager → String → SessionManager × ℕ
remove_by_xuid sm xuid =
    let removed = remove_where sm (λ s. str_eq s.xuid xuid) in
    if str_eq xuid "" then (sm, 0) else removed

-- A method of the session at this address.
abbrev pub on_session : SessionManager → String → (Session → Session) → SessionManager
on_session sm client_addr method = elim (lookup client_addr sm.sessions) [
  | none ↦ sm
  | some s ↦ record sm { sessions = insert client_addr (method s) sm.sessions }
]

unfoldable pub update_activity : SessionManager → String → ℕ → SessionManager
update_activity sm client_addr now = on_session sm client_addr (λ s. update_last_seen s now)

-- SetRemoteConn; `false` is its error.
unfoldable pub set_remote_conn : SessionManager → String → Option ℕ → SessionManager × Bool
set_remote_conn sm client_addr conn = elim (lookup client_addr sm.sessions) [
  | none ↦ (sm, false)
  | some s ↦ (on_session sm client_addr (λ s. record s { remote_conn = conn }), true)
]

abbrev pub get_all_sessions : SessionManager → List Session
get_all_sessions sm = values sm.sessions

abbrev pub count : SessionManager → ℕ
count sm = length sm.sessions

-- `timeout > 0 && now.Sub(lastSeen) > timeout`
abbrev pub is_idle : ℤ → ℕ → Session → Bool
is_idle timeout now s = ltb_ℤ (pos 0) timeout && ltb_ℤ timeout (sub_ℕ now s.last_seen)

-- The first pass of cleanupIdleSessions.
unfoldable pub collect_idle : SessionManager → ℕ → List String
collect_idle sm now = collect (λ s. is_idle (get_idle_timeout sm s) now s) sm.sessions

-- Its second pass.
unfoldable pub remove_all : SessionManager → List String → SessionManager
remove_all sm [] = sm
remove_all sm (a ∷ as') = remove_all (remove sm a).0 as'

unfoldable pub cleanup_idle_sessions : SessionManager → ℕ → SessionManager
cleanup_idle_sessions sm now = remove_all sm (collect_idle sm now)

unfoldable pub cleanup_now : SessionManager → ℕ → SessionManager × ℕ
cleanup_now sm now =
    let to_remove = collect_idle sm now in (remove_all sm to_remove, length to_remove)

abbrev filter_idle : ℤ → ℕ → List (String × Session) → List Session
filter_idle threshold now [] = []
filter_idle threshold now ((a, s) ∷ m) =
    let rest = filter_idle threshold now m in if is_idle threshold now s then s ∷ rest else rest

abbrev pub get_idle_sessions : SessionManager → ℤ → ℕ → List Session
get_idle_sessions sm threshold now = filter_idle threshold now sm.sessions
