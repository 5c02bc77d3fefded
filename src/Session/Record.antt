-- ===== src/Session/Record.antt =====
-- internal/session/session.go: the fields of a Session and the methods that write them. A time
-- is a number of nanoseconds, 0 the zero time; an int64 counter is its 64-bit pattern, and its
-- argument too, so that `n > 0` is a pattern from 1 to 2^63 - 1. The mutexes are left out: a
-- method is one step.
pub mod Counters
use mcbeproxy.Base.{
  ℕ, ◌+◌, ◌%◌, ◌^◌, Bool, true, false, not, ◌&&◌, String, str_eq, List, [], ◌++◌, Option, none,
  some, ltb, ◌==◌, if◌then◌else◌,
}

pub record Session : Type 0 where
  pub id : String
  pub client_addr : String
  pub remote_conn : Option ℕ
  pub server_id : String
  pub uuid : String
  pub display_name : String
  pub xuid : String
  pub bytes_up : ℕ
  pub bytes_down : ℕ
  pub start_time : ℕ
  pub last_seen : ℕ
  pub login_buffer : List ℕ
  pub login_extracted : Bool
  pub disconnect_status : String
  pub disconnect_reason : String

-- The literal of GetOrCreate: what it leaves out has its zero value.
abbrev pub new_session : String → String → String → ℕ → Session
new_session id client_addr server_id now = record {
  id = id;
  client_addr = client_addr;
  remote_conn = none;
  server_id = server_id;
  uuid = "";
  display_name = "";
  xuid = "";
  bytes_up = 0;
  bytes_down = 0;
  start_time = now;
  last_seen = now;
  login_buffer = [];
  login_extracted = false;
  disconnect_status = "";
  disconnect_reason = "";
}

-- int64 addition, and the sign of a pattern.
abbrev pub add_int64 : ℕ → ℕ → ℕ
add_int64 a b = (a + b) % 2 ^ 64

abbrev pub is_positive : ℕ → Bool
is_positive n = ltb 0 n && ltb n (2 ^ 63)

abbrev pub add_bytes_up : Session → ℕ → Session
add_bytes_up s n = record s { bytes_up = add_int64 s.bytes_up n }

abbrev pub add_bytes_down : Session → ℕ → Session
add_bytes_down s n = record s { bytes_down = add_int64 s.bytes_down n }

abbrev pub update_last_seen : Session → ℕ → Session
update_last_seen s now = record s { last_seen = now }

-- AdvanceLastSeen: only forward.
abbrev pub advance_last_seen : Session → ℕ → Session
advance_last_seen s t =
    if t == 0 then s else (if ltb s.last_seen t then record s { last_seen = t } else s)

-- BackdateStartTime: only backward.
abbrev pub backdate_start_time : Session → ℕ → Session
backdate_start_time s t =
    if t == 0 then s else (if ltb t s.start_time then record s { start_time = t } else s)

abbrev pub add_bytes_up_and_update_last_seen : Session → ℕ → ℕ → Session
add_bytes_up_and_update_last_seen s n now = record s {
  bytes_up = if is_positive n then add_int64 s.bytes_up n else s.bytes_up;
  last_seen = now;
}

abbrev pub add_bytes_down_and_update_last_seen : Session → ℕ → ℕ → Session
add_bytes_down_and_update_last_seen s n now = record s {
  bytes_down = if is_positive n then add_int64 s.bytes_down n else s.bytes_down;
  last_seen = now;
}

-- SetPlayerInfo, with whether it logs the connect event.
abbrev pub set_player_info : Session → String → String → Session × Bool
set_player_info s uuid display_name = (
  record s { uuid = uuid; display_name = display_name; login_extracted = true },
  str_eq s.uuid "" && not (str_eq uuid ""),
)

abbrev pub set_player_info_with_xuid : Session → String → String → String → Session × Bool
set_player_info_with_xuid s uuid display_name xuid = (
  record s { uuid = uuid; display_name = display_name; xuid = xuid; login_extracted = true },
  str_eq s.uuid "" && not (str_eq uuid ""),
)

abbrev pub append_login_data : Session → List ℕ → Session
append_login_data s data' = record s { login_buffer = s.login_buffer ++ data' }

abbrev pub clear_login_buffer : Session → Session
clear_login_buffer s = record s { login_buffer = [] }

abbrev pub set_disconnect_status : Session → String → String → Session
set_disconnect_status s status reason = record s {
  disconnect_status = status;
  disconnect_reason = reason;
}
