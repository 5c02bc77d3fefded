-- ===== src/Session/Record/Counters.antt =====
-- Sequences of calls of a Session's methods: what they add up to.
use mcbeproxy.Base.{
  ℕ, ◌+◌, ◌%◌, ◌^◌, ◌≤◌, ◌<◌, ◌≡◌, refl, String, List, [], ◌∷◌, arith, if◌then◌else◌,
}
use mcbeproxy.Session.Record.{
  Session, is_positive, add_bytes_up, add_bytes_down, update_last_seen, advance_last_seen,
  backdate_start_time, add_bytes_up_and_update_last_seen, add_bytes_down_and_update_last_seen,
  set_player_info, set_player_info_with_xuid, append_login_data, clear_login_buffer,
  set_disconnect_status,
}

-- A call of a method that writes the session.
pub data SessionCall : Type 0 where
  add_up : ℕ → SessionCall
  add_down : ℕ → SessionCall
  add_up_seen : ℕ → ℕ → SessionCall
  add_down_seen : ℕ → ℕ → SessionCall
  seen : ℕ → SessionCall
  advance : ℕ → SessionCall
  backdate : ℕ → SessionCall
  player : String → String → SessionCall
  player_xuid : String → String → String → SessionCall
  login_data : List ℕ → SessionCall
  clear_login : SessionCall
  disconnect : String → String → SessionCall

abbrev pub call : Session → SessionCall → Session
call s (add_up n) = add_bytes_up s n
call s (add_down n) = add_bytes_down s n
call s (add_up_seen n now) = add_bytes_up_and_update_last_seen s n now
call s (add_down_seen n now) = add_bytes_down_and_update_last_seen s n now
call s (seen now) = update_last_seen s now
call s (advance t) = advance_last_seen s t
call s (backdate t) = backdate_start_time s t
call s (player uuid name) = (set_player_info s uuid name).0
call s (player_xuid uuid name xuid) = (set_player_info_with_xuid s uuid name xuid).0
call s (login_data d) = append_login_data s d
call s clear_login = clear_login_buffer s
call s (disconnect status reason) = set_disconnect_status s status reason

abbrev pub call_all : Session → List SessionCall → Session
call_all s [] = s
call_all s (c ∷ cs) = call_all (call s c) cs

-- What a call counts as uploaded.
abbrev pub uploaded : SessionCall → ℕ
uploaded (add_up n) = n
uploaded (add_up_seen n now) = if is_positive n then n else 0
uploaded _ = 0

abbrev pub sum_uploaded : List SessionCall → ℕ
sum_uploaded [] = 0
sum_uploaded (c ∷ cs) = uploaded c + sum_uploaded cs

bytes_up-call :
    (s : Session) (c : SessionCall)
    → s.bytes_up < 2 ^ 64
    → (call s c).bytes_up ≡ (s.bytes_up + uploaded c) % 2 ^ 64
bytes_up-call s (add_up n) h = refl
bytes_up-call s (add_down n) h = omega arith
bytes_up-call s (add_up_seen n now) h = ground arith
bytes_up-call s (add_down_seen n now) h = omega arith
bytes_up-call s (seen now) h = omega arith
bytes_up-call s (advance t) h = ground arith
bytes_up-call s (backdate t) h = ground arith
bytes_up-call s (player uuid name) h = omega arith
bytes_up-call s (player_xuid uuid name xuid) h = omega arith
bytes_up-call s (login_data d) h = omega arith
bytes_up-call s clear_login h = omega arith
bytes_up-call s (disconnect status reason) h = omega arith

-- Over any calls, the upload counter of a session whose counter fits 64 bits is its first value
-- and all that the calls count as uploaded, modulo 2^64: no other method touches it, and a call
-- that also notes the time counts only a positive amount.
pub bytes_up-call_all :
    (s : Session) (cs : List SessionCall)
    → s.bytes_up < 2 ^ 64
    → (call_all s cs).bytes_up ≡ (s.bytes_up + sum_uploaded cs) % 2 ^ 64
bytes_up-call_all s [] h = omega arith
bytes_up-call_all s (c ∷ cs) h =
    let step = bytes_up-call s c h in
    omega (arith, step, bytes_up-call_all (call s c) cs (omega (arith, step)))

-- The times that a call stores as the present.
abbrev pub IsTimely : ℕ → SessionCall → Type 0
IsTimely now (add_up_seen n t) = now ≤ t
IsTimely now (add_down_seen n t) = now ≤ t
IsTimely now (seen t) = now ≤ t
IsTimely now _ = Unit

-- The clock does not run back along the calls.
abbrev pub AreTimely : Session → List SessionCall → Type 0
AreTimely s [] = Unit
AreTimely s (c ∷ cs) = IsTimely s.last_seen c × AreTimely (call s c) cs

-- The second span of time contains the first.
abbrev pub Extends : Session → Session → Type 0
Extends s s' = (s'.start_time ≤ s.start_time) × (s.last_seen ≤ s'.last_seen)

call-Extends : (s : Session) (c : SessionCall) → IsTimely s.last_seen c → Extends s (call s c)
call-Extends s (add_up n) h = omega arith
call-Extends s (add_down n) h = omega arith
call-Extends s (add_up_seen n now) h = ground arith
call-Extends s (add_down_seen n now) h = ground arith
call-Extends s (seen now) h = omega arith
call-Extends s (advance t) h = ground arith
call-Extends s (backdate t) h = ground arith
call-Extends s (player uuid name) h = omega arith
call-Extends s (player_xuid uuid name xuid) h = omega arith
call-Extends s (login_data d) h = omega arith
call-Extends s clear_login h = omega arith
call-Extends s (disconnect status reason) h = omega arith

-- Where the clock does not run back, no calls shorten the time from a session's start to its last
-- activity: the start moves only earlier and the end only later.
pub call_all-Extends :
    (s : Session) (cs : List SessionCall) → AreTimely s cs → Extends s (call_all s cs)
call_all-Extends s [] h = omega arith
call_all-Extends s (c ∷ cs) h =
    omega (arith, call-Extends s c h.0, call_all-Extends (call s c) cs h.1)

-- No call changes what a session is known by.
pub id-call :
    (s : Session) (c : SessionCall)
    → ((call s c).id ≡ s.id) × ((call s c).client_addr ≡ s.client_addr)
id-call s (add_up n) = (refl, refl)
id-call s (add_down n) = (refl, refl)
id-call s (add_up_seen n now) = (refl, refl)
id-call s (add_down_seen n now) = (refl, refl)
id-call s (seen now) = (refl, refl)
id-call s (advance t) = ground arith
id-call s (backdate t) = ground arith
id-call s (player uuid name) = (refl, refl)
id-call s (player_xuid uuid name xuid) = (refl, refl)
id-call s (login_data d) = (refl, refl)
id-call s clear_login = (refl, refl)
id-call s (disconnect status reason) = (refl, refl)
