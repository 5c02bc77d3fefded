-- ===== src/Session/Manager/Invariant.antt =====
-- The manager's map holds each session under its own client address, once.
use mcbeproxy.Base.{
  ◌≡◌, refl, sym, subst, ◌∙◌, String, str_eq, List, [], ◌∷◌, All, Option-cases, Bool-cases, inl,
  inr,
}
use mcbeproxy.Base.Map.{
  lookup, insert, erase, string_key, IsDistinct, insert-IsDistinct, erase-IsDistinct, All-erase,
  All-lookup,
}
use mcbeproxy.Session.Record.{Session, new_session, update_last_seen}
use mcbeproxy.Session.Record.Counters.{call, id-call}
use mcbeproxy.Session.Manager.{
  SessionManager, get_or_create, remove, find_id, remove_by_id, collect, take_out, end_session,
  end_all, remove_by_player_name, remove_by_xuid, update_activity, set_remote_conn, on_session,
}
use mcbeproxy.Session.Manager.Steps.{
  Operation, step, steps, creates, removes, removes_id, removes_name, removes_xuid, updates,
  connects, calls,
}

abbrev pub IsOwn : String × Session → Type 0
IsOwn p = p.1.client_addr ≡ p.0

abbrev pub IsSound : List (String × Session) → Type 0
IsSound m = IsDistinct m × All IsOwn m

-- Each session stands under its client address, and no address stands twice.
abbrev pub IsWellFormed : SessionManager → Type 0
IsWellFormed sm = IsSound sm.sessions

insert-IsOwn :
    (a : String) (s : Session) (m : List (String × Session))
    → s.client_addr ≡ a
    → All IsOwn m
    → All IsOwn (insert a s m)
unfolding insert
insert-IsOwn a s [] e h = (e, tt)
insert-IsOwn a s ((b, t) ∷ m) e h = elim (Bool-cases (string_key.beq b a)) [
  | inl same ↦ rw same (e ∙ sym ((string_key.beq_iff b a).0 same), h.1)
  | inr other ↦ rw other (h.0, insert-IsOwn a s m e h.1)
]

insert-IsSound :
    (a : String) (s : Session) (m : List (String × Session))
    → s.client_addr ≡ a
    → IsSound m
    → IsSound (insert a s m)
insert-IsSound a s m e h = (insert-IsDistinct a s m h.0, insert-IsOwn a s m e h.1)

erase-IsSound : (a : String) (m : List (String × Session)) → IsSound m → IsSound (erase a m)
erase-IsSound a m h = (erase-IsDistinct a m h.0, All-erase IsOwn a m h.1)

take_out-IsSound :
    (as' : List String) (m : List (String × Session)) → IsSound m → IsSound (take_out as' m).0
unfolding take_out
take_out-IsSound [] m h = h
take_out-IsSound (a ∷ as') m h = elim (Option-cases (lookup a m)) [
  | inl e ↦ rw (take_out, e) (take_out-IsSound as' (erase a m) (erase-IsSound a m h))
  | inr (s, e) ↦ rw (take_out, e) (take_out-IsSound as' (erase a m) (erase-IsSound a m h))
]

-- Ending sessions touches the logs alone.
pub sessions-end_all :
    (sm : SessionManager) (ss : List Session) → (end_all sm ss).sessions ≡ sm.sessions
unfolding end_all
sessions-end_all sm [] = refl
sessions-end_all sm (s ∷ ss) = sessions-end_all (end_session sm s) ss

remove-IsWellFormed :
    (sm : SessionManager) (a : String) → IsWellFormed sm → IsWellFormed (remove sm a).0
unfolding remove
remove-IsWellFormed sm a h = elim (Option-cases (lookup a sm.sessions)) [
  | inl e ↦ rw (remove, e) h
  | inr (s, e) ↦ rw (remove, e) (erase-IsSound a sm.sessions h)
]

remove_where-IsWellFormed :
    (sm : SessionManager) (as' : List String)
    → IsWellFormed sm
    → IsWellFormed (
        end_all
          (record sm { sessions = (take_out as' sm.sessions).0 })
          (take_out as' sm.sessions).1)
remove_where-IsWellFormed sm as' h =
    subst IsSound (sym (sessions-end_all _ (take_out as' sm.sessions).1))
      (take_out-IsSound as' sm.sessions h)

on_session-IsWellFormed :
    (sm : SessionManager) (a : String) (method : Session → Session)
    → ((s : Session) → (method s).client_addr ≡ s.client_addr)
    → IsWellFormed sm
    → IsWellFormed (on_session sm a method)
on_session-IsWellFormed sm a method keeps h = elim (Option-cases (lookup a sm.sessions)) [
  | inl e ↦ rw (on_session, e) h
  | inr (s, e) ↦
      rw (on_session, e)
        (insert-IsSound a (method s) sm.sessions (keeps s ∙ All-lookup IsOwn a s sm.sessions h.1 e)
          h)
]

-- Every operation of the manager keeps each session under its own client address, and no address
-- twice.
pub step-IsWellFormed :
    (sm : SessionManager) (o : Operation) → IsWellFormed sm → IsWellFormed (step sm o)
unfolding step get_or_create remove_by_id remove_by_player_name remove_by_xuid update_activity
    set_remote_conn
step-IsWellFormed sm (creates a server id now) h = elim (Option-cases (lookup a sm.sessions)) [
  | inl e ↦
      rw (step, get_or_create, e)
        (insert-IsSound a (new_session id a server now) sm.sessions refl h)
  | inr (s, e) ↦ rw (step, get_or_create, e) h
]
step-IsWellFormed sm (removes a) h = remove-IsWellFormed sm a h
step-IsWellFormed sm (removes_id id) h = elim (Option-cases (find_id id sm.sessions)) [
  | inl e ↦ rw (step, remove_by_id, e) h
  | inr (a, e) ↦ rw (step, remove_by_id, e) (remove-IsWellFormed sm a h)
]
step-IsWellFormed sm (removes_name name) h = elim (Bool-cases (str_eq name "")) [
  | inl e ↦ rw (step, remove_by_player_name, e) h
  | inr e ↦
      rw (step, remove_by_player_name, e)
        (remove_where-IsWellFormed sm (collect (λ s. str_eq s.display_name name) sm.sessions) h)
]
step-IsWellFormed sm (removes_xuid xuid) h = elim (Bool-cases (str_eq xuid "")) [
  | inl e ↦ rw (step, remove_by_xuid, e) h
  | inr e ↦
      rw (step, remove_by_xuid, e)
        (remove_where-IsWellFormed sm (collect (λ s. str_eq s.xuid xuid) sm.sessions) h)
]
step-IsWellFormed sm (updates a now) h =
    on_session-IsWellFormed sm a (λ s. update_last_seen s now) (λ s. refl) h
step-IsWellFormed sm (connects a c) h = elim (Option-cases (lookup a sm.sessions)) [
  | inl e ↦ rw (step, set_remote_conn, e) h
  | inr (s, e) ↦
      rw (step, set_remote_conn, e)
        (on_session-IsWellFormed sm a (λ s. record s { remote_conn = c }) (λ s. refl) h)
]
step-IsWellFormed sm (calls a c) h =
    on_session-IsWellFormed sm a (λ s. call s c) (λ s. (id-call s c).1) h

pub steps-IsWellFormed :
    (sm : SessionManager) (os : List Operation) → IsWellFormed sm → IsWellFormed (steps sm os)
steps-IsWellFormed sm [] h = h
steps-IsWellFormed sm (o ∷ os) h = steps-IsWellFormed (step sm o) os (step-IsWellFormed sm o h)
