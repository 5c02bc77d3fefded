-- ===== src/Session/Manager/Account.antt =====
-- Every session that the manager makes is in its map or was given to OnSessionEnd, once.
use mcbeproxy.Base.{
  ℕ, ◌+◌, ◌≡◌, refl, sym, ap, ◌∙◌, true, String, str_eq, List, [], ◌∷◌, ◌++◌, none, some, arith,
  append-nil, append_assoc, if◌then◌else◌, Option-cases, Bool-cases, inl, inr,
}
use mcbeproxy.Base.Map.{lookup, insert, erase, values, string_key, erase-missing}
use mcbeproxy.Session.Record.{Session, new_session, update_last_seen}
use mcbeproxy.Session.Record.Counters.{call, id-call}
use mcbeproxy.Session.Manager.{
  SessionManager, get_or_create, remove, find_id, remove_by_id, collect, take_out, end_session,
  end_all, remove_by_player_name, remove_by_xuid, update_activity, set_remote_conn, on_session,
}
use mcbeproxy.Session.Manager.Invariant.{sessions-end_all}
use mcbeproxy.Session.Manager.Steps.{
  Operation, step, steps, creates, removes, removes_id, removes_name, removes_xuid, updates,
  connects, calls,
}

-- How many sessions of the list have this id.
abbrev pub count_id : String → List Session → ℕ
count_id x [] = 0
count_id x (s ∷ ss) = (if str_eq s.id x then 1 else 0) + count_id x ss

-- The sessions of this id that are in the map or were ended.
abbrev pub known : String → SessionManager → ℕ
known x sm = count_id x (values sm.sessions) + count_id x sm.ended

-- Whether the operation makes a session of this id.
abbrev pub makes : String → SessionManager → Operation → ℕ
makes x sm (creates a server id now) = elim (lookup a sm.sessions) [
  | none ↦ if str_eq id x then 1 else 0
  | some s ↦ 0
]
makes x sm _ = 0

abbrev pub made : String → SessionManager → List Operation → ℕ
made x sm [] = 0
made x sm (o ∷ os) = makes x sm o + made x (step sm o) os

count_id-append :
    (x : String) (ss ts : List Session) → count_id x (ss ++ ts) ≡ count_id x ss + count_id x ts
count_id-append x [] ts = omega arith
count_id-append x (s ∷ ss) ts = omega (arith, count_id-append x ss ts)

count_id-insert_new :
    (x a : String) (s : Session) (m : List (String × Session))
    → lookup a m ≡ none
    → count_id x (values (insert a s m)) ≡ count_id x (s ∷ []) + count_id x (values m)
unfolding lookup insert
count_id-insert_new x a s [] h = omega arith
count_id-insert_new x a s ((b, t) ∷ m) h = ground (arith, count_id-insert_new x a s m)

count_id-insert_old :
    (x a : String) (s s' : Session) (m : List (String × Session))
    → lookup a m ≡ some s
    → s'.id ≡ s.id
    → count_id x (values (insert a s' m)) ≡ count_id x (values m)
unfolding lookup insert
count_id-insert_old x a s s' [] h e = cc
count_id-insert_old x a s s' ((b, t) ∷ m) h e = elim (Bool-cases (string_key.beq b a)) [
  | inl same ↦
      (let there : t ≡ s = ground arith in
        rw same (
          ap (λ i. (if str_eq i x then 1 else 0) + count_id x (values m))
            (e ∙ ap (λ (r : Session). r.id) (sym there))))
  | inr other ↦
      rw other (
        ap (◌+◌ (if str_eq t.id x then 1 else 0)) (count_id-insert_old x a s s' m (ground arith) e))
]

count_id-erase :
    (x a : String) (s : Session) (m : List (String × Session))
    → lookup a m ≡ some s
    → count_id x (values m) ≡ count_id x (s ∷ []) + count_id x (values (erase a m))
unfolding lookup erase
count_id-erase x a s [] h = cc
count_id-erase x a s ((b, t) ∷ m) h = elim (Bool-cases (string_key.beq b a)) [
  | inl same ↦ (let there : t ≡ s = ground arith in rw (same, there) (omega arith))
  | inr other ↦ rw other (omega (arith, count_id-erase x a s m (ground arith)))
]

count_id-take_out :
    (x : String) (as' : List String) (m : List (String × Session))
    → count_id x (values m) ≡ count_id x (values (take_out as' m).0) + count_id x (take_out as' m).1
unfolding take_out
count_id-take_out x [] m = omega arith
count_id-take_out x (a ∷ as') m = elim (Option-cases (lookup a m)) [
  | inl e ↦ rw (take_out, e, erase-missing a m e) (count_id-take_out x as' m)
  | inr (s, e) ↦
      rw (take_out, e)
        (omega (arith, count_id-erase x a s m e, count_id-take_out x as' (erase a m)))
]

-- Both logs grow, and the setting of the callback stays.
ended-end_all :
    (sm : SessionManager) (ss : List Session)
    → sm.has_on_session_end ≡ true
    → (end_all sm ss).ended ≡ sm.ended ++ ss
unfolding end_all
ended-end_all sm [] h = sym (append-nil sm.ended)
ended-end_all sm (s ∷ ss) h =
    ended-end_all (end_session sm s) ss h
    ∙ ap (λ b. (if b then sm.ended ++ (s ∷ []) else sm.ended) ++ ss) h
    ∙ append_assoc sm.ended (s ∷ []) ss

remove-known :
    (x : String) (sm : SessionManager) (a : String)
    → sm.has_on_session_end ≡ true
    → known x (remove sm a).0 ≡ known x sm
unfolding remove
remove-known x sm a h = elim (Option-cases (lookup a sm.sessions)) [
  | inl e ↦ rw (remove, e) refl
  | inr (s, e) ↦
      rw (remove, e, h)
        (omega (arith, count_id-erase x a s sm.sessions e, count_id-append x sm.ended (s ∷ [])))
]

remove_where-known :
    (x : String) (sm : SessionManager) (as' : List String)
    → sm.has_on_session_end ≡ true
    → known x (
        end_all
          (record sm { sessions = (take_out as' sm.sessions).0 })
          (take_out as' sm.sessions).1)
      ≡ known x sm
remove_where-known x sm as' h =
    let taken = take_out as' sm.sessions in
    let sm' = record sm { sessions = taken.0 } in
    rw (sessions-end_all sm' taken.1, ended-end_all sm' taken.1 h)
      (omega (arith, count_id-take_out x as' sm.sessions, count_id-append x sm.ended taken.1))

on_session-known :
    (x : String) (sm : SessionManager) (a : String) (method : Session → Session)
    → ((s : Session) → (method s).id ≡ s.id)
    → known x (on_session sm a method) ≡ known x sm
on_session-known x sm a method keeps = elim (Option-cases (lookup a sm.sessions)) [
  | inl e ↦ rw (on_session, e) refl
  | inr (s, e) ↦
      rw (on_session, e)
        (ap (λ n. n + count_id x sm.ended)
          (count_id-insert_old x a s (method s) sm.sessions e (keeps s)))
]

no_more : {m n : ℕ} → m ≡ n → m ≡ 0 + n
no_more e = omega (arith, e)

step-known :
    (x : String) (sm : SessionManager) (o : Operation)
    → sm.has_on_session_end ≡ true
    → known x (step sm o) ≡ makes x sm o + known x sm
unfolding step get_or_create remove_by_id remove_by_player_name remove_by_xuid update_activity
    set_remote_conn
step-known x sm (creates a server id now) h = elim (Option-cases (lookup a sm.sessions)) [
  | inl e ↦
      rw (step, get_or_create, makes, e)
        (omega (arith, count_id-insert_new x a (new_session id a server now) sm.sessions e))
  | inr (s, e) ↦ rw (step, get_or_create, makes, e) (omega arith)
]
step-known x sm (removes a) h = no_more (remove-known x sm a h)
step-known x sm (removes_id id) h = elim (Option-cases (find_id id sm.sessions)) [
  | inl e ↦ rw (step, remove_by_id, e) (no_more refl)
  | inr (a, e) ↦ rw (step, remove_by_id, e) (no_more (remove-known x sm a h))
]
step-known x sm (removes_name name) h = elim (Bool-cases (str_eq name "")) [
  | inl e ↦ rw (step, remove_by_player_name, e) (no_more refl)
  | inr e ↦
      rw (step, remove_by_player_name, e)
        (no_more
          (remove_where-known x sm (collect (λ s. str_eq s.display_name name) sm.sessions) h))
]
step-known x sm (removes_xuid xuid) h = elim (Bool-cases (str_eq xuid "")) [
  | inl e ↦ rw (step, remove_by_xuid, e) (no_more refl)
  | inr e ↦
      rw (step, remove_by_xuid, e)
        (no_more (remove_where-known x sm (collect (λ s. str_eq s.xuid xuid) sm.sessions) h))
]
step-known x sm (updates a now) h =
    no_more (on_session-known x sm a (λ s. update_last_seen s now) (λ s. refl))
step-known x sm (connects a c) h = elim (Option-cases (lookup a sm.sessions)) [
  | inl e ↦ rw (step, set_remote_conn, e) (no_more refl)
  | inr (s, e) ↦
      rw (step, set_remote_conn, e)
        (no_more (on_session-known x sm a (λ s. record s { remote_conn = c }) (λ s. refl)))
]
step-known x sm (calls a c) h =
    no_more (on_session-known x sm a (λ s. call s c) (λ s. (id-call s c).0))

has-end_all :
    (sm : SessionManager) (ss : List Session)
    → (end_all sm ss).has_on_session_end ≡ sm.has_on_session_end
unfolding end_all
has-end_all sm [] = refl
has-end_all sm (s ∷ ss) = has-end_all (end_session sm s) ss

has-remove :
    (sm : SessionManager) (a : String) → (remove sm a).0.has_on_session_end ≡ sm.has_on_session_end
unfolding remove
has-remove sm a = elim (Option-cases (lookup a sm.sessions)) [
  | inl e ↦ rw (remove, e) refl
  | inr (s, e) ↦ rw (remove, e) refl
]

has-on_session :
    (sm : SessionManager) (a : String) (method : Session → Session)
    → (on_session sm a method).has_on_session_end ≡ sm.has_on_session_end
has-on_session sm a method = elim (Option-cases (lookup a sm.sessions)) [
  | inl e ↦ rw (on_session, e) refl
  | inr (s, e) ↦ rw (on_session, e) refl
]

has-step :
    (sm : SessionManager) (o : Operation) → (step sm o).has_on_session_end ≡ sm.has_on_session_end
unfolding step get_or_create remove_by_id remove_by_player_name remove_by_xuid update_activity
    set_remote_conn
has-step sm (creates a server id now) = elim (Option-cases (lookup a sm.sessions)) [
  | inl e ↦ rw (step, get_or_create, e) refl
  | inr (s, e) ↦ rw (step, get_or_create, e) refl
]
has-step sm (removes a) = has-remove sm a
has-step sm (removes_id id) = elim (Option-cases (find_id id sm.sessions)) [
  | inl e ↦ rw (step, remove_by_id, e) refl
  | inr (a, e) ↦ rw (step, remove_by_id, e) (has-remove sm a)
]
has-step sm (removes_name name) = elim (Bool-cases (str_eq name "")) [
  | inl e ↦ rw (step, remove_by_player_name, e) refl
  | inr e ↦ rw (step, remove_by_player_name, e) (has-end_all _ _)
]
has-step sm (removes_xuid xuid) = elim (Bool-cases (str_eq xuid "")) [
  | inl e ↦ rw (step, remove_by_xuid, e) refl
  | inr e ↦ rw (step, remove_by_xuid, e) (has-end_all _ _)
]
has-step sm (updates a now) = has-on_session sm a _
has-step sm (connects a c) = elim (Option-cases (lookup a sm.sessions)) [
  | inl e ↦ rw (step, set_remote_conn, e) refl
  | inr (s, e) ↦ rw (step, set_remote_conn, e) (has-on_session sm a _)
]
has-step sm (calls a c) = has-on_session sm a _

-- With OnSessionEnd set, after any operations the sessions of an id that stand in the map or were
-- given to OnSessionEnd are as many as there were before and were made since: none is lost, and
-- none is ended twice.
pub steps-known :
    (x : String) (sm : SessionManager) (os : List Operation)
    → sm.has_on_session_end ≡ true
    → known x (steps sm os) ≡ made x sm os + known x sm
steps-known x sm [] h = omega arith
steps-known x sm (o ∷ os) h =
    omega (arith, steps-known x (step sm o) os (has-step sm o ∙ h), step-known x sm o h)
