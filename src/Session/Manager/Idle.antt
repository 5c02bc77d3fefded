-- ===== src/Session/Manager/Idle.antt =====
-- The cleanup of idle sessions.
use mcbeproxy.Base.{
  ℕ, ◌+◌, ◌≡◌, ◌≢◌, refl, sym, ap, subst, ◌∙◌, Bool, true, false, String, str_eq, List, [], ◌∷◌,
  none, some, arith, if◌then◌else◌, length, Option-cases, Bool-cases, inl, inr,
}
use mcbeproxy.Base.Map.{
  lookup, erase, string_key, IsDistinct, lookup-erase, lookup-insert, insert-IsDistinct, insert,
  erase-IsDistinct, erase-missing, length-erase,
}
use mcbeproxy.Session.Record.{Session, update_last_seen}
use mcbeproxy.Session.Manager.{
  SessionManager, get_idle_timeout, remove, collect, collect_idle, remove_all,
  cleanup_idle_sessions, cleanup_now, is_idle, on_session, update_activity,
}

-- The cleanup's test of a session at a time.
abbrev pub expired : SessionManager → ℕ → Session → Bool
expired sm now s = is_idle (get_idle_timeout sm s) now s

-- Whether the address stands in the list.
abbrev has : String → List String → Bool
has a [] = false
has a (b ∷ bs) = if str_eq b a then true else has a bs

sessions-remove :
    (sm : SessionManager) (a : String) → (remove sm a).0.sessions ≡ erase a sm.sessions
unfolding remove
sessions-remove sm a = elim (Option-cases (lookup a sm.sessions)) [
  | inl e ↦ rw (remove, e) (sym (erase-missing a sm.sessions e))
  | inr (s, e) ↦ rw (remove, e) refl
]

lookup-remove_all :
    (sm : SessionManager) (as' : List String) (a : String)
    → IsDistinct sm.sessions
    → lookup a (remove_all sm as').sessions ≡ (if has a as' then none else lookup a sm.sessions)
unfolding remove_all
lookup-remove_all sm [] a d = refl
lookup-remove_all sm (b ∷ bs) a d =
    lookup-remove_all (remove sm b).0 bs a
      (subst IsDistinct (sym (sessions-remove sm b)) (erase-IsDistinct b sm.sessions d))
    ∙ rw (sessions-remove sm b, lookup-erase b a sm.sessions d) (ground arith)

has-collect-none :
    (test : Session → Bool) (m : List (String × Session)) (a : String)
    → lookup a m ≡ none
    → has a (collect test m) ≡ false
unfolding collect lookup
has-collect-none test [] a h = refl
has-collect-none test ((b, s) ∷ m) a h = ground (arith, has-collect-none test m a)

has-collect :
    (test : Session → Bool) (m : List (String × Session)) (a : String) (s : Session)
    → IsDistinct m
    → lookup a m ≡ some s
    → has a (collect test m) ≡ test s
unfolding collect lookup
has-collect test [] a s d h = cc
has-collect test ((b, t) ∷ m) a s d h =
    ground (arith, has-collect test m a s, has-collect-none test m a, string_key.beq_iff b a)

-- A cleanup that nothing interrupts removes exactly the sessions that are idle for longer than
-- their timeout and leaves every other one as it is, where no address stands twice.
pub cleanup_idle_sessions-lookup :
    (sm : SessionManager) (now : ℕ) (a : String)
    → IsDistinct sm.sessions
    → lookup a (cleanup_idle_sessions sm now).sessions ≡ elim (lookup a sm.sessions) [
      | none ↦ none
      | some s ↦ if expired sm now s then none else some s
    ]
unfolding cleanup_idle_sessions collect_idle
cleanup_idle_sessions-lookup sm now a d = elim (Option-cases (lookup a sm.sessions)) [
  | inl e ↦
      (lookup-remove_all sm (collect_idle sm now) a d
        ∙ rw (has-collect-none (expired sm now) sm.sessions a e, e) refl)
  | inr (s, e) ↦
      (lookup-remove_all sm (collect_idle sm now) a d
        ∙ rw (has-collect (expired sm now) sm.sessions a s d e, e) refl)
]

-- The addresses stand in the map, each once.
abbrev IsThere : List String → List (String × Session) → Type 0
IsThere [] m = Unit
IsThere (b ∷ bs) m = (has b bs ≡ false) × (lookup b m ≢ none) × IsThere bs m

IsThere-step :
    (bs : List String) (b : String) (t : Session) (m : List (String × Session))
    → IsThere bs m
    → IsThere bs ((b, t) ∷ m)
unfolding lookup
IsThere-step [] b t m h = tt
IsThere-step (a ∷ bs) b t m h = (h.0, ground arith, IsThere-step bs b t m h.2)

collect-IsThere :
    (test : Session → Bool) (m : List (String × Session))
    → IsDistinct m
    → IsThere (collect test m) m
unfolding collect lookup
collect-IsThere test [] d = tt
collect-IsThere test ((b, t) ∷ m) d = elim (Bool-cases (test t)) [
  | inl e ↦
      (rw (collect, e)
        (
          has-collect-none test m b d.0,
          ground (arith, string_key.beq_iff b b),
          IsThere-step (collect test m) b t m (collect-IsThere test m d.1),
        ))
  | inr e ↦ rw (collect, e) (IsThere-step (collect test m) b t m (collect-IsThere test m d.1))
]

IsThere-erase :
    (bs : List String) (b : String) (m : List (String × Session))
    → IsDistinct m
    → has b bs ≡ false
    → IsThere bs m
    → IsThere bs (erase b m)
IsThere-erase [] b m d n h = tt
IsThere-erase (a ∷ bs) b m d n h = (
  h.0,
  ground (arith, lookup-erase b a m d, string_key.beq_iff a b, string_key.beq_iff b a),
  IsThere-erase bs b m d (ground arith) h.2,
)

length-remove_all :
    (sm : SessionManager) (bs : List String)
    → IsDistinct sm.sessions
    → IsThere bs sm.sessions
    → length (remove_all sm bs).sessions + length bs ≡ length sm.sessions
unfolding remove_all
length-remove_all sm [] d h = omega arith
length-remove_all sm (b ∷ bs) d h = elim (Option-cases (lookup b sm.sessions)) [
  | inl e ↦ absurd (h.1 e)
  | inr (s, e) ↦
      (let gone = sessions-remove sm b in
        omega (
          arith,
          length-remove_all (remove sm b).0 bs
              (subst IsDistinct (sym gone) (erase-IsDistinct b sm.sessions d))
              (subst (IsThere bs) (sym gone) (IsThere-erase bs b sm.sessions d h.0 h.2)),
          ap length gone,
          length-erase b s sm.sessions e,
        ))
]

-- Where no address stands twice, CleanupNow leaves the same manager as cleanupIdleSessions, and the
-- number it returns is that of the sessions that are gone.
pub cleanup_now-count :
    (sm : SessionManager) (now : ℕ)
    → IsDistinct sm.sessions
    → ((cleanup_now sm now).0 ≡ cleanup_idle_sessions sm now)
      × (length (cleanup_now sm now).0.sessions + (cleanup_now sm now).1 ≡ length sm.sessions)
unfolding cleanup_now cleanup_idle_sessions collect_idle
cleanup_now-count sm now d = (
  refl,
  length-remove_all sm (collect_idle sm now) d (collect-IsThere (expired sm now) sm.sessions d),
)

-- Where no address stands twice, a session that the first pass of a cleanup found idle, and whose
-- activity is noted before the second pass, stands in the map with the time just noted and is
-- removed by the second pass all the same.
pub remove_all-update_activity :
    (sm : SessionManager) (a : String) (s : Session) (now later : ℕ)
    → IsDistinct sm.sessions
    → lookup a sm.sessions ≡ some s
    → expired sm now s ≡ true
    → (lookup a (update_activity sm a later).sessions ≡ some (update_last_seen s later))
      × (lookup a (remove_all (update_activity sm a later) (collect_idle sm now)).sessions ≡ none)
unfolding update_activity collect_idle
remove_all-update_activity sm a s now later d h old = (
  rw (active, lookup-insert a a (update_last_seen s later) sm.sessions)
      (ground (arith, string_key.beq_iff a a)),
  lookup-remove_all (update_activity sm a later) (collect_idle sm now) a (
        subst IsDistinct (sym active)
          (insert-IsDistinct a (update_last_seen s later) sm.sessions d))
      ∙ rw (has-collect (expired sm now) sm.sessions a s d h, old) refl,
)
  where
    active : (update_activity sm a later).sessions ≡ insert a (update_last_seen s later) sm.sessions
    active = rw (update_activity, on_session, h) refl
