-- ===== src/Session/Tests.antt =====
-- The theorems on sessions at two clients.
use mcbeproxy.Base.{some, ◌≡◌, refl, true, [], ◌∷◌, none}
use mcbeproxy.Base.Int.{pos}
use mcbeproxy.Base.Map.{lookup, string_key, IsDistinct}
use mcbeproxy.Session.Record.{Session, new_session, update_last_seen}
use mcbeproxy.Session.Manager.{
  SessionManager, get_idle_timeout, cleanup_idle_sessions, collect_idle, remove_all,
  update_activity,
}
use mcbeproxy.Session.Manager.Steps.{step, steps, creates, removes}
use mcbeproxy.Session.Manager.Invariant.{IsWellFormed, step-IsWellFormed}
use mcbeproxy.Session.Manager.Account.{known, steps-known}
use mcbeproxy.Session.Manager.Idle.{cleanup_idle_sessions-lookup, remove_all-update_activity}

abbrev alex : Session
alex = new_session "u1" "10.0.0.1:5" "s" 100

abbrev steve : Session
steve = new_session "u2" "10.0.0.2:7" "s" 900

-- A manager with an idle timeout of 300.
abbrev manager : SessionManager
manager = record {
  sessions = ("10.0.0.1:5", alex) ∷ ("10.0.0.2:7", steve) ∷ [];
  idle_timeout = pos 300;
  idle_timeout_func = none;
  has_on_session_end = true;
  closed = [];
  ended = [];
}

manager-IsDistinct : IsDistinct manager.sessions
unfolding lookup
manager-IsDistinct = (refl, (refl, tt))

step-IsWellFormed_example : IsWellFormed (step manager (creates "10.0.0.3:1" "s" "u3" 950))
step-IsWellFormed_example =
    step-IsWellFormed manager (creates "10.0.0.3:1" "s" "u3" 950)
      (manager-IsDistinct, (refl, (refl, tt)))

steps-known_example :
    known "u3" (steps manager (creates "10.0.0.3:1" "s" "u3" 950 ∷ removes "10.0.0.3:1" ∷ [])) ≡ 1
unfolding step lookup
steps-known_example =
    steps-known "u3" manager (creates "10.0.0.3:1" "s" "u3" 950 ∷ removes "10.0.0.3:1" ∷ []) refl

cleanup_idle_sessions-lookup_example :
    lookup "10.0.0.1:5" (cleanup_idle_sessions manager 1000).sessions ≡ none
unfolding lookup get_idle_timeout
cleanup_idle_sessions-lookup_example =
    cleanup_idle_sessions-lookup manager 1000 "10.0.0.1:5" manager-IsDistinct

remove_all-update_activity_example :
    (lookup "10.0.0.1:5" (update_activity manager "10.0.0.1:5" 1001).sessions
      ≡ some (update_last_seen alex 1001))
    × (lookup "10.0.0.1:5"
          (remove_all
            (update_activity manager "10.0.0.1:5" 1001)
            (collect_idle manager 1000)).sessions
        ≡ none)
unfolding lookup get_idle_timeout
remove_all-update_activity_example =
    remove_all-update_activity manager "10.0.0.1:5" alex 1000 1001 manager-IsDistinct refl refl
