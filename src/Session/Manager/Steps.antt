-- ===== src/Session/Manager/Steps.antt =====
-- The manager's operations as steps, and the managers they reach from a new one.
use mcbeproxy.Base.{Option, ℕ, String, List, [], ◌∷◌}
use mcbeproxy.Session.Record.Counters.{SessionCall, call}
use mcbeproxy.Session.Manager.{
  SessionManager, get_or_create, remove, remove_by_id, remove_by_player_name, remove_by_xuid,
  update_activity, set_remote_conn, on_session,
}

-- One step: a method of the manager, or of the session at an address. The removals of a cleanup
-- are steps `remove`, so that others may come between them.
pub data Operation : Type 0 where
  creates : String → String → String → ℕ → Operation
  removes : String → Operation
  removes_id : String → Operation
  removes_name : String → Operation
  removes_xuid : String → Operation
  updates : String → ℕ → Operation
  connects : String → Option ℕ → Operation
  calls : String → SessionCall → Operation

unfoldable pub step : SessionManager → Operation → SessionManager
step sm (creates a server id now) = (get_or_create sm a server id now).0
step sm (removes a) = (remove sm a).0
step sm (removes_id id) = (remove_by_id sm id).0
step sm (removes_name name) = (remove_by_player_name sm name).0
step sm (removes_xuid xuid) = (remove_by_xuid sm xuid).0
step sm (updates a now) = update_activity sm a now
step sm (connects a c) = (set_remote_conn sm a c).0
step sm (calls a c) = on_session sm a (λ s. call s c)

abbrev pub steps : SessionManager → List Operation → SessionManager
steps sm [] = sm
steps sm (o ∷ os) = steps (step sm o) os
