-- ===== src/Record.antt =====
-- transitions.go: what every lifecycle operation shares. The guards, and `record`, which builds
-- the next task and its event.
use hmntsk.Prelude.{String, ◌==◌, ◌&&◌, not, List, [], ◌∷◌, none, some, inc64, if◌then◌else◌}
use hmntsk.Status.{Status, among, can_transition, is_terminal}
use hmntsk.Operation.{
  Operation, op_cancel, op_fail, op_obsolete, op_fault, event_type_for_operation, or_untyped,
}
use hmntsk.Errors.{Result, ok, err, ◌>>◌, transition_error, authorization_error}
use hmntsk.Task.{Task, Time, normalize_time}
use hmntsk.Event.{Event}

abbrev pub Outcome : Type 0
Outcome = Result (Task × List Event)

unfoldable pub require_from : Task → Operation → Status → List Status → Result (Unit {0})
unfolding can_transition
require_from t op to from =
    if among from t.status && can_transition t.status to
    then ok tt
    else err (transition_error t.id op t.status to)

unfoldable pub require_actor : String → Operation → String → Result (Unit {0})
require_actor id op actor =
    if actor == "" then err (authorization_error id "" op "no acting actor was supplied") else ok tt

unfoldable pub require_assignee : Task → Operation → String → Result (Unit {0})
unfolding require_actor
require_assignee t op actor = do
  require_actor t.id op actor
  (if t.assignee == ""
      then err (authorization_error t.id actor op "task has no assignee")
      else if t.assignee == actor
      then ok tt
      else err (authorization_error t.id actor op "actor is not the assignee"))

unfoldable pub require_assignee_if_held : Task → Operation → String → Result (Unit {0})
unfolding require_actor require_assignee
require_assignee_if_held t op actor =
    if t.assignee == "" then require_actor t.id op actor else require_assignee t op actor

-- The terminal part of `record`: the close time is set once and the lease is dropped.
close : Task → Time → Task
close t at = record t {
  closed_at = elim t.closed_at [ none ↦ some at | some c ↦ some c ];
  locked_by = "";
  locked_until = none;
}

-- Free text that closes a task is its event's reason.
abbrev event_reason : Operation → String → String
event_reason op_fail comment = comment
event_reason op_cancel comment = comment
event_reason op_obsolete comment = comment
event_reason op_fault comment = comment
event_reason _ comment = ""

unfoldable pub next_task : Task → Status → Time → (Task → Task) → Task
unfolding close normalize_time is_terminal
next_task t to now mutate =
    let next =
      mutate
        (record t { status = to; version = inc64 t.version; updated_at = normalize_time now }) in
    if is_terminal to then close next (normalize_time now) else next

unfoldable pub event_of : Task → Task → Operation → Status → String → String → Time → Event
unfolding normalize_time
event_of t next op to actor comment now = record {
  id = "";
  event_type = or_untyped (event_type_for_operation op);
  task_id = next.id;
  task_type = next.task_type;
  status = next.status;
  version = next.version;
  actor = actor;
  assignee = next.assignee;
  candidates = next.candidates;
  previous_assignee =
      if not (t.assignee == "") && not (t.assignee == next.assignee) then t.assignee else "";
  created_by = next.created_by;
  occurred_at = normalize_time now;
  correlation = next.correlation;
  callback = next.callback;
  transition = record {
    task_id = t.id;
    version = next.version;
    operation = op;
    from = t.status;
    to = to;
    actor = actor;
    comment = comment;
    at = normalize_time now;
  };
  reason = event_reason op comment;
  output = "";
}

-- `record`: the new task and the one event that the operation produces.
unfoldable pub transition :
    Task → Operation → Status → String → String → Time → (Task → Task) → Task × List Event
unfolding next_task event_of
transition t op to actor comment now mutate =
    let next = next_task t to now mutate in (next, event_of t next op to actor comment now ∷ [])
